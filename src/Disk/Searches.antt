-- ===== src/Disk/Searches.antt =====
-- What the search of `mount_by_id` for a disk comes to, in rounds.
use kexec_loader.Disk.{KlDisk, wait_disk, search_disk}
use kexec_loader.Base.{
  Bool-cases, ℕ, zero, suc, ◌+◌, ◌≤◌, ◌<◌, ◌≡◌, refl, sym, ap, ◌∙◌, ◌⊎◌, inl, inr, Bool, false,
  Option, none, some, arith,
}

-- The round `n` is the first in which `get_disks` finds a disk, there is a round `n`, and no key was
-- pressed in it or in a round before it; no key is waited for in the first round.
pub record FoundIn (key : ℕ → Bool) (disks : ℕ → Option KlDisk) (timeout : ℕ) (disk : KlDisk)
    : Type 0 where
  pub round : ℕ
  pub in_time : round ≤ timeout
  pub there : disks round ≡ some disk
  pub none_before : (m : ℕ) → m < round → disks m ≡ none
  pub no_key : (m : ℕ) → 1 ≤ m → m ≤ round → key m ≡ false

-- The same for the rounds from `start` on, of which there are `rounds`.
record FoundFrom (key : ℕ → Bool) (disks : ℕ → Option KlDisk) (start rounds : ℕ) (disk : KlDisk)
    : Type 0 where
  round : ℕ
  not_before : start ≤ round
  in_time : round < start + rounds
  there : disks round ≡ some disk
  none_before : (m : ℕ) → start ≤ m → m < round → disks m ≡ none
  no_key : (m : ℕ) → start ≤ m → m ≤ round → key m ≡ false

wait_disk-FoundFrom :
    (key : ℕ → Bool) (disks : ℕ → Option KlDisk) (start rounds : ℕ) (disk : KlDisk)
    → wait_disk key disks start rounds ≡ some disk
    → FoundFrom key disks start rounds disk
unfolding wait_disk
wait_disk-FoundFrom key disks start zero disk h = absurd (cc h)
wait_disk-FoundFrom key disks start (suc rounds) disk h = elim (Bool-cases (key start)) [
  | inl pressed ↦ absurd (cc (rw pressed at h))
  | inr quiet ↦
      here (disks start) refl quiet (λ k. wait_disk-FoundFrom key disks (start + 1) rounds disk k)
        (rw quiet at h)
]
  where
    same_round : (m : ℕ) → start ≤ m → m ≤ start → m ≡ start
    same_round m a b = omega arith

    start_or_later : (m : ℕ) → start ≤ m → (m ≡ start) ⊎ (start + 1 ≤ m)
    start_or_later m a = omega arith

    here :
        (o : Option KlDisk)
        → disks start ≡ o
        → key start ≡ false
        → (wait_disk key disks (start + 1) rounds ≡ some disk
            → FoundFrom key disks (start + 1) rounds disk)
        → (elim o [ none ↦ wait_disk key disks (start + 1) rounds | some d ↦ some d ]) ≡ some disk
        → FoundFrom key disks start (suc rounds) disk
    here (some d) e quiet next k = record {
      round = start;
      not_before = omega arith;
      in_time = omega arith;
      there = e ∙ k;
      none_before = λ m a b. absurd (omega arith);
      no_key = λ m a b. ap key (same_round m a b) ∙ quiet;
    }
    here none e quiet next k =
        let later = next k in
        record {
          round = later.round;
          not_before = omega (arith, later.not_before);
          in_time = omega (arith, later.in_time);
          there = later.there;
          none_before = λ m a b. elim (start_or_later m a) [
            | inl at_start ↦ ap disks at_start ∙ e
            | inr behind ↦ later.none_before m behind b
          ];
          no_key = λ m a b. elim (start_or_later m a) [
            | inl at_start ↦ ap key at_start ∙ quiet
            | inr behind ↦ later.no_key m behind b
          ];
        }

pub search_disk-FoundIn :
    (key : ℕ → Bool) (disks : ℕ → Option KlDisk) (timeout : ℕ) (disk : KlDisk)
    → search_disk key disks timeout ≡ some disk
    → FoundIn key disks timeout disk
unfolding search_disk
search_disk-FoundIn key disks timeout disk h = at_first (disks 0) refl h
  where
    first_or_later : (m : ℕ) → (m ≡ 0) ⊎ (1 ≤ m)
    first_or_later m = omega arith

    at_first :
        (o : Option KlDisk)
        → disks 0 ≡ o
        → (elim o [ none ↦ wait_disk key disks 1 timeout | some d ↦ some d ]) ≡ some disk
        → FoundIn key disks timeout disk
    at_first (some d) e k = record {
      round = 0;
      in_time = omega arith;
      there = e ∙ k;
      none_before = λ m b. elim b [ ];
      no_key = λ m a b. absurd (omega arith);
    }
    at_first none e k =
        let later = wait_disk-FoundFrom key disks 1 timeout disk k in
        record {
          round = later.round;
          in_time = omega (arith, later.in_time);
          there = later.there;
          none_before = λ m b. elim (first_or_later m) [
            | inl first ↦ ap disks first ∙ e
            | inr behind ↦ later.none_before m behind b
          ];
          no_key = later.no_key;
        }

wait_disk-none :
    (key : ℕ → Bool) (disks : ℕ → Option KlDisk) (start rounds : ℕ) (disk : KlDisk)
    → wait_disk key disks start rounds ≡ none
    → ¬ FoundFrom key disks start rounds disk
unfolding wait_disk
wait_disk-none key disks start zero disk h f = absurd (omega (arith, f.not_before, f.in_time))
wait_disk-none key disks start (suc rounds) disk h f = elim (Bool-cases (key start)) [
  | inl pressed ↦ absurd (cc (sym pressed ∙ f.no_key start (omega arith) f.not_before))
  | inr quiet ↦
      none_here (disks start) refl (λ k. wait_disk-none key disks (start + 1) rounds disk k)
        (rw quiet at h)
]
  where
    at_or_behind : (f.round ≡ start) ⊎ (start + 1 ≤ f.round)
    at_or_behind = omega (arith, f.not_before)

    none_here :
        (o : Option KlDisk)
        → disks start ≡ o
        → (wait_disk key disks (start + 1) rounds ≡ none
            → ¬ FoundFrom key disks (start + 1) rounds disk)
        → (elim o [ none ↦ wait_disk key disks (start + 1) rounds | some d ↦ some d ]) ≡ none
        → ⊥
    none_here (some d) e next k = cc k
    none_here none e next k = elim at_or_behind [
      | inl at_start ↦ cc (sym e ∙ ap disks (sym at_start) ∙ f.there)
      | inr behind ↦ next k (record {
        round = f.round;
        not_before = behind;
        in_time = omega (arith, f.in_time);
        there = f.there;
        none_before = λ m a b. f.none_before m (omega arith) b;
        no_key = λ m a b. f.no_key m (omega arith) b;
      })
    ]

pub search_disk-none :
    (key : ℕ → Bool) (disks : ℕ → Option KlDisk) (timeout : ℕ) (disk : KlDisk)
    → search_disk key disks timeout ≡ none
    → ¬ FoundIn key disks timeout disk
unfolding search_disk
search_disk-none key disks timeout disk h f = none_at_first (disks 0) refl h
  where
    first_or_behind : (f.round ≡ 0) ⊎ (1 ≤ f.round)
    first_or_behind = omega arith

    none_at_first :
        (o : Option KlDisk)
        → disks 0 ≡ o
        → (elim o [ none ↦ wait_disk key disks 1 timeout | some d ↦ some d ]) ≡ none
        → ⊥
    none_at_first (some d) e k = cc k
    none_at_first none e k = elim first_or_behind [
      | inl first ↦ cc (sym e ∙ ap disks (sym first) ∙ f.there)
      | inr behind ↦ wait_disk-none key disks 1 timeout disk k (record {
        round = f.round;
        not_before = behind;
        in_time = omega (arith, f.in_time);
        there = f.there;
        none_before = λ m a b. f.none_before m b;
        no_key = f.no_key;
      })
    ]
