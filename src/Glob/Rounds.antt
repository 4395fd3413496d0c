-- ===== src/Glob/Rounds.antt =====
-- One round of the loop of `globcmp`: it gets shorter, and keeps what there is to match.
use kexec_loader.Glob.{
  Flags, mycmp, stars, is_star, star_head, seek, compare_end, Round, sought, star_round, answer,
  again,
}
use kexec_loader.Glob.Relation.{
  Glob, GlobOrEarly, star_inv, end_inv, either_leave, either_take, done, byte, leave, take_byte,
  used_up,
}
use kexec_loader.Glob.Segment.{
  segment, not_star, segment_sound, segment_complete, star_after, none_after, length-segment_le,
  mycmp-length, seek_sound, seek_complete,
}
use kexec_loader.Base.{
  ltb, ◌==◌, Bool-cases, length, drop, length-drop, CString, head_byte, strspn, ℕ, zero, suc, ◌-◌,
  ◌≤◌, ◌<◌, ◌≡◌, refl, inl, inr, true, false, Option, none, some, [], ◌∷◌, arith,
}

-- What a round that went on, or answered, says of `s` and `e`.
abbrev pub Sound : Flags → CString → CString → Round → Type 0
Sound fl e s (answer b) = b ≡ true → GlobOrEarly fl e s
Sound fl e s (again s' e') = GlobOrEarly fl e' s' → GlobOrEarly fl e s

abbrev pub Complete : Flags → Round → Type 0
Complete fl (answer b) = b ≡ true
Complete fl (again s' e') = Glob fl e' s'

abbrev pub Shorter : ℕ → Round → Type 0
Shorter n (answer b) = Unit
Shorter n (again s' e') = length e' < n

module _ (fl : Flags) (d : ℕ) (st : is_star fl d ≡ true) where
  star_all : (s : CString) → Glob fl (d ∷ []) s
  star_all [] = leave st done
  star_all (c ∷ s) = take_byte st (star_all s)

  merge : {e : CString} (s : CString) → Glob fl (d ∷ d ∷ e) s → Glob fl (d ∷ e) s
  merge s (byte n b x) = cc
  merge s (leave _ x) = x
  merge (c ∷ s) (take_byte _ x) = take_byte st (merge s x)

  star_is : (x : ℕ) → (x == b'*') ≡ true → x ≡ d
  star_is x h = ground arith

  pub skip_stars : (e s : CString) → Glob fl (d ∷ e) s → Glob fl (d ∷ drop (strspn e stars) e) s
  skip_stars [] s m = m
  skip_stars (x ∷ e) s m = elim (Bool-cases (x == b'*')) [
    | inl same ↦ rw same (skip_stars e s (merge s (rw (star_is x same) at m)))
    | inr other ↦ rw other m
  ]

  pub unskip_stars :
      (e s : CString) → GlobOrEarly fl (d ∷ drop (strspn e stars) e) s → GlobOrEarly fl (d ∷ e) s
  unskip_stars [] s m = m
  unskip_stars (x ∷ e) s m = elim (Bool-cases (x == b'*')) [
    | inl same ↦ rw (star_is x same) (either_leave st (unskip_stars e s (rw same at m)))
    | inr other ↦ rw other at m
  ]

pub head-not_star : (fl : Flags) (e : CString) → star_head fl (drop (strspn e stars) e) ≡ false
head-not_star fl [] = refl
head-not_star fl (x ∷ e) = elim (Bool-cases (x == b'*')) [
  | inl same ↦ rw same (head-not_star fl e)
  | inr other ↦ rw other (not_star fl x other)
]

drop_end : (n : ℕ) (s : CString) → length s ≤ n → drop n s ≡ []
drop_end zero [] h = refl
drop_end zero (c ∷ s) h = elim h [ ]
drop_end (suc n) [] h = refl
drop_end (suc n) (c ∷ s) h = drop_end n s (omega arith)

compare_end_sound :
    (fl : Flags) (s e : CString) (d : ℕ)
    → is_star fl d ≡ true
    → star_head fl e ≡ false
    → drop (segment e) e ≡ []
    → compare_end fl s e (segment e) ≡ true
    → GlobOrEarly fl (d ∷ e) s
unfolding compare_end
compare_end_sound fl s e d st ns last h =
    let n = segment e in
    let k = length s - n in
    let fits : n ≤ length s = ground arith in
    let same : mycmp (drop k s) e n fl ≡ true = ground arith in
    let ended : drop n (drop k s) ≡ [] = drop_end n (drop k s) (omega (arith, length-drop k s)) in
    let rest : GlobOrEarly fl (drop n e) (drop n (drop k s)) = rw (last, ended) (inl done) in
    either_take d e s k st ns (segment_sound fl e (drop k s) same rest)

ended_inv : {fl : Flags} (s : CString) → Glob fl [] s → length s ≡ 0
ended_inv [] m = refl
ended_inv (c ∷ s) m = elim m [ ]

compare_end_complete :
    (fl : Flags) (s e : CString) (d : ℕ)
    → is_star fl d ≡ true
    → drop (segment e) e ≡ []
    → Glob fl (d ∷ e) s
    → compare_end fl s e (segment e) ≡ true
unfolding compare_end
compare_end_complete fl s e d st last m =
    let n = segment e in
    let (k, le, found) = star_inv s st m in
    let (same, rest) = segment_complete fl e (drop k s) found in
    let ended : length (drop n (drop k s)) ≡ 0 = ended_inv (drop n (drop k s)) (rw last at rest) in
    let long : n ≤ length (drop k s) = mycmp-length fl (drop k s) e n (length-segment_le e) same in
    let at_k : length s - n ≡ k = omega (arith, length-drop n (drop k s), length-drop k s) in
    let fits : ltb (length s) n ≡ false = ground (arith, length-drop k s) in rw (fits, at_k) same

sought-Sound :
    (fl : Flags) (d : ℕ) (e s : CString) (o : Option CString)
    → is_star fl d ≡ true
    → ((s' : CString)
        → o ≡ some s'
        → GlobOrEarly fl (drop (segment e) e) (drop (segment e) s')
        → GlobOrEarly fl (d ∷ e) s)
    → Sound fl (d ∷ e) s (sought o e (segment e))
sought-Sound fl d e s none st h = λ x. cc
sought-Sound fl d e s (some s') st h = h s' refl

pub star_round-Sound :
    (fl : Flags) (d : ℕ) (e s : CString)
    → is_star fl d ≡ true
    → star_head fl e ≡ false
    → Sound fl (d ∷ e) s (star_round fl s e)
unfolding star_round
star_round-Sound fl d e [] st ns = λ _. inr (used_up st)
star_round-Sound fl d [] (c ∷ s) st ns = λ _. inl (star_all fl d st (c ∷ s))
star_round-Sound fl d (x ∷ e) (c ∷ s) st ns =
    elim (Bool-cases (head_byte (drop (segment (x ∷ e)) (x ∷ e)) == b'*')) [
      | inl more ↦ rw more (
          sought-Sound fl d (x ∷ e) (c ∷ s) (seek fl (x ∷ e) (segment (x ∷ e)) (c ∷ s)) st
            λ s' found rest.
              let (same, (k, at_k)) = seek_sound fl (x ∷ e) (segment (x ∷ e)) (c ∷ s) s' found in
              either_take d (x ∷ e) (c ∷ s) k st ns
                (rw (← at_k) (segment_sound fl (x ∷ e) s' same rest)))
      | inr last ↦ rw last (compare_end_sound fl (c ∷ s) (x ∷ e) d st ns (none_after (x ∷ e) last))
    ]

pub star_round-Complete :
    (fl : Flags) (d : ℕ) (e s : CString)
    → is_star fl d ≡ true
    → is_star fl b'*' ≡ true
    → star_head fl e ≡ false
    → Glob fl (d ∷ e) s
    → Complete fl (star_round fl s e)
unfolding star_round
star_round-Complete fl d e [] st star ns m = refl
star_round-Complete fl d [] (c ∷ s) st star ns m = refl
star_round-Complete fl d (x ∷ e) (c ∷ s) st star ns m =
    elim (Bool-cases (head_byte (drop (segment (x ∷ e)) (x ∷ e)) == b'*')) [
      | inl more ↦
          let (r, after) = star_after (x ∷ e) more in
          let (s', found, rest) =
            seek_complete fl (x ∷ e) r (c ∷ s) d st star after (end_inv ns) m in
          rw more (rw found rest)
      | inr last ↦
          rw last (compare_end_complete fl (c ∷ s) (x ∷ e) d st (none_after (x ∷ e) last) m)
    ]

sought-Shorter :
    (o : Option CString) (e : CString) (n m : ℕ) → length e < m → Shorter m (sought o e n)
sought-Shorter none e n m h = tt
sought-Shorter (some s') e n m h = omega (arith, length-drop n e)

pub star_round-Shorter :
    (fl : Flags) (s e : CString) (m : ℕ) → length e < m → Shorter m (star_round fl s e)
unfolding star_round
star_round-Shorter fl [] e m h = tt
star_round-Shorter fl (c ∷ s) [] m h = tt
star_round-Shorter fl (c ∷ s) (x ∷ e) m h =
    elim (Bool-cases (head_byte (drop (segment (x ∷ e)) (x ∷ e)) == b'*')) [
      | inl more ↦
          rw more (
            sought-Shorter (seek fl (x ∷ e) (segment (x ∷ e)) (c ∷ s)) (x ∷ e) (segment (x ∷ e)) m
              h)
      | inr last ↦ rw last tt
    ]
