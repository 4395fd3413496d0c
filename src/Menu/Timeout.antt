-- ===== src/Menu/Timeout.antt =====
-- The timeout of the menu boots the default target.
use mathlib.Core.Option
use kexec_loader.Console.{Key}
use kexec_loader.Misc.Lists.{Store}
use kexec_loader.Misc.Lists.Chains.{Chain, Distinct}
use kexec_loader.Misc.Lists.Positions.{node_at}
use kexec_loader.Menu.{count_down, times_out, menu_main, boots}
use kexec_loader.Menu.Choice.{choose, move_all, Runs}
use kexec_loader.Menu.First.{default_position, first_position, menu_main-eq-choose}
use kexec_loader.Base.{
  if◌then◌else◌, Bool-cases, length, All, pos, ℕ, zero, suc, ◌≤◌, ◌<◌, ◌≡◌, refl, sym, ap, ◌∙◌, ◌≢◌,
  ◌⊎◌, inl, inr, Bool, true, false, none, some, List, [], ◌∷◌, ◌++◌, arith,
}

-- Position `p` holds the first default target; or no target is a default, and it is the first one.
abbrev pub FirstDefault : (ℕ → Bool) → List ℕ → ℕ → Type 0
FirstDefault is_default nodes p =
    ((is_default (node_at nodes p) ≡ true)
      × (p < length nodes)
      × ((j : ℕ) → j < p → is_default (node_at nodes j) ≡ false))
    ⊎ ((p ≡ 0) × All (λ x. is_default x ≡ false) nodes)

no_default :
    (is_default : ℕ → Bool) (nodes : List ℕ)
    → All (λ x. is_default x ≡ false) nodes
    → default_position is_default nodes ≡ none
unfolding default_position
no_default is_default [] h = refl
no_default is_default (x ∷ nodes) (off, h) =
    rw off (ap (Option.map suc) (no_default is_default nodes h))

some_default :
    (is_default : ℕ → Bool) (nodes : List ℕ) (p : ℕ)
    → is_default (node_at nodes p) ≡ true
    → p < length nodes
    → ((j : ℕ) → j < p → is_default (node_at nodes j) ≡ false)
    → default_position is_default nodes ≡ some p
unfolding default_position node_at
some_default is_default [] p set lt off = absurd (omega arith)
some_default is_default (x ∷ nodes) zero set lt off = rw set refl
some_default is_default (x ∷ nodes) (suc p) set lt off = rw (off 0 (omega arith)) (
    ap (Option.map suc)
      (some_default is_default nodes p set (omega arith) (λ j j_lt. off (suc j) (omega arith))))

FirstDefault-position :
    (is_default : ℕ → Bool) (nodes : List ℕ) (p : ℕ)
    → FirstDefault is_default nodes p
    → first_position (default_position is_default nodes) ≡ p
FirstDefault-position is_default nodes p (inl (set, lt, off)) =
    ap first_position (some_default is_default nodes p set lt off)
FirstDefault-position is_default nodes p (inr (top, off)) =
    ap first_position (no_default is_default nodes off) ∙ sym top

count_down-silent :
    (pressed : ℕ → Bool) (n : ℕ)
    → ((k : ℕ) → 0 < k → k ≤ n → pressed k ≡ false)
    → count_down pressed n ≡ true
unfolding count_down
count_down-silent pressed zero h = refl
count_down-silent pressed (suc n) h =
    rw (h (suc n) (omega arith) (omega arith))
      (count_down-silent pressed n (λ k lt le. h k lt (omega arith)))

other_second : (pressed : ℕ → Bool) (n k : ℕ) → pressed k ≡ true → pressed n ≡ false → k ≢ n
other_second pressed n k h e same = absurd (cc (sym h ∙ ap pressed same ∙ e))

count_down-pressed :
    (pressed : ℕ → Bool) (n k : ℕ) → 0 < k → k ≤ n → pressed k ≡ true → count_down pressed n ≡ false
unfolding count_down
count_down-pressed pressed zero k lt le h = absurd (omega arith)
count_down-pressed pressed (suc n) k lt le h = elim (Bool-cases (pressed (suc n))) [
  | inl e ↦ rw e refl
  | inr e ↦
      rw e (count_down-pressed pressed n k lt (omega (arith, other_second pressed (suc n) k h e)) h)
]

module _ (rows fuel : ℕ) (next : Store) (root : ℕ) (nodes : List ℕ) (chain : Chain next root nodes)
    (distinct : Distinct nodes) (enough_rows : 10 ≤ rows) (enough : length nodes < fuel) where
  run_from :
      (is_default : ℕ → Bool) (n : ℕ) (pressed : ℕ → Bool) (keys : List Key) (p : ℕ) (b : Bool)
      → 0 < length nodes
      → FirstDefault is_default nodes p
      → count_down pressed n ≡ b
      → Runs rows nodes
          ((if b then boots (node_at nodes p) ∷ [] else []) ++ choose nodes p keys)
          (move_all (length nodes) p keys)
          (menu_main fuel rows next is_default root (pos n) pressed keys)
  unfolding times_out
  run_from is_default n pressed keys p b some_target first e = rw e at (
      rw (FirstDefault-position is_default nodes p first) at (
        menu_main-eq-choose rows fuel next root nodes chain distinct enough_rows enough is_default
          (pos n) pressed keys some_target))

  -- When `timeout` is not negative and no key is pressed while it runs down, the menu boots the first
  -- default target, or the first target if none is a default, and goes on with the keys from there.
  pub menu_main-boots :
      (is_default : ℕ → Bool) (n : ℕ) (pressed : ℕ → Bool) (keys : List Key) (p : ℕ)
      → 0 < length nodes
      → FirstDefault is_default nodes p
      → ((k : ℕ) → 0 < k → k ≤ n → pressed k ≡ false)
      → Runs rows nodes
          (boots (node_at nodes p) ∷ choose nodes p keys)
          (move_all (length nodes) p keys)
          (menu_main fuel rows next is_default root (pos n) pressed keys)
  menu_main-boots is_default n pressed keys p some_target first silent =
      run_from is_default n pressed keys p true some_target first
        (count_down-silent pressed n silent)

  -- When a key is pressed in one of the seconds of `timeout`, the menu boots nothing but what the keys
  -- ask for.
  pub menu_main-pressed :
      (is_default : ℕ → Bool) (n : ℕ) (pressed : ℕ → Bool) (keys : List Key) (p k : ℕ)
      → 0 < length nodes
      → FirstDefault is_default nodes p
      → 0 < k
      → k ≤ n
      → pressed k ≡ true
      → Runs rows nodes
          (choose nodes p keys)
          (move_all (length nodes) p keys)
          (menu_main fuel rows next is_default root (pos n) pressed keys)
  menu_main-pressed is_default n pressed keys p k some_target first lt le h =
      run_from is_default n pressed keys p false some_target first
        (count_down-pressed pressed n k lt le h)
