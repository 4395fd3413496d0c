-- ===== src/Menu/First.antt =====
-- Where the menu starts, and what a whole run of it does.
use mathlib.Core.Option
use kexec_loader.Console.{Key}
use kexec_loader.Misc.Lists.{Store}
use kexec_loader.Misc.Lists.Chains.{Chain, Distinct}
use kexec_loader.Misc.Lists.Positions.{node_at, Chain-node_at, node_at-set, node_at-Distinct}
use kexec_loader.Menu.{
  Screen, go_down, find_default, scroll_to, top_screen, first_screen, times_out, menu_main, boots,
}
use kexec_loader.Menu.Selection.{Selects, Gives, go_down-Selects}
use kexec_loader.Menu.Choice.{choose, move_all, Runs, menu_loop-Runs}
use kexec_loader.Base.{
  ◌==◌, if◌then◌else◌, ==_iff, Bool-cases, length, ℤ, ℕ, zero, suc, ◌-◌, ◌≤◌, ◌<◌, ◌≡◌, refl, sym,
  ap, ◌∙◌, inl, inr, Bool, true, false, Option, none, some, List, [], ◌∷◌, ◌++◌, arith,
}

-- The position of the first default target, or the first one.
unfoldable pub default_position : (ℕ → Bool) → List ℕ → Option ℕ
default_position is_default [] = none
default_position is_default (x ∷ nodes) =
    let later = default_position is_default nodes in
    if is_default x then some 0 else Option.map suc later

abbrev pub first_position : Option ℕ → ℕ
first_position none = 0
first_position (some p) = p

-- the node at a position, or NULL for none
unfoldable node_of : List ℕ → Option ℕ → ℕ
node_of nodes none = 0
node_of nodes (some k) = node_at nodes k

node_of-suc :
    (x : ℕ) (nodes : List ℕ) (o : Option ℕ)
    → some (node_of nodes o) ≡ some (node_of (x ∷ nodes) (Option.map suc o))
unfolding node_of node_at
node_of-suc x nodes none = refl
node_of-suc x nodes (some k) = refl

find_default-position :
    (fuel : ℕ) (next : Store) (is_default : ℕ → Bool) (ptr : ℕ) (nodes : List ℕ)
    → Chain next ptr nodes
    → length nodes < fuel
    → find_default fuel next is_default ptr
      ≡ some (node_of nodes (default_position is_default nodes))
unfolding find_default default_position node_of node_at
find_default-position zero next is_default ptr nodes h enough = absurd (omega arith)
find_default-position (suc fuel) next is_default ptr [] h enough = rw h refl
find_default-position (suc fuel) next is_default ptr (x ∷ nodes) (at, set, rest) enough =
    rw (at, set)
      (elim (Bool-cases (is_default x)) [
        | inl e ↦ rw e refl
        | inr e ↦ rw e (
            find_default-position fuel next is_default (next x) nodes rest (omega arith)
            ∙ node_of-suc x nodes (default_position is_default nodes))
      ])

abbrev Below : ℕ → Option ℕ → Type 0
Below n none = Unit
Below n (some k) = k < n

Below-suc : (n : ℕ) (o : Option ℕ) → Below n o → Below (suc n) (Option.map suc o)
Below-suc n none h = tt
Below-suc n (some k) h = omega arith

default_position-Below :
    (is_default : ℕ → Bool) (nodes : List ℕ)
    → Below (length nodes) (default_position is_default nodes)
unfolding default_position
default_position-Below is_default [] = tt
default_position-Below is_default (x ∷ nodes) = elim (Bool-cases (is_default x)) [
  | inl e ↦ rw e (omega arith)
  | inr e ↦ rw e (
      Below-suc (length nodes) (default_position is_default nodes)
        (default_position-Below is_default nodes))
]

module _ (rows fuel : ℕ) (next : Store) (root : ℕ) (nodes : List ℕ) (chain : Chain next root nodes)
    (distinct : Distinct nodes) (enough_rows : 10 ≤ rows) (enough : length nodes < fuel) where
  scroll_to-Selects :
      (rounds p q : ℕ) (s : Screen)
      → Selects rows nodes p s
      → p ≤ q
      → q < length nodes
      → q - p < rounds
      → Gives (scroll_to rounds rows next (node_at nodes q) s) (Selects rows nodes q)
  unfolding scroll_to
  scroll_to-Selects zero p q s h le lt left = absurd (omega arith)
  scroll_to-Selects (suc rounds) p q s h le lt left = elim (Bool-cases (p == q)) [
    | inl e ↦
        let same : p ≡ q = (==_iff p q).0 e in
        let found : (s.target == node_at nodes q) ≡ true =
          rw h.target_at
            ((==_iff (node_at nodes p) (node_at nodes q)).1 (ap (node_at nodes) same)) in
        rw found (s, refl, rw (sym same) h)
    | inr e ↦
        let less : p < q = ground arith in
        let off : (s.target == node_at nodes q) ≡ false =
          rw h.target_at (node_at-Distinct nodes p q distinct less lt) in
        let down =
          go_down-Selects rows next root nodes chain distinct enough_rows p s h (omega arith) in
        rw off (
          scroll_to-Selects rounds (suc p) q (go_down rows next s) down (omega arith) lt
            (omega arith))
  ]

  first_screen-Selects :
      (is_default : ℕ → Bool)
      → 0 < length nodes
      → Gives
          (first_screen fuel rows next is_default root)
          (Selects rows nodes (first_position (default_position is_default nodes)))
  unfolding first_screen node_of
  first_screen-Selects is_default some_target =
      rw (find_default-position fuel next is_default root nodes chain enough)
        (by (default_position is_default nodes) (default_position-Below is_default nodes))
    where
      top : Selects rows nodes 0 (top_screen root)
      top = record {
        top = 0;
        shown = 0;
        position = refl;
        in_list = some_target;
        start_at = Chain-node_at next root nodes chain;
        target_at = Chain-node_at next root nodes chain;
        row_at = refl;
        first_in_row = inl refl;
        on_screen = inl (omega arith);
      }

      by :
          (o : Option ℕ)
          → Below (length nodes) o
          → Gives
              (if node_of nodes o == 0
                then some (top_screen root)
                else scroll_to fuel rows next (node_of nodes o) (top_screen root))
              (Selects rows nodes (first_position o))
      by none e = (top_screen root, refl, top)
      by (some k) e =
          rw (node_at-set next root nodes k chain e)
            (scroll_to-Selects fuel 0 k (top_screen root) top (omega arith) e (omega arith))

  -- On a list of distinct targets that is not empty and a screen of at least ten rows, with fuel for
  -- one round more than there are targets, the menu returns and does what its keys ask for by
  -- positions: they start at the first default target, or at the first one; each arrow moves the
  -- position by one within the list, and a byte makes its calls, on the target that is selected. In
  -- front of them stands the boot of the target at the start, if the timeout runs out.
  pub menu_main-eq-choose :
      (is_default : ℕ → Bool) (timeout : ℤ) (pressed : ℕ → Bool) (keys : List Key)
      → 0 < length nodes
      → (let p = first_position (default_position is_default nodes) in
          Runs rows nodes
            ((if times_out pressed timeout then boots (node_at nodes p) ∷ [] else [])
              ++ choose nodes p keys)
            (move_all (length nodes) p keys)
            (menu_main fuel rows next is_default root timeout pressed keys))
  unfolding menu_main
  menu_main-eq-choose is_default timeout pressed keys some_target =
      let p = first_position (default_position is_default nodes) in
      let (s, e, h) = first_screen-Selects is_default some_target in
      let (s', e', h') =
        menu_loop-Runs rows fuel next root nodes chain distinct enough_rows enough keys p s h in
      rw (e, e', h.target_at) (s', refl, h')
