-- ===== src/Menu/Choice.antt =====
-- The menu by positions: a key moves the selected position by one, whatever the screen shows.
use kexec_loader.Console.{
  Key, key_up, key_down, key_left, key_right, key_home, key_end, key_del, key_backspace, byte,
}
use kexec_loader.Misc.Lists.{Store}
use kexec_loader.Misc.Lists.Chains.{Chain, Distinct}
use kexec_loader.Misc.Lists.Positions.{node_at}
use kexec_loader.Menu.{Screen, Call, byte_calls, menu_round, menu_loop}
use kexec_loader.Menu.Selection.{Selects, node_at-next, next_target, go_down-Selects, go_up-Selects}
use kexec_loader.Base.{
  ltb, ◌==◌, if◌then◌else◌, Bool-cases, length, ℕ, zero, suc, ◌+◌, ◌≤◌, ◌<◌, ◌≡◌, refl, ap, inl,
  inr, true, false, not, Option, some, List, [], ◌∷◌, ◌++◌, arith,
}

abbrev pub above : ℕ → ℕ
above zero = zero
above (suc p) = p

-- The position that a key selects in a list of `n` targets.
unfoldable pub move : ℕ → Key → ℕ → ℕ
move n key_up p = above p
move n key_down p = if ltb (suc p) n then suc p else p
move n key_left p = p
move n key_right p = p
move n key_home p = p
move n key_end p = p
move n key_del p = p
move n key_backspace p = p
move n (byte c) p = p

unfoldable pub asked : ℕ → Key → List Call
asked target key_up = []
asked target key_down = []
asked target key_left = []
asked target key_right = []
asked target key_home = []
asked target key_end = []
asked target key_del = []
asked target key_backspace = []
asked target (byte c) = byte_calls target c

-- What the keys ask for in turn, each of the node at the position selected then.
unfoldable pub choose : List ℕ → ℕ → List Key → List Call
unfolding move asked
choose nodes p [] = []
choose nodes p (key ∷ keys) =
    asked (node_at nodes p) key ++ choose nodes (move (length nodes) key p) keys

unfoldable pub move_all : ℕ → ℕ → List Key → ℕ
unfolding move
move_all n p [] = p
move_all n p (key ∷ keys) = move_all n (move n key p) keys

-- A run that makes the calls and ends on a screen that selects the position.
abbrev pub Runs : ℕ → List ℕ → List Call → ℕ → Option (List Call × Screen) → Type 0
Runs rows nodes calls p o = (s : Screen) × (o ≡ some (calls, s)) × Selects rows nodes p s

in_first_row : (row : ℕ) → row ≡ 6 → ltb 6 row ≡ false
in_first_row row at = ground arith

in_lower_row : (row shown : ℕ) → row ≡ 6 + shown → 0 < shown → ltb 6 row ≡ true
in_lower_row row shown at below = ground arith

module _ (rows fuel : ℕ) (next : Store) (root : ℕ) (nodes : List ℕ) (chain : Chain next root nodes)
    (distinct : Distinct nodes) (enough_rows : 10 ≤ rows) (enough : length nodes < fuel) where
  round_up :
      (p : ℕ) (s : Screen)
      → Selects rows nodes p s
      → Runs rows nodes [] (above p) (menu_round fuel rows next root key_up s)
  unfolding menu_round
  round_up zero s h =
      let top : ltb 6 s.row ≡ false = in_first_row s.row (omega (arith, h.position, h.row_at)) in
      rw top (s, refl, h)
  round_up (suc p) s h =
      let below : ltb 6 s.row ≡ true =
        in_lower_row s.row h.shown h.row_at (omega (arith, h.position, h.first_in_row)) in
      let (s', e, h') =
        go_up-Selects rows next root nodes chain distinct enough_rows fuel enough p s h in
      rw (below, e) (s', refl, h')

  round_down :
      (p : ℕ) (s : Screen)
      → Selects rows nodes p s
      → Runs rows nodes []
          (if ltb (suc p) (length nodes) then suc p else p)
          (menu_round fuel rows next root key_down s)
  unfolding menu_round
  round_down p s h =
      let behind : (next s.target == 0) ≡ not (ltb (suc p) (length nodes)) =
        rw (next_target rows next root nodes chain distinct enough_rows p s h)
          (node_at-next next root nodes chain (suc p) (omega (arith, h.in_list))) in
      elim (Bool-cases (ltb (suc p) (length nodes))) [
        | inl e ↦
            rw (behind, e)
              (
                _,
                refl,
                go_down-Selects rows next root nodes chain distinct enough_rows p s h
                    (ground arith),
              )
        | inr e ↦ rw (behind, e) (s, refl, h)
      ]

  menu_round-Runs :
      (key : Key) (p : ℕ) (s : Screen)
      → Selects rows nodes p s
      → Runs rows nodes
          (asked (node_at nodes p) key)
          (move (length nodes) key p)
          (menu_round fuel rows next root key s)
  unfolding menu_round move asked
  menu_round-Runs key_up p s h = round_up p s h
  menu_round-Runs key_down p s h = round_down p s h
  menu_round-Runs key_left p s h = (s, refl, h)
  menu_round-Runs key_right p s h = (s, refl, h)
  menu_round-Runs key_home p s h = (s, refl, h)
  menu_round-Runs key_end p s h = (s, refl, h)
  menu_round-Runs key_del p s h = (s, refl, h)
  menu_round-Runs key_backspace p s h = (s, refl, h)
  menu_round-Runs (byte c) p s h = (s, ap (λ t. some (byte_calls t c, s)) h.target_at, h)

  pub menu_loop-Runs :
      (keys : List Key) (p : ℕ) (s : Screen)
      → Selects rows nodes p s
      → Runs rows nodes
          (choose nodes p keys)
          (move_all (length nodes) p keys)
          (menu_loop fuel rows next root keys s)
  unfolding menu_loop choose move_all
  menu_loop-Runs [] p s h = (s, refl, h)
  menu_loop-Runs (key ∷ keys) p s h =
      let (s', e, h') = menu_round-Runs key p s h in
      let (s'', e', h'') = menu_loop-Runs keys (move (length nodes) key p) s' h' in
      rw (e, e') (s'', refl, h'')
