-- ===== src/Menu/Drawing.antt =====
-- The line that the menu highlights is that of the target it boots.
use kexec_loader.Console.{Key, byte}
use kexec_loader.Misc.Lists.{Store}
use kexec_loader.Misc.Lists.Chains.{Chain, Distinct}
use kexec_loader.Misc.Lists.Positions.{node_at, next-node_at, node_at-set}
use kexec_loader.Menu.{Screen, Call, menu_round, menu_main, Drawn, draw_rows, draw_menu, boots}
use kexec_loader.Menu.Selection.{Selects}
use kexec_loader.Menu.First.{menu_main-eq-choose}
use kexec_loader.Base.{
  ◌==◌, if◌then◌else◌, Bool-cases, length, CString, ℤ, ℕ, zero, suc, ◌+◌, ◌-◌, ◌≤◌, ◌<◌, ◌≡◌, refl,
  sym, ap, ap₂, ◌∙◌, inl, inr, Bool, true, false, Option, some, List, [], ◌∷◌, arith,
}

-- The titles of the highlighted lines.
unfoldable pub highlighted : List Drawn → List CString
highlighted [] = []
highlighted (line ∷ lines) =
    if line.inverted then line.title ∷ highlighted lines else highlighted lines

above_none :
    (left : ℕ) (next : Store) (title : ℕ → CString) (selected start row : ℕ)
    → selected < row
    → highlighted (draw_rows left next title selected start row) ≡ []
unfolding draw_rows highlighted
above_none zero next title selected start row lt = refl
above_none (suc left) next title selected start row lt = elim (Bool-cases (start == 0)) [
  | inl e ↦ rw e refl
  | inr e ↦
      let off : (row == selected) ≡ false = ground arith in
      rw e (rw off (above_none left next title selected (next start) (row + 1) (omega arith)))
]

module _ (next : Store) (title : ℕ → CString) (root : ℕ) (nodes : List ℕ)
    (chain : Chain next root nodes) (selected p : ℕ) (in_list : p < length nodes) where
  -- `d` is the number of lines in front of the highlighted one
  draw_rows-highlighted :
      (left k d row start : ℕ)
      → selected ≡ row + d
      → p ≡ k + d
      → start ≡ node_at nodes k
      → d < left
      → highlighted (draw_rows left next title selected start row) ≡ title (node_at nodes p) ∷ []
  unfolding draw_rows highlighted
  draw_rows-highlighted zero k d row start at_row at_p at lt = absurd (omega arith)
  draw_rows-highlighted (suc left) k zero row start at_row at_p at lt =
      let set : (start == 0) ≡ false = rw at (node_at-set next root nodes k chain (omega arith)) in
      let on : (row == selected) ≡ true = ground arith in
      let same : start ≡ node_at nodes p = at ∙ ap (node_at nodes) (omega arith) in
      rw set (
        rw on (
          ap₂ (λ t lines. title t ∷ lines) same
            (above_none left next title selected (next start) (row + 1) (omega arith))))
  draw_rows-highlighted (suc left) k (suc d) row start at_row at_p at lt =
      let set : (start == 0) ≡ false = rw at (node_at-set next root nodes k chain (omega arith)) in
      let off : (row == selected) ≡ false = ground arith in
      let later : next start ≡ node_at nodes (suc k) =
        ap next at ∙ next-node_at next root nodes k chain (omega arith) in
      rw set (
        rw off (
          draw_rows-highlighted left (suc k) d (row + 1) (next start) (omega arith) (omega arith)
            later (omega arith)))

-- A run that ends on a screen with one highlighted line, of the target that a newline boots.
abbrev pub Highlights : ℕ → ℕ → Store → ℕ → (ℕ → CString) → Option (List Call × Screen) → Type 0
Highlights rows fuel next root title o =
    (calls : List Call) × (s : Screen) × (o ≡ some (calls, s))
    × (highlighted (draw_menu rows next title s.start s.row) ≡ title s.target ∷ [])
    × (menu_round fuel rows next root (byte 10) s ≡ some (boots s.target ∷ [], s))

module _ (rows fuel : ℕ) (next : Store) (root : ℕ) (nodes : List ℕ) (chain : Chain next root nodes)
    (distinct : Distinct nodes) (enough_rows : 10 ≤ rows) (enough : length nodes < fuel) where
  Selects-highlighted :
      (title : ℕ → CString) (p : ℕ) (s : Screen)
      → Selects rows nodes p s
      → highlighted (draw_menu rows next title s.start s.row) ≡ title (node_at nodes p) ∷ []
  unfolding draw_menu
  Selects-highlighted title p s h =
      draw_rows-highlighted next title root nodes chain s.row p h.in_list (rows - 7) h.top h.shown 6
        s.start h.row_at (omega (arith, h.position)) h.start_at (omega (arith, h.on_screen))

  -- Whatever keys are pressed, on a list of distinct targets that is not empty and a screen of at least
  -- ten rows, the menu then highlights exactly one line, and the newline boots the target of that line.
  pub menu_main-Highlights :
      (is_default : ℕ → Bool) (title : ℕ → CString) (timeout : ℤ) (pressed : ℕ → Bool)
      (keys : List Key)
      → 0 < length nodes
      → Highlights rows fuel next root title
          (menu_main fuel rows next is_default root timeout pressed keys)
  unfolding menu_round
  menu_main-Highlights is_default title timeout pressed keys some_target =
      let (s, e, h) =
        menu_main-eq-choose rows fuel next root nodes chain distinct enough_rows enough is_default
          timeout pressed keys some_target in
      (_, s, e, Selects-highlighted title _ s h ∙ ap (λ t. title t ∷ []) (sym h.target_at), refl)
