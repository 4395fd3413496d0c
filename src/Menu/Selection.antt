-- ===== src/Menu/Selection.antt =====
-- What the screen of the menu selects, and that scrolling keeps it on the screen.
use kexec_loader.Misc.Lists.{Store, list_prev}
use kexec_loader.Misc.Lists.Chains.{Chain, Distinct}
use kexec_loader.Misc.Lists.Positions.{
  node_at, next-node_at, node_at-set, node_at_end, before, list_prev-before,
}
use kexec_loader.Menu.{Screen, go_down, go_up}
use kexec_loader.Base.{
  ltb, ◌==◌, if◌then◌else◌, ==_iff, Bool-cases, if_split, and_true, length, ℕ, zero, suc, ◌+◌, ◌-◌,
  ◌≤◌, ◌<◌, ◌≡◌, refl, sym, ap, ◌∙◌, ◌≢◌, ◌⊎◌, inl, inr, Bool, true, false, not, ◌&&◌, Option, some,
  List, arith,
}

-- The screen selects the node at position `p`: it is `shown` rows below the first one, which shows
-- the node at position `top`; the rows end at `console_rows-2`, and the last of them is left to the
-- last node; in the first row stands only the first node.
pub record Selects (rows : ℕ) (nodes : List ℕ) (p : ℕ) (s : Screen) : Type 0 where
  pub top : ℕ
  pub shown : ℕ
  pub position : top + shown ≡ p
  pub in_list : p < length nodes
  pub start_at : s.start ≡ node_at nodes top
  pub target_at : s.target ≡ node_at nodes p
  pub row_at : s.row ≡ 6 + shown
  pub first_in_row : (top ≡ 0) ⊎ (0 < shown)
  pub on_screen : (shown + 9 ≤ rows) ⊎ ((shown + 8 ≤ rows) × (suc p ≡ length nodes))

-- A result and what holds of it.
abbrev pub Gives : Option Screen → (Screen → Type 0) → Type 0
Gives o P = (s : Screen) × (o ≡ some s) × P s

not_scrolled :
    (row rows k n : ℕ) (b : Bool)
    → b ≡ not (ltb k n)
    → (row + 3 == rows && not b) ≡ false
    → (row + 3 ≢ rows) ⊎ (n ≤ k)
not_scrolled row rows k n b h e = elim (Bool-cases (row + 3 == rows)) [
  | inl e' ↦ inr (ground arith)
  | inr e' ↦ inl (ground arith)
]

is_scrolled :
    (row rows k n : ℕ) (b : Bool)
    → b ≡ not (ltb k n)
    → (row + 3 == rows && not b) ≡ true
    → (row + 3 ≡ rows) × (k < n)
is_scrolled row rows k n b h e =
    let (same, there) = and_true (row + 3 == rows) (not b) e in
    ((==_iff (row + 3) rows).0 same, ground arith)

lower_on_screen :
    (shown row rows p n : ℕ)
    → (shown + 9 ≤ rows) ⊎ ((shown + 8 ≤ rows) × (suc p ≡ n))
    → suc p < n
    → row ≡ 6 + shown
    → (row + 3 ≢ rows) ⊎ (n ≤ suc (suc p))
    → (suc shown + 9 ≤ rows) ⊎ ((suc shown + 8 ≤ rows) × (suc (suc p) ≡ n))
lower_on_screen shown row rows p n (inr (le, same)) lt at more = absurd (omega arith)
lower_on_screen shown row rows p n (inl le) lt at (inl off) = inl (ground arith)
lower_on_screen shown row rows p n (inl le) lt at (inr last) = inr (omega arith, omega arith)

and_false : (a : Bool) → (a && false) ≡ false
and_false true = refl
and_false false = refl

left_of_and : (a b : Bool) → b ≡ false → (a && not b) ≡ false → a ≡ false
left_of_and true b h e = rw h at e
left_of_and false b h e = refl

one_less : (row shown : ℕ) → row ≡ 6 + shown → 0 < shown → (row == 7) ≡ false → 1 < shown
one_less row shown at below off = ground arith

-- Whether there is a node behind another, as the code tests it.
module _ (next : Store) (root : ℕ) (nodes : List ℕ) (chain : Chain next root nodes) where
  pub node_at-next :
      (k : ℕ) → k ≤ length nodes → (node_at nodes k == 0) ≡ not (ltb k (length nodes))
  node_at-next k le = elim (Bool-cases (ltb k (length nodes))) [
    | inl e ↦ rw e (node_at-set next root nodes k chain (ground arith))
    | inr e ↦
        let end : length nodes ≡ k = ground arith in
        rw e (ap (◌== 0) (ap (node_at nodes) (sym end) ∙ node_at_end nodes))
  ]

module _ (rows : ℕ) (next : Store) (root : ℕ) (nodes : List ℕ) (chain : Chain next root nodes)
    (distinct : Distinct nodes) (enough_rows : 10 ≤ rows) where
  pub next_target :
      (p : ℕ) (s : Screen) → Selects rows nodes p s → next s.target ≡ node_at nodes (suc p)
  next_target p s h = ap next h.target_at ∙ next-node_at next root nodes p chain h.in_list

  pub go_down-Selects :
      (p : ℕ) (s : Screen)
      → Selects rows nodes p s
      → suc p < length nodes
      → Selects rows nodes (suc p) (go_down rows next s)
  unfolding go_down
  go_down-Selects p s h lt =
      let later : next (next s.target) ≡ node_at nodes (suc (suc p)) =
        ap next (next_target p s h) ∙ next-node_at next root nodes (suc p) chain lt in
      let more : (next (next s.target) == 0) ≡ not (ltb (suc (suc p)) (length nodes)) =
        rw later (node_at-next next root nodes chain (suc (suc p)) (omega arith)) in
      let start : next s.start ≡ node_at nodes (suc h.top) =
        ap next h.start_at
        ∙ next-node_at next root nodes h.top chain (omega (arith, h.position, h.in_list)) in
      if_split (Selects rows nodes (suc p)) (s.row + 3 == rows && not (next (next s.target) == 0)) _
        _
        (λ e.
          let (same, there) = is_scrolled s.row rows (suc (suc p)) (length nodes) _ more e in
          record {
            top = suc h.top;
            shown = h.shown;
            position = omega (arith, h.position);
            in_list = lt;
            start_at = start;
            target_at = next_target p s h;
            row_at = h.row_at;
            first_in_row = inr (omega (arith, h.row_at));
            on_screen = inl (omega (arith, h.row_at));
          })
        (λ e.
          let at_end = not_scrolled s.row rows (suc (suc p)) (length nodes) _ more e in
          record {
            top = h.top;
            shown = suc h.shown;
            position = omega (arith, h.position);
            in_list = lt;
            start_at = h.start_at;
            target_at = next_target p s h;
            row_at = omega (arith, h.row_at);
            first_in_row = inr (omega arith);
            on_screen =
                lower_on_screen h.shown s.row rows p (length nodes) h.on_screen lt h.row_at at_end;
          })

  -- what `go_up` comes to when the first row is not that of the first node
  scroll_up :
      (top shown p : ℕ) (s : Screen)
      → suc top + shown ≡ suc p
      → suc p < length nodes
      → s.row ≡ 6 + shown
      → s.start ≡ node_at nodes (suc top)
      → 0 < shown
      → shown + 8 ≤ rows
      → Selects rows nodes p (
          if s.row == 7 && not (node_at nodes top == 0)
          then record s { start = node_at nodes top; target = node_at nodes p }
          else record s { target = node_at nodes p; row = s.row - 1 })
  scroll_up top shown p s at lt row start below le =
      if_split (Selects rows nodes p) (s.row == 7 && not (node_at nodes top == 0)) _ _
        (λ e.
          let (same, there) = and_true (s.row == 7) (not (node_at nodes top == 0)) e in
          let row7 : s.row ≡ 7 = (==_iff s.row 7).0 same in
          record {
            top = top;
            shown = shown;
            position = omega arith;
            in_list = omega arith;
            start_at = refl;
            target_at = refl;
            row_at = row;
            first_in_row = inr (omega arith);
            on_screen = inl (omega arith);
          })
        (λ e.
          let set : (node_at nodes top == 0) ≡ false =
            node_at-set next root nodes top chain (omega arith) in
          let off : (s.row == 7) ≡ false = left_of_and (s.row == 7) _ set e in
          let above : 1 < shown = one_less s.row shown row below off in
          record {
            top = suc top;
            shown = shown - 1;
            position = omega arith;
            in_list = omega arith;
            start_at = start;
            target_at = refl;
            row_at = omega arith;
            first_in_row = inr (omega arith);
            on_screen = inl (omega arith);
          })

  module _ (fuel : ℕ) (enough : length nodes < fuel) where
    pub go_up-Selects :
        (p : ℕ) (s : Screen)
        → Selects rows nodes (suc p) s
        → Gives (go_up fuel next root s) (Selects rows nodes p)
    unfolding go_up before
    go_up-Selects p s h =
        let target : list_prev fuel next s.target root ≡ some (node_at nodes p) =
          rw h.target_at
            (list_prev-before fuel next root nodes (suc p) chain distinct h.in_list enough) in
        let start : list_prev fuel next s.start root ≡ some (before nodes h.top) = rw h.start_at (
          list_prev-before fuel next root nodes h.top chain distinct
            (omega (arith, h.position, h.in_list)) enough) in
        rw (target, start)
          (by h.top h.shown h.position h.in_list h.start_at h.row_at h.first_in_row
            (omega (arith, h.on_screen)))
      where
        by :
            (top shown : ℕ)
            → top + shown ≡ suc p
            → suc p < length nodes
            → s.start ≡ node_at nodes top
            → s.row ≡ 6 + shown
            → (top ≡ 0) ⊎ (0 < shown)
            → shown + 8 ≤ rows
            → Gives
                (some (
                  if s.row == 7 && not (before nodes top == 0)
                  then record s { start = before nodes top; target = node_at nodes p }
                  else record s { target = node_at nodes p; row = s.row - 1 }))
                (Selects rows nodes p)
        by zero shown at lt start row first le = rw (and_false (s.row == 7)) (
          _,
          refl,
          record {
            top = 0;
            shown = p;
            position = omega arith;
            in_list = omega arith;
            start_at = start;
            target_at = refl;
            row_at = omega arith;
            first_in_row = inl refl;
            on_screen = inl (omega arith);
          },
        )
        by (suc top) shown at lt start row first le =
            (_, refl, scroll_up top shown p s at lt row start (omega arith) le)
