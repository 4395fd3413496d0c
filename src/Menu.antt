-- ===== src/Menu.antt =====
-- menu_main of src/menu.c: which target the menu selects, and what it is asked to do.
-- The targets are a list in a store of nodes, as in Misc/Lists; the flags and the title of a node
-- are parameters, as is what poll returns. Of what the menu draws, the lines of the targets.
pub mod Selection
pub mod Choice
pub mod First
pub mod Timeout
pub mod Drawing
use mathlib.Core.Option
use kexec_loader.Console.{
  Key, key_up, key_down, key_left, key_right, key_home, key_end, key_del, key_backspace, byte,
}
use kexec_loader.Misc.Lists.{Store, list_prev}
use kexec_loader.Base.{
  ltb, ◌==◌, if◌then◌else◌, ◌>>=◌, CString, ℤ, pos, negsuc, ℕ, zero, suc, ◌+◌, ◌-◌, Bool, true,
  false, not, ◌&&◌, ◌||◌, Option, none, some, List, [], ◌∷◌, ◌++◌, map,
}

-- The locals `start`, `target` and `row`.
pub record Screen : Type 0 where
  pub start : ℕ
  pub target : ℕ
  pub row : ℕ

abbrev pub first_row : ℕ
first_row = 6

-- `target = target->next` and what moves with it: the list, or the highlighted row
unfoldable pub go_down : ℕ → Store → Screen → Screen
go_down rows next s =
    if s.row + 3 == rows && not (next (next s.target) == 0)
    then record s { start = next s.start; target = next s.target }
    else record s { target = next s.target; row = s.row + 1 }

-- the first node from `tptr` on with `TARGET_DEFAULT`, or NULL
unfoldable pub find_default : ℕ → Store → (ℕ → Bool) → ℕ → Option ℕ
find_default zero next is_default tptr = none
find_default (suc fuel) next is_default tptr =
    let later = find_default fuel next is_default (next tptr) in
    if tptr == 0 then some 0 else if is_default tptr then some tptr else later

-- the loop `while(target != tptr)`
unfoldable pub scroll_to : ℕ → ℕ → Store → ℕ → Screen → Option Screen
unfolding go_down
scroll_to zero rows next tptr s = none
scroll_to (suc fuel) rows next tptr s =
    let later = scroll_to fuel rows next tptr (go_down rows next s) in
    if s.target == tptr then some s else later

abbrev pub top_screen : ℕ → Screen
top_screen targets = record { start = targets; target = targets; row = first_row }

unfoldable pub first_screen : ℕ → ℕ → Store → (ℕ → Bool) → ℕ → Option Screen
unfolding find_default scroll_to
first_screen fuel rows next is_default targets =
    find_default fuel next is_default targets >>= λ tptr.
    if tptr == 0
    then some (top_screen targets)
    else scroll_to fuel rows next tptr (top_screen targets)

-- KEY_UP below the first row
unfoldable pub go_up : ℕ → Store → ℕ → Screen → Option Screen
unfolding list_prev
go_up fuel next targets s = list_prev fuel next s.target targets >>= λ target.
    list_prev fuel next s.start targets >>= λ tptr. some (
      if s.row == 7 && not (tptr == 0)
      then record s { start = tptr; target = target }
      else record s { target = target; row = s.row - 1 })

-- The calls that a key or the timeout makes.
pub data Call : Type 0 where
  boots : ℕ → Call
  shows_disks : Call
  opens_shell : Call

-- what a byte asks for; `toupper` maps `d` and `c` only to `D` and `C`
abbrev pub byte_calls : ℕ → ℕ → List Call
byte_calls target c =
    if c == 10
    then boots target ∷ []
    else if c == b'D' || c == b'd'
    then shows_disks ∷ []
    else if c == b'C' || c == b'c'
    then opens_shell ∷ []
    else []

-- One round of `while(1)`: the screen behind it, and the calls it makes.
unfoldable pub menu_round : ℕ → ℕ → Store → ℕ → Key → Screen → Option (List Call × Screen)
unfolding go_up go_down
menu_round fuel rows next targets key_up s =
    if ltb first_row s.row
    then Option.map (λ s'. ([], s')) (go_up fuel next targets s)
    else some ([], s)
menu_round fuel rows next targets key_down s =
    some ([], if next s.target == 0 then s else go_down rows next s)
menu_round fuel rows next targets (byte c) s = some (byte_calls s.target c, s)
menu_round fuel rows next targets key_left s = some ([], s)
menu_round fuel rows next targets key_right s = some ([], s)
menu_round fuel rows next targets key_home s = some ([], s)
menu_round fuel rows next targets key_end s = some ([], s)
menu_round fuel rows next targets key_del s = some ([], s)
menu_round fuel rows next targets key_backspace s = some ([], s)

abbrev pub then_calls : List Call → List Call × Screen → List Call × Screen
then_calls calls (rest, s) = (calls ++ rest, s)

-- `while(1)` on a sequence of keys
unfoldable pub menu_loop : ℕ → ℕ → Store → ℕ → List Key → Screen → Option (List Call × Screen)
unfolding menu_round
menu_loop fuel rows next targets [] s = some ([], s)
menu_loop fuel rows next targets (key ∷ keys) s =
    menu_round fuel rows next targets key s >>= λ (calls, s').
    Option.map (then_calls calls) (menu_loop fuel rows next targets keys s')

-- `while(timeout)`: whether `timeout` gets to 0. `pressed n` is whether poll returns another number
-- than 0 when `timeout` is `n`; `timeout` is -1 then.
unfoldable pub count_down : (ℕ → Bool) → ℕ → Bool
count_down pressed zero = true
count_down pressed (suc n) =
    let later = count_down pressed n in if pressed (suc n) then false else later

unfoldable pub times_out : (ℕ → Bool) → ℤ → Bool
unfolding count_down
times_out pressed (pos n) = count_down pressed n
times_out pressed (negsuc n) = false

-- Behind the first pass `timeout` is negative, so the later ones do not wait.
unfoldable pub menu_main :
    ℕ → ℕ → Store → (ℕ → Bool) → ℕ → ℤ → (ℕ → Bool) → List Key → Option (List Call × Screen)
unfolding first_screen times_out menu_loop
menu_main fuel rows next is_default targets timeout pressed keys =
    first_screen fuel rows next is_default targets >>= λ s.
    Option.map (then_calls (if times_out pressed timeout then boots s.target ∷ [] else []))
      (menu_loop fuel rows next targets keys s)

-- A line that `draw_menu` draws.
pub record Drawn : Type 0 where
  pub row : ℕ
  pub title : CString
  pub inverted : Bool

-- the loop of `draw_menu`, with the number of rows that are left
unfoldable pub draw_rows : ℕ → Store → (ℕ → CString) → ℕ → ℕ → ℕ → List Drawn
draw_rows zero next title selected start row = []
draw_rows (suc left) next title selected start row =
    let rest = draw_rows left next title selected (next start) (row + 1) in
    if start == 0
    then []
    else record { row = row; title = title start; inverted = row == selected } ∷ rest

-- rows 6 to `console_rows-2`
unfoldable pub draw_menu : ℕ → Store → (ℕ → CString) → ℕ → ℕ → List Drawn
unfolding draw_rows
draw_menu rows next title start selected = draw_rows (rows - 7) next title selected start first_row
