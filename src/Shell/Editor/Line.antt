-- ===== src/Shell/Editor/Line.antt =====
-- A line of text with a cursor, which `read_cmd` implements: the bytes in front of the cursor, the
-- last one first, and those behind it.
use kexec_loader.Console.{
  Key, key_up, key_down, key_left, key_right, key_home, key_end, key_del, key_backspace, byte,
}
use kexec_loader.Shell.Editor.{Editor, AcSearch, ac_text}
use kexec_loader.Base.{
  ltb, ◌==◌, if◌then◌else◌, length, get_elem?, take, CString, ℕ, zero, suc, ◌+◌, ◌-◌, ◌≤◌, Option,
  none, some, List, [], ◌∷◌, ◌++◌, reverse,
}

-- `entry` counts the entries of the history that have been gone back.
pub record Line : Type 0 where
  pub left : CString
  pub right : CString
  pub entry : ℕ

abbrev pub text : Line → CString
text l = reverse l.left ++ l.right

abbrev pub at_end : CString → ℕ → Line
at_end s entry = record { left = reverse s; right = []; entry = entry }

abbrev pub backspace : CString → Line → Line
backspace [] l = l
backspace (c ∷ left) l = record l { left = left }

abbrev pub move_left : CString → Line → Line
move_left [] l = l
move_left (c ∷ left) l = record l { left = left; right = c ∷ l.right }

abbrev pub move_right : CString → Line → Line
move_right [] l = l
move_right (c ∷ right) l = record l { left = c ∷ l.left; right = right }

-- A line of 1023 bytes cannot lose one behind the cursor.
abbrev pub erase : CString → Line → Option Line
erase [] l = some l
erase (c ∷ right) l =
    if ltb (length l.left + length (c ∷ right)) 1023
    then some (record l { right = right })
    else none

abbrev pub older : Line → Option CString → Option Line
older l none = some l
older l (some cmd) = some (at_end (take 1023 cmd) (l.entry + 1))

abbrev pub show : ℕ → Option CString → Option Line
show entry none = none
show entry (some cmd) = some (at_end (take 1023 cmd) entry)

abbrev pub newer : List CString → ℕ → Line → Option Line
newer history zero l = some l
newer history (suc zero) l = some (at_end [] 0)
newer history (suc (suc n)) l = show (suc n) (get_elem? history n)

-- Text comes in at the cursor; what no longer fits is lost at the end.
abbrev pub insert_text : CString → Line → Line
insert_text s l =
    let room = 1023 - length l.left in
    record l { left = reverse (take room s) ++ l.left; right = take (room - length s) l.right }

abbrev pub insert_key : ℕ → Line → Line
insert_key c l =
    if ltb (length l.left + length l.right) 1022 then record l { left = c ∷ l.left } else l

-- What a key does to the line.
unfoldable pub edit : AcSearch → List CString → Key → Line → Option Line
edit ac_search history key_backspace l = some (backspace l.left l)
edit ac_search history key_left l = some (move_left l.left l)
edit ac_search history key_right l = some (move_right l.right l)
edit ac_search history key_home l = some (record l { left = []; right = text l })
edit ac_search history key_end l = some (record l { left = reverse (text l); right = [] })
edit ac_search history key_del l = erase l.right l
edit ac_search history key_up l =
    if ltb l.entry 32 then older l (get_elem? history l.entry) else some l
edit ac_search history key_down l = newer history l.entry l
edit ac_search history (byte c) l = some (
    if c == 9 then insert_text (ac_text (ac_search (text l) (length l.left))) l else insert_key c l)

-- The editor that holds a line.
abbrev pub holding : Line → Editor
holding l = record { cmdbuf = text l; offset = length l.left; hnum = l.entry }

abbrev pub Fits : Line → Type 0
Fits l = length l.left + length l.right ≤ 1023
