-- ===== src/Shell/Editor.antt =====
-- read_cmd of src/shell.c: the line editor. What it draws is left out.
-- The bytes that are typed are not NUL, so the string in `cmdbuf` has length `cmdlen`. The history
-- is the list of its entries that are not NULL, and `ac_search` a parameter: the `append` fields of
-- its list.
pub mod Lengths
pub mod Insertion
pub mod Line
pub mod Refines
pub mod Bounds
pub mod Sessions
pub mod Waiting
pub mod Completion
use kexec_loader.Misc.Strings.{kl_strins, kl_str_match_len}
use kexec_loader.Console.{
  Key, key_up, key_down, key_left, key_right, key_home, key_end, key_del, key_backspace, byte,
}
use kexec_loader.Base.{
  ltb, ◌==◌, if◌then◌else◌, length, get_elem?, take, drop, CString, str, is_set, strspn, strlcpy, ℕ,
  ◌+◌, ◌-◌, min, Bool, false, not, Option, none, some, List, [], ◌∷◌, ◌++◌,
}

abbrev pub cmdbuf_size : ℕ
cmdbuf_size = 1024

abbrev pub history_size : ℕ
history_size = 32

-- The locals of `read_cmd`. The field `hnum` is one more than the variable, which starts at -1.
pub record Editor : Type 0 where
  pub cmdbuf : CString
  pub offset : ℕ
  pub hnum : ℕ

abbrev pub AcSearch : Type 0
AcSearch = CString → ℕ → List CString

-- the loop over the pairs of neighbours in the list
unfoldable pub match_chars : CString → CString → List CString → ℕ
match_chars x y [] = kl_str_match_len x y
match_chars x y (z ∷ list) = min (kl_str_match_len x y) (match_chars y z list)

unfoldable pub app_chars : List CString → ℕ
unfolding match_chars
app_chars [] = 0
app_chars (x ∷ []) = length x
app_chars (x ∷ y ∷ list) = match_chars x y list

-- the text that is added: the first `app_chars` bytes of the first entry
unfoldable pub ac_text : List CString → CString
unfolding app_chars
ac_text [] = []
ac_text (x ∷ list) = take (app_chars (x ∷ list)) x

unfoldable pub complete : List CString → Editor → Editor
unfolding ac_text kl_strins
complete ac_list e =
    let n = app_chars ac_list in
    let buf = (kl_strins e.cmdbuf (ac_text ac_list) e.offset cmdbuf_size).0 in
    if n == 0 then e else record e { cmdbuf = buf; offset = min (e.offset + n) (length buf) }

abbrev pub insert_byte : ℕ → Editor → Editor
insert_byte c e =
    if ltb (length e.cmdbuf + 2) cmdbuf_size
    then record e {
      cmdbuf = take e.offset e.cmdbuf ++ (c ∷ drop e.offset e.cmdbuf);
      offset = e.offset + 1;
    }
    else e

abbrev pub show_entry : ℕ → Option CString → Option Editor
show_entry hnum none = none
show_entry hnum (some cmd) =
    let buf = strlcpy cmd cmdbuf_size in
    some (record { cmdbuf = buf; offset = length buf; hnum = hnum })

abbrev pub key_up_entry : Editor → Option CString → Option Editor
key_up_entry e none = some e
key_up_entry e (some cmd) = show_entry (e.hnum + 1) (some cmd)

-- One round of the loop. `none` is a read past the end of `cmdbuf`, by the `memmove` of KEY_DEL,
-- or through NULL, of an entry of the history.
unfoldable pub press : AcSearch → List CString → Key → Editor → Option Editor
unfolding complete
press ac_search history key_backspace e = some (
    if ltb 0 e.offset
    then record e {
      cmdbuf = take (e.offset - 1) e.cmdbuf ++ drop e.offset e.cmdbuf;
      offset = e.offset - 1;
    }
    else e)
press ac_search history key_left e =
    some (if ltb 0 e.offset then record e { offset = e.offset - 1 } else e)
press ac_search history key_right e =
    some (if ltb 0 (length e.cmdbuf - e.offset) then record e { offset = e.offset + 1 } else e)
press ac_search history key_home e = some (record e { offset = 0 })
press ac_search history key_end e = some (record e { offset = length e.cmdbuf })
press ac_search history key_del e =
    if ltb e.offset (length e.cmdbuf)
    then if ltb (length e.cmdbuf + 1) cmdbuf_size
      then some (record e { cmdbuf = take e.offset e.cmdbuf ++ drop (e.offset + 1) e.cmdbuf })
      else none
    else some e
press ac_search history key_up e =
    if ltb e.hnum history_size then key_up_entry e (get_elem? history e.hnum) else some e
press ac_search history key_down e =
    if ltb 0 e.hnum
    then if e.hnum == 1
      then some (record { cmdbuf = []; offset = 0; hnum = 0 })
      else show_entry (e.hnum - 1) (get_elem? history (e.hnum - 2))
    else some e
press ac_search history (byte c) e =
    some (if c == 9 then complete (ac_search e.cmdbuf e.offset) e else insert_byte c e)

-- What the loop comes to on a sequence of keys: it waits for more, it has a line, with the keys
-- behind it, or it reads where it must not.
pub data Entered : Type 0 where
  waiting : Editor → Entered
  entered : CString → List Key → Entered
  overread : Entered

abbrev pub is_newline : Key → Bool
is_newline (byte c) = c == 10
is_newline key_up = false
is_newline key_down = false
is_newline key_left = false
is_newline key_right = false
is_newline key_home = false
is_newline key_end = false
is_newline key_del = false
is_newline key_backspace = false

unfoldable pub edit_loop : AcSearch → List CString → List Key → Editor → Entered
unfolding press
edit_loop ac_search history [] e = waiting e
edit_loop ac_search history (key ∷ keys) e =
    if is_newline key then entered e.cmdbuf keys else elim (press ac_search history key e) [
      | none ↦ overread
      | some e' ↦ edit_loop ac_search history keys e'
    ]

abbrev pub new_editor : Editor
new_editor = record { cmdbuf = []; offset = 0; hnum = 0 }

-- The history when a line has been entered.
unfoldable pub add_history : CString → List CString → List CString
add_history cmdbuf history =
    if is_set (drop (strspn cmdbuf (str " ")) cmdbuf)
    then take history_size (cmdbuf ∷ history)
    else history

abbrev pub Command : Type 0
Command = CString × List CString × List Key

-- the command that is returned, the history, and the keys that are left
abbrev pub command_of : List CString → Entered → Option Command
command_of history (waiting e) = none
command_of history overread = none
command_of history (entered cmdbuf keys) =
    some (drop (strspn cmdbuf (str " ")) cmdbuf, add_history cmdbuf history, keys)

unfoldable pub read_cmd : AcSearch → List CString → List Key → Option Command
unfolding edit_loop add_history
read_cmd ac_search history keys = command_of history (edit_loop ac_search history keys new_editor)
