-- ===== src/Keymap.antt =====
-- src/keymap.c: loading a keymap file.
-- The file is what `vfs_fopen` opened, as its content, and the `ioctl` calls are the result.
pub mod Codes
pub mod Lines
use Prim.Native.String.{String}
use kexec_loader.Keymap.Codes.{codes}
use kexec_loader.Misc.Strings.{kl_streq}
use kexec_loader.Base.{
  if◌then◌else◌, take, drop, CString, str, strcspn, strspn, blanks, line_ends, fgets_lines, atoi,
  to_uchar, ℕ, ◌+◌, Option, none, some, List, [], ◌∷◌,
}

-- `struct kbentry`
pub record Kbentry : Type 0 where
  pub kb_table : ℕ
  pub kb_index : ℕ
  pub kb_value : ℕ

-- What the loop does at a line: `ioctl(…, KDSKBENT, &ke)`, the message on an unknown action, which
-- shows the line's number, or nothing.
pub data Action : Type 0 where
  set_key : Kbentry → Action
  unknown : ℕ → CString → Action
  nothing : Action

unfoldable pub find_code : CString → List (String × ℕ) → Option ℕ
find_code lp [] = none
find_code lp ((name, code) ∷ rest) =
    let later = find_code lp rest in if kl_streq lp (str name) then some code else later

abbrev pub number_bytes : CString
number_bytes = str "1234567890"

-- `lp += strspn(lp, "1234567890"); lp += strspn(lp, "\t ");`
unfoldable pub skip_number : CString → CString
skip_number lp = let rest = drop (strspn lp number_bytes) lp in drop (strspn rest blanks) rest

abbrev pub found_code : ℕ → ℕ → ℕ → CString → Option ℕ → Action
found_code lnum table index lp (some code) =
    set_key (record { kb_table = table; kb_index = index; kb_value = code })
found_code lnum table index lp none = unknown lnum lp

unfoldable pub set_action : ℕ → ℕ → ℕ → CString → Action
set_action lnum table index [] = nothing
set_action lnum table index (c ∷ lp) =
    found_code lnum table index (c ∷ lp) (find_code (c ∷ lp) codes)

-- The line from the first byte that is no line end, up to the next one.
unfoldable pub cut_line : CString → CString
cut_line line = let lp = drop (strspn line line_ends) line in take (strcspn lp line_ends) lp

unfoldable pub keymap_line : ℕ → CString → Action
unfolding cut_line skip_number set_action
keymap_line lnum line =
    let table = cut_line line in
    let index = skip_number table in
    set_action lnum (to_uchar (atoi table)) (to_uchar (atoi index)) (skip_number index)

unfoldable pub keymap_lines : ℕ → List CString → List Action
unfolding keymap_line
keymap_lines lnum [] = []
keymap_lines lnum (line ∷ lines) = keymap_line (lnum + 1) line ∷ keymap_lines (lnum + 1) lines

unfoldable pub load_keymap : Option CString → List Action
unfolding keymap_lines
load_keymap none = []
load_keymap (some content) = keymap_lines 0 (fgets_lines 1024 content)
