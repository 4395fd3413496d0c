-- ===== src/Grub/Config.antt =====
-- grub2_val and load_grub2_cfg of src/grub.c: the targets of a grub.cfg of GRUB 2. What it prints is
-- left out.
mod State
pub mod Commands
pub mod Values
pub mod Arguments
pub mod Handlers
pub mod Kept
pub mod Chosen
pub mod Entry
unfoldable pub use State.*
use kexec_loader.Misc.Strings.{next_value, kl_streq}
use kexec_loader.Misc.Config.{set_root, KlTarget, init_target}
use kexec_loader.Grub.Menu.{}
use kexec_loader.Base.{
  ◌==◌, if◌then◌else◌, length, take, drop, CString, str, head_byte, is_set, strcspn, strspn, blanks,
  line_ends, fgets_lines, strncmp_eq, ℤ, negsuc, ℕ, zero, suc, ◌+◌, ◌*◌, Bool, true, false, not,
  ◌&&◌, ◌||◌, Option, none, some, List, [], ◌∷◌, ◌++◌,
}

-- `search_by`
pub data SearchBy : Type 0 where
  unknown : SearchBy
  file : SearchBy
  fs_label : SearchBy
  fs_uuid : SearchBy

-- The locals of the loop over the arguments of `search`.
pub record Search : Type 0 where
  pub search_by : SearchBy
  pub sets_root : Bool
  pub l_set : Bool

-- the length of the argument and where the next one begins
unfoldable pub next_arg : CString → ℕ × CString
next_arg args =
    let len = strcspn args blanks in
    if strncmp_eq args (str "--set=") 6
    then (5, drop 6 args)
    else (len, drop (strspn (drop len args) blanks) (drop len args))

abbrev pub by_option : ℕ → Bool → CString → Search → Search
by_option len is_last args s =
    if strncmp_eq args (str "-f") len || strncmp_eq args (str "--file") len
    then record s { search_by = file }
    else if strncmp_eq args (str "-l") len || strncmp_eq args (str "--label") len
    then record s { search_by = fs_label }
    else if strncmp_eq args (str "-u") len || strncmp_eq args (str "--fs-uuid") len
    then record s { search_by = fs_uuid }
    else if strncmp_eq args (str "--set") len
    then record s { l_set = true }
    else if s.l_set && (is_last || strncmp_eq args (str "root") len)
    then record s { sets_root = true; l_set = false }
    else s

-- The locals behind the loop, and where `args` stands then. Each round takes a byte at least, so
-- the length of `args` is fuel enough.
unfoldable pub search_args : ℕ → CString → Search → CString × Search
unfolding next_arg
search_args zero args s = (args, s)
search_args (suc fuel) args s =
    let (len, next) = next_arg args in
    let is_last = not (is_set next) in
    let after = by_option len is_last args s in
    let later = search_args fuel next after in
    if not (is_set args) then (args, s) else if is_last then (args, after) else later

-- the `switch`
unfoldable pub root_by : SearchBy → CString → Grub2 → Grub2
root_by unknown args s = s
root_by file args s = s
root_by fs_label args s = record s { target = set_root (str "LABEL=" ++ args) s.target }
root_by fs_uuid args s = record s { target = set_root (str "UUID=" ++ args) s.target }

abbrev pub search_kind : CString → SearchBy
search_kind cmd =
    if kl_streq cmd (str "search.file")
    then file
    else if kl_streq cmd (str "search.fs_label")
    then fs_label
    else if kl_streq cmd (str "search.fs_uuid")
    then fs_uuid
    else unknown

-- `if(set_root)`, with where `args` stands and the locals
abbrev pub end_search : CString → Search → Grub2 → Grub2
end_search args search s = if search.sets_root then root_by search.search_by args s else s

unfoldable pub search_line : CString → CString → Grub2 → Grub2
unfolding search_args root_by kl_streq
search_line cmd args s =
    let start : Search = record { search_by = search_kind cmd; sets_root = false; l_set = false } in
    let (last, search) = search_args (length args) args start in end_search last search s

abbrev pub is_linux : CString → Bool
is_linux cmd = kl_streq cmd (str "linux") || kl_streq cmd (str "linux16")

abbrev pub is_initrd : CString → Bool
is_initrd cmd = kl_streq cmd (str "initrd") || kl_streq cmd (str "initrd16")

abbrev pub is_search : CString → Bool
is_search cmd =
    kl_streq cmd (str "search")
    || kl_streq cmd (str "search.file")
    || kl_streq cmd (str "search.fs_label")
    || kl_streq cmd (str "search.fs_uuid")

-- The tests of the command, in the order of the code.
unfoldable pub grub2_command : ℕ → CString → CString → Grub2 → AfterLine
unfolding kl_streq menuentry set_line linux_line initrd_line search_line
grub2_command lnum cmd args s =
    if kl_streq cmd (str "menuentry")
    then menuentry lnum args s
    else if kl_streq cmd (str "}") && not (s.entry_start == 0)
    then next_line (close_entry s)
    else if kl_streq cmd (str "chainloader")
    then next_line (record s { skip_entry = true })
    else if kl_streq cmd (str "set")
    then set_line args s
    else if is_linux cmd
    then linux_line args s
    else if is_initrd cmd
    then initrd_line args s
    else if is_search cmd
    then next_line (search_line cmd args s)
    else next_line s

-- the command and its arguments
unfoldable pub split_command : CString → CString × CString
unfolding next_value
split_command buf =
    let start = drop (strspn buf (line_ends ++ blanks)) buf in
    next_value (take (strcspn start line_ends) start)

unfoldable pub grub2_line : ℕ → CString → Grub2 → AfterLine
unfolding split_command grub2_command
grub2_line lnum buf s =
    let (cmd, args) = split_command buf in
    if head_byte cmd == b'#' || not (is_set cmd) then next_line s else grub2_command lnum cmd args s

unfoldable pub grub2_lines : ℕ → List CString → Grub2 → Grub2
unfolding grub2_line
grub2_lines lnum [] s = s
grub2_lines lnum (buf ∷ lines) s = elim (grub2_line (lnum + 1) buf s) [
  | next_line t ↦ grub2_lines (lnum + 1) lines t
  | goto_end t ↦ t
]

abbrev pub start_grub2 : ℤ → List KlTarget → Grub2
start_grub2 timeout targets = record {
  timeout = timeout;
  targets = targets;
  target = init_target;
  entry_start = 0;
  skip_entry = false;
  default_title = none;
  default_index = negsuc 0;
  cur_index = 0;
}

-- `vfs_fopen` gives the file's content, or NULL.
unfoldable pub load_grub2_cfg : Option CString → ℤ → List KlTarget → Grub2
unfolding grub2_lines
load_grub2_cfg none timeout targets = start_grub2 timeout targets
load_grub2_cfg (some content) timeout targets =
    grub2_lines 0 (fgets_lines 1024 content) (start_grub2 timeout targets)
