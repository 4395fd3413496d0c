-- ===== src/Misc/Config.antt =====
-- load_conf of src/misc.c: the configuration files kexec-loader.conf and kxloader.cfg.
mod State
pub mod Settings
pub mod Reads
pub mod Runs
pub mod Block
pub mod Untitled
pub mod Directives
pub mod Fits
pub mod Loaded
pub use State.*
use kexec_loader.Grub.Device.{Gdev, parse_gdev, split_line, add_gdev}
use kexec_loader.Misc.Strings.{next_value, kl_streq, kl_strceq}
use kexec_loader.Base.{
  ◌==◌, if◌then◌else◌, drop, CString, str, head_byte, is_set, strcspn, strspn, strlcpy, blanks,
  fgets_lines, atoi, negsuc, ℕ, zero, suc, ◌+◌, ◌-◌, ◌*◌, Bool, true, false, not, ◌&&◌, ◌||◌,
  Option, none, some, List, [], ◌∷◌, ◌++◌,
}

-- the loop of `CFG_CHECK_ARGS`, with `n - ac` more arguments to count
unfoldable pub has_args : ℕ → CString → Bool
has_args zero s = true
has_args (suc n) [] = false
has_args (suc n) (c ∷ s) =
    let rest = drop (strcspn (c ∷ s) blanks) (c ∷ s) in has_args n (drop (strspn rest blanks) rest)

-- `CFG_CHECK_ARGS(n)` in front of the rest of a directive
unfoldable pub check_args : ℕ → ℕ → CString → CString → Loading → Loading → Loading
unfolding has_args
check_args n lnum name val s rest =
    if has_args n val then rest else report (requires_arguments lnum name n) s

-- `CFG_CHECK_TOPEN()` in front of the rest of a directive
unfoldable pub check_topen : ℕ → CString → Loading → Loading → Loading
check_topen lnum name s rest = if s.topen == 0 then report (outside_target lnum name) s else rest

-- a message unless a field is set
abbrev pub unless_set : CString → Message → Loading → Loading
unless_set [] m s = report m s
unless_set (c ∷ field) m s = s

-- the messages of `CFG_ADD_TARGET`
abbrev pub report_missing : Loading → Loading
report_missing s =
    unless_set s.target.kernel (no_kernel s.topen) (unless_set s.target.root (no_root s.topen) s)

abbrev pub add_to_targets : Loading → Loading
add_to_targets s = record s { conf = record s.conf { targets = s.conf.targets ++ s.target ∷ [] } }

-- `CFG_ADD_TARGET()`
unfoldable pub add_target : Loading → Loading
add_target s =
    let t = report_missing s in
    if is_set s.target.root && is_set s.target.kernel then add_to_targets t else t

unfoldable pub close_target : Loading → Loading
unfolding add_target
close_target s = if s.topen == 0 then s else add_target s

abbrev pub set_timeout : CString → Loading → Loading
set_timeout val s = record s {
  conf = record s.conf { timeout = if kl_streq val (str "off") then negsuc 1 else atoi val };
}

abbrev pub set_grub_path : ℕ → CString → Loading → Loading
set_grub_path lnum val s =
    if head_byte val == b'('
    then record s { conf = record s.conf { grub_path = some val } }
    else report (no_device lnum) s

abbrev pub map_gdev : ℕ → CString → CString → Loading → Option Gdev → Loading
map_gdev lnum val val2 s none = report (invalid_gdev lnum val) s
map_gdev lnum val val2 s (some g) = record s {
  conf = record s.conf { grub_devmap = add_gdev s.conf.grub_devmap g val2 };
}

-- `grub-map`: the arguments are counted in `val` behind the call of `next_value`, which has cut it.
unfoldable pub grub_map : ℕ → CString → CString → Loading → Loading
unfolding next_value check_args parse_gdev add_gdev
grub_map lnum name val s =
    let (first, val2) = next_value val in
    check_args 2 lnum name first s (map_gdev lnum first val2 s (parse_gdev first))

abbrev pub set_autodetect : ℕ → CString → Loading → Loading
set_autodetect lnum val s =
    if kl_strceq val (str "on")
    then record s { conf = record s.conf { grub_autodetect = 2 } }
    else if kl_strceq val (str "off")
    then record s { conf = record s.conf { grub_autodetect = 0 } }
    else report (expected_on_off lnum) s

unfoldable pub open_target : ℕ → CString → Loading → Loading
unfolding close_target
open_target lnum val s = record (close_target s) {
  target = record init_target { title = strlcpy val 256 };
  topen = lnum;
}

-- `INIT_MODULE` and the copies into its fields
unfoldable pub make_module : CString → KlModule
unfolding next_value
make_module val =
    let (name, args) = next_value val in
    record { name = strlcpy name 1024; args = strlcpy args 1024 }

abbrev pub change_target : (KlTarget → KlTarget) → Loading → Loading
change_target f s = record s { target = f s.target }

abbrev pub set_root : CString → KlTarget → KlTarget
set_root val t = record t { root = strlcpy val 256 }

abbrev pub set_kernel : CString → KlTarget → KlTarget
set_kernel val t = record t { kernel = strlcpy val 1024 }

abbrev pub set_initrd : CString → KlTarget → KlTarget
set_initrd val t = record t { initrd = strlcpy val 1024 }

abbrev pub set_cmdline : CString → KlTarget → KlTarget
set_cmdline val t = record t { cmdline = strlcpy val 1024 }

abbrev pub set_append : CString → KlTarget → KlTarget
set_append val t = record t { append = strlcpy val 1024 }

abbrev pub set_default : KlTarget → KlTarget
set_default t = record t { is_default = true }

abbrev pub set_reset_vga : KlTarget → KlTarget
set_reset_vga t = record t { reset_vga = true }

abbrev pub add_module : CString → KlTarget → KlTarget
add_module val t = record t { modules = t.modules ++ make_module val ∷ [] }

abbrev pub add_kmod : CString → Loading → Loading
add_kmod val s = record s { conf = record s.conf { kmods = s.conf.kmods ++ make_module val ∷ [] } }

-- The directives inside a target block, in the order of the code.
unfoldable pub target_directive : ℕ → CString → CString → Loading → Loading
unfolding check_topen check_args make_module
target_directive lnum name val s =
    let needs_value : Loading → Loading =
      λ rest. check_topen lnum name s (check_args 1 lnum name val s rest) in
    if kl_streq name (str "root")
    then needs_value (change_target (set_root val) s)
    else if kl_streq name (str "kernel")
    then needs_value (change_target (set_kernel val) s)
    else if kl_streq name (str "initrd")
    then needs_value (change_target (set_initrd val) s)
    else if kl_streq name (str "cmdline")
    then needs_value (change_target (set_cmdline val) s)
    else if kl_streq name (str "append")
    then needs_value (change_target (set_append val) s)
    else if kl_streq name (str "default")
    then check_topen lnum name s (change_target set_default s)
    else if kl_streq name (str "reset-vga")
    then check_topen lnum name s (change_target set_reset_vga s)
    else if kl_streq name (str "module")
    then needs_value (change_target (add_module val) s)
    else if kl_streq name (str "kmod")
    then needs_value (add_kmod val s)
    else report (unknown_directive lnum name) s

unfoldable pub directive : ℕ → CString → CString → Loading → Loading
unfolding check_args grub_map open_target target_directive
directive lnum name val s =
    let needs_value = check_args 1 lnum name val s in
    if kl_streq name (str "timeout")
    then needs_value (set_timeout val s)
    else if kl_streq name (str "grub-path")
    then needs_value (set_grub_path lnum val s)
    else if kl_streq name (str "grub-map")
    then grub_map lnum name val s
    else if kl_streq name (str "grub-autodetect")
    then needs_value (set_autodetect lnum val s)
    else if kl_streq name (str "title")
    then needs_value (open_target lnum val s)
    else target_directive lnum name val s

unfoldable pub conf_line : ℕ → CString → Loading → Loading
unfolding split_line directive
conf_line lnum line s =
    let (name, val) = split_line line in
    if head_byte name == b'#' || not (is_set name) then s else directive lnum name val s

unfoldable pub conf_lines : ℕ → List CString → Loading → Loading
unfolding conf_line
conf_lines lnum [] s = s
conf_lines lnum (line ∷ lines) s = conf_lines (lnum + 1) lines (conf_line (lnum + 1) line s)

abbrev pub started : Conf → Loading
started conf = record { conf = conf; target = init_target; topen = 0; messages = [] }

-- `vfs_fopen` gives the file's content, or NULL.
unfoldable pub load_conf : Option CString → Conf → Loading
unfolding conf_lines close_target
load_conf none conf = started conf
load_conf (some content) conf =
    close_target (conf_lines 0 (fgets_lines 1024 content) (started conf))
