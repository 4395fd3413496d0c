-- ===== src/Grub/Menu.antt =====
-- load_menu of src/grub.c: the targets of a menu.lst of GRUB Legacy. What it prints is left out.
pub mod Paths
pub mod Kept
pub mod Entries
use kexec_loader.Misc.Strings.{next_value, kl_streq}
use kexec_loader.Misc.Config.{KlTarget, init_target, set_root, set_cmdline}
use kexec_loader.Grub.Device.{Gdev, lookup_gdev, split_line}
use kexec_loader.Base.{
  ◌==◌, if◌then◌else◌, CString, str, head_byte, is_set, strlcpy, fgets_lines, ℤ, atoi, pos, negsuc,
  ℕ, ◌+◌, Bool, true, false, not, ◌&&◌, ◌||◌, Option, none, some, List, [], ◌∷◌, ◌++◌,
}

-- The globals `timeout` and `targets`, and the locals of `load_menu`. `target` and `tskip` are read
-- only when `topen` is not 0; `tskip` is 1 as `true`.
pub record Menu : Type 0 where
  pub timeout : ℤ
  pub targets : List KlTarget
  pub target : KlTarget
  pub topen : ℕ
  pub defnum : ℤ
  pub tnum : ℕ
  pub tskip : Bool

-- behind the first `)`: `strchr(src, ')') + 1`
unfoldable pub after_close : CString → CString
after_close [] = []
after_close (c ∷ src) = if c == b')' then src else after_close src

abbrev pub on_device : ℕ → CString → Option CString → Option CString
on_device size src none = none
on_device size src (some dev) =
    some (strlcpy (str "(" ++ (dev ++ (str ")" ++ after_close src))) size)

-- `GRUB_CONV_PATH` into a field of `size` bytes; `none` is an unknown device.
unfoldable pub conv_path : List Gdev → ℕ → CString → Option CString
unfolding lookup_gdev after_close
conv_path devmap size src =
    if head_byte src == b'('
    then on_device size src (lookup_gdev devmap src)
    else some (strlcpy src size)

-- `GRUB_ADD_TARGET()`
unfoldable pub add_menu_target : Menu → Menu
add_menu_target s =
    if not (s.topen == 0) && not s.tskip && is_set s.target.root && is_set s.target.kernel
    then record s { targets = s.targets ++ s.target ∷ [] }
    else s

-- `timeout == -1`
abbrev pub is_unset : ℤ → Bool
is_unset (pos n) = false
is_unset (negsuc n) = n == 0

-- `tnum == defnum`
abbrev pub is_entry : ℕ → ℤ → Bool
is_entry tnum (pos n) = tnum == n
is_entry tnum (negsuc n) = false

unfoldable pub open_entry : ℕ → CString → Menu → Menu
unfolding add_menu_target
open_entry lnum val s = record (add_menu_target s) {
  target = record init_target {
    title = strlcpy val 256;
    reset_vga = true;
    is_default = is_entry s.tnum s.defnum;
  };
  topen = lnum;
  tskip = false;
  tnum = s.tnum + 1;
}

abbrev pub change_entry : (KlTarget → KlTarget) → Menu → Menu
change_entry f s = record s { target = f s.target }

-- The rest of a directive with a path: `continue` when its device is unknown.
abbrev pub with_path : (CString → KlTarget → KlTarget) → Option CString → Menu → Menu
with_path f none s = s
with_path f (some path) s = change_entry (f path) s

abbrev pub root_directive : List Gdev → CString → Menu → Menu
root_directive devmap [] s = record s { tskip = true }
root_directive devmap (c ∷ val) s = with_path set_root (lookup_gdev devmap (c ∷ val)) s

abbrev pub put_kernel : CString → KlTarget → KlTarget
put_kernel path t = record t { kernel = path }

abbrev pub put_initrd : CString → KlTarget → KlTarget
put_initrd path t = record t { initrd = path }

unfoldable pub kernel_directive : List Gdev → CString → Menu → Menu
unfolding next_value conv_path
kernel_directive devmap val s =
    let (path, args) = next_value val in
    with_path put_kernel (conv_path devmap 1024 path) (change_entry (set_cmdline args) s)

abbrev pub put_module : CString → CString → KlTarget → KlTarget
put_module args name t = record t {
  modules = t.modules ++ record { name = name; args = strlcpy args 1024 } ∷ [];
}

unfoldable pub module_directive : List Gdev → CString → Menu → Menu
unfolding next_value conv_path
module_directive devmap val s =
    let (name, args) = next_value val in with_path (put_module args) (conv_path devmap 1024 name) s

-- `GRUB_CHECK_TOPEN()` and `GRUB_CHECK_ARG()`
abbrev pub in_entry : Menu → Menu → Menu
in_entry s rest = if s.topen == 0 then s else rest

abbrev pub with_arg : CString → Menu → Menu → Menu
with_arg val s rest = if is_set val then rest else s

-- The tests of the name, in the order of the code; no name meets two of them.
unfoldable pub menu_directive : List Gdev → ℕ → CString → CString → Menu → Menu
unfolding kl_streq open_entry kernel_directive module_directive conv_path
menu_directive devmap lnum name val s =
    if kl_streq name (str "timeout") && is_unset s.timeout
    then with_arg val s (record s { timeout = atoi val })
    else if kl_streq name (str "default")
    then with_arg val s (record s { defnum = atoi val })
    else if kl_streq name (str "title")
    then with_arg val s (open_entry lnum val s)
    else if kl_streq name (str "root")
    then in_entry s (root_directive devmap val s)
    else if kl_streq name (str "kernel")
    then in_entry s (with_arg val s (kernel_directive devmap val s))
    else if kl_streq name (str "initrd")
    then in_entry s (with_arg val s (with_path put_initrd (conv_path devmap 1024 val) s))
    else if kl_streq name (str "module")
    then in_entry s (with_arg val s (module_directive devmap val s))
    else if kl_streq name (str "chainloader")
    then record s { tskip = true }
    else s

unfoldable pub menu_line : List Gdev → ℕ → CString → Menu → Menu
unfolding split_line menu_directive
menu_line devmap lnum buf s =
    let (name, val) = split_line buf in
    if not (is_set name) || head_byte name == b'#' then s else menu_directive devmap lnum name val s

unfoldable pub menu_lines : List Gdev → ℕ → List CString → Menu → Menu
unfolding menu_line
menu_lines devmap lnum [] s = s
menu_lines devmap lnum (buf ∷ lines) s =
    menu_lines devmap (lnum + 1) lines (menu_line devmap (lnum + 1) buf s)

abbrev pub start_menu : ℤ → List KlTarget → Menu
start_menu timeout targets = record {
  timeout = timeout;
  targets = targets;
  target = init_target;
  topen = 0;
  defnum = negsuc 0;
  tnum = 0;
  tskip = false;
}

-- `vfs_fopen` gives the file's content, or NULL.
unfoldable pub load_menu : List Gdev → Option CString → ℤ → List KlTarget → Menu
unfolding menu_lines add_menu_target
load_menu devmap none timeout targets = start_menu timeout targets
load_menu devmap (some content) timeout targets =
    add_menu_target (menu_lines devmap 0 (fgets_lines 1024 content) (start_menu timeout targets))
