-- ===== src/Shell/Commands.antt =====
-- shell_main and cmd_module of src/shell.c: the commands and the target that they set up.
-- `vfs_exists` and `ac_search` are parameters, as they stand to the VFS; what cmd_ls, cmd_find and
-- cmd_cat print, and what the shell prints, is left out. The keys are those behind the prompt.
pub mod Lookup
pub mod Safety
pub mod Runs
use kexec_loader.Misc.Strings.{next_value, kl_streq}
use kexec_loader.Misc.Config.{
  set_root, set_kernel, set_initrd, set_cmdline, set_append, set_reset_vga, add_module, KlTarget,
  init_target,
}
use kexec_loader.Vfs.{Vfs, vfs_set_root}
use kexec_loader.Console.{Key}
use kexec_loader.Shell.Editor.{AcSearch, read_cmd}
use kexec_loader.Base.{
  if◌then◌else◌, length, CString, str, is_set, ℕ, zero, suc, Bool, not, ◌&&◌, ◌||◌, Option, none,
  some, List, [], ◌∷◌, ◌++◌,
}

-- The functions of the table.
pub data Func : Type 0 where
  cmd_module : Func
  cmd_ls : Func
  cmd_find : Func
  cmd_cat : Func

-- The table: each command's name, and its function or NULL.
abbrev pub commands : List (CString × Option Func)
commands =
    (str "root", none)
    ∷ (str "kernel", none)
    ∷ (str "initrd", none)
    ∷ (str "cmdline", none)
    ∷ (str "append", none)
    ∷ (str "boot", none)
    ∷ (str "module", some cmd_module)
    ∷ (str "reset-vga", none)
    ∷ (str "ls", some cmd_ls)
    ∷ (str "find", some cmd_find)
    ∷ (str "cat", some cmd_cat)
    ∷ (str "disks", none)
    ∷ (str "exit", none)
    ∷ []

-- The loop over the table: the function of the first entry with the name.
unfoldable pub find_command : CString → List (CString × Option Func) → Option (Option Func)
unfolding kl_streq
find_command cmd [] = none
find_command cmd ((name, func) ∷ table) =
    let later = find_command cmd table in if kl_streq name cmd then some func else later

-- The global `target`, the VFS, and the history.
pub record Shell : Type 0 where
  pub target : KlTarget
  pub vfs : Vfs
  pub history : List CString

-- The calls that a command makes.
pub data Made : Type 0 where
  boots : KlTarget → Made
  list_disks : Made
  ls_files : CString → Made
  find_files : CString → Made
  cat_file : CString → Made

-- What a command comes to: the next round with the calls it has made, the end of the shell, or a
-- call through NULL.
pub data Next : Type 0 where
  again : List Made → Shell → Next
  exits : Next
  null_call : Next

abbrev pub retarget : KlTarget → Shell → Next
retarget t s = again [] (record s { target = t })

-- `PATH_COMMAND` behind its test of the name
abbrev pub path_command : (Vfs → CString → Bool) → CString → KlTarget → Shell → Next
path_command exists args t s =
    if not (is_set args) || exists s.vfs args then retarget t s else again [] s

abbrev pub root_of : CString → Option CString
root_of [] = none
root_of (c ∷ args) = some (c ∷ args)

abbrev pub set_shell_root : CString → Shell → Next
set_shell_root args s =
    again [] (record s { vfs = vfs_set_root (root_of args) s.vfs; target = set_root args s.target })

-- `boot_target` begins with `vfs_set_root(target->root)`, which stays when it returns.
abbrev pub boot_command : Shell → Next
boot_command s =
    if is_set s.target.root && is_set s.target.kernel
    then again (boots s.target ∷ []) (record s { vfs = vfs_set_root (some s.target.root) s.vfs })
    else again [] s

-- cmd_module
abbrev pub module_command : CString → Shell → Next
module_command args s = if is_set args then retarget (add_module args s.target) s else again [] s

-- `commands[i].func(cmd, args)`
unfoldable pub call_func : Option (Option Func) → CString → Shell → Next
call_func none args s = again [] s
call_func (some none) args s = null_call
call_func (some (some cmd_module)) args s = module_command args s
call_func (some (some cmd_ls)) args s = again (ls_files args ∷ []) s
call_func (some (some cmd_find)) args s = again (find_files args ∷ []) s
call_func (some (some cmd_cat)) args s = again (cat_file args ∷ []) s

-- The tests of the command, in the order of the code.
unfoldable pub shell_command : (Vfs → CString → Bool) → CString → CString → Shell → Next
unfolding kl_streq vfs_set_root find_command call_func
shell_command exists cmd args s =
    if not (is_set cmd)
    then again [] s
    else if kl_streq cmd (str "exit")
    then exits
    else if kl_streq cmd (str "help")
    then again [] s
    else if kl_streq cmd (str "kernel")
    then path_command exists args (set_kernel args s.target) s
    else if kl_streq cmd (str "initrd")
    then path_command exists args (set_initrd args s.target) s
    else if kl_streq cmd (str "cmdline")
    then retarget (set_cmdline args s.target) s
    else if kl_streq cmd (str "append")
    then retarget (set_append args s.target) s
    else if kl_streq cmd (str "root")
    then set_shell_root args s
    else if kl_streq cmd (str "reset-vga")
    then retarget (set_reset_vga s.target) s
    else if kl_streq cmd (str "boot")
    then boot_command s
    else if kl_streq cmd (str "disks")
    then again (list_disks ∷ []) s
    else call_func (find_command cmd commands) args s

unfoldable pub shell_line : (Vfs → CString → Bool) → CString → Shell → Next
unfolding next_value shell_command
shell_line exists line s = let (cmd, args) = next_value line in shell_command exists cmd args s

-- How a run ends: with `exit`, in a `read_cmd` that does not return, with a call through NULL, or
-- with its fuel used up.
pub data End : Type 0 where
  exited : End
  reading : End
  called_null : End
  no_fuel : End

abbrev pub then_made : List Made → List Made × End → List Made × End
then_made made (rest, end) = (made ++ rest, end)

-- The loop of `shell_main` on a sequence of keys. Each command takes a key at least, so one round
-- more than there are keys is fuel enough.
unfoldable pub shell_loop :
    (Vfs → AcSearch) → (Vfs → CString → Bool) → ℕ → List Key → Shell → List Made × End
unfolding read_cmd shell_line
shell_loop ac_search exists zero keys s = ([], no_fuel)
shell_loop ac_search exists (suc fuel) keys s = elim (read_cmd (ac_search s.vfs) s.history keys) [
  | none ↦ ([], reading)
  | some (line, history, rest) ↦ elim (shell_line exists line (record s { history = history })) [
    | again made t ↦ then_made made (shell_loop ac_search exists fuel rest t)
    | exits ↦ ([], exited)
    | null_call ↦ ([], called_null)
  ]
]

abbrev pub start_shell : Vfs → Shell
start_shell v = record { target = init_target; vfs = record v { vfs_root = none }; history = [] }

unfoldable pub shell_main :
    (Vfs → AcSearch) → (Vfs → CString → Bool) → Vfs → List Key → List Made × End
unfolding shell_loop
shell_main ac_search exists v keys =
    shell_loop ac_search exists (suc (length keys)) keys (start_shell v)
