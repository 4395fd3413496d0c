-- ===== src/Tests/Sessions.antt =====
-- Sessions of the shell.
use kexec_loader.Misc.Config.{init_target}
use kexec_loader.Vfs.{Vfs}
use kexec_loader.Console.{Key, byte}
use kexec_loader.Shell.Commands.{shell_main, boots, ls_files, exited}
use kexec_loader.Shell.Commands.Runs.{SafeRun, shell_main-SafeRun}
use kexec_loader.Base.{str, ◌≡◌, refl, true, none, List, [], ◌∷◌, map}

abbrev typed : List Key
typed = map byte (str "root hda1\nboot\nkernel /linux\ncmdline  quiet\nls /\nboot\nexit\n")

abbrev no_vfs : Vfs
no_vfs = record { vfs_root = none; vfs_jail = none }

session : shell_main (λ v cmd offset. []) (λ v path. true) no_vfs typed ≡ (
  ls_files (str "/")
      ∷ boots
          (record init_target { root = str "hda1"; kernel = str "/linux"; cmdline = str "quiet" })
      ∷ [],
  exited,
)
unfolding shell_main
session = refl

shell_main-SafeRun_example : SafeRun (shell_main (λ v cmd offset. []) (λ v path. true) no_vfs typed)
shell_main-SafeRun_example = shell_main-SafeRun (λ v cmd offset. []) (λ v path. true) no_vfs typed
