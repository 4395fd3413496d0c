-- ===== src/Shell/Commands/Safety.antt =====
-- The shell boots only targets that can be booted, and no call of it goes through NULL.
use kexec_loader.Misc.Strings.{kl_streq}
use kexec_loader.Misc.Config.{KlTarget}
use kexec_loader.Misc.Config.Fits.{
  Fits, root-Fits, kernel-Fits, initrd-Fits, cmdline-Fits, append-Fits, flags-Fits, add_module-Fits,
}
use kexec_loader.Misc.Config.Loaded.{IsBootable}
use kexec_loader.Vfs.{Vfs, vfs_set_root}
use kexec_loader.Console.{}
use kexec_loader.Shell.Editor.{}
use kexec_loader.Shell.Commands.{
  Func, commands, find_command, Shell, Made, Next, retarget, path_command, set_shell_root,
  boot_command, call_func, shell_command, cmd_module, cmd_ls, cmd_find, cmd_cat, boots, list_disks,
  ls_files, find_files, cat_file, again, exits, null_call,
}
use kexec_loader.Shell.Commands.Lookup.{is_null, find_command-IsOther}
use kexec_loader.Base.{
  if_split, and_true, All, take_all, CString, str, is_set, strlcpy, ◌≡◌, refl, sym, ◌∙◌, Bool, true,
  false, not, ◌&&◌, ◌||◌, Option, none, some, [], ◌∷◌, arith,
}

-- the device that paths are looked up on, or the empty string
abbrev pub root_text : Option CString → CString
root_text none = []
root_text (some root) = root

-- What holds between two commands: the target fits its buffers, and its root is the device that
-- paths are looked up on, cut to its buffer.
pub record Ready (s : Shell) : Type 0 where
  pub fits : Fits s.target
  pub same_root : s.target.root ≡ strlcpy (root_text s.vfs.vfs_root) 256

-- A call to boot has a target that can be booted.
abbrev pub IsSafe : Made → Type 0
IsSafe (boots t) = IsBootable t
IsSafe list_disks = Unit
IsSafe (ls_files args) = Unit
IsSafe (find_files args) = Unit
IsSafe (cat_file args) = Unit

abbrev pub ReadyNext : Next → Type 0
ReadyNext (again made s) = All IsSafe made × Ready s
ReadyNext exits = Unit
ReadyNext null_call = ¬ Unit

change-Ready :
    (t : KlTarget) (s : Shell)
    → Fits t
    → t.root ≡ s.target.root
    → Ready s
    → ReadyNext (retarget t s)
change-Ready t s fits same h = (tt, record { fits = fits; same_root = same ∙ h.same_root })

path_command-Ready :
    (exists : Vfs → CString → Bool) (args : CString) (t : KlTarget) (s : Shell)
    → Fits t
    → t.root ≡ s.target.root
    → Ready s
    → ReadyNext (path_command exists args t s)
path_command-Ready exists args t s fits same h =
    if_split ReadyNext (not (is_set args) || exists s.vfs args) _ _
      (λ _. change-Ready t s fits same h) (λ _. (tt, h))

set_shell_root-Ready : (args : CString) (s : Shell) → Ready s → ReadyNext (set_shell_root args s)
unfolding vfs_set_root
set_shell_root-Ready [] s h = (tt, record { fits = root-Fits s.target [] h.fits; same_root = refl })
set_shell_root-Ready (c ∷ args) s h =
    (tt, record { fits = root-Fits s.target (c ∷ args) h.fits; same_root = refl })

boot_command-Ready : (s : Shell) → Ready s → ReadyNext (boot_command s)
unfolding vfs_set_root
boot_command-Ready s h =
    if_split ReadyNext (is_set s.target.root && is_set s.target.kernel) _ _
      (λ e.
        let (root, kernel) = and_true (is_set s.target.root) (is_set s.target.kernel) e in
        (
          (record { fits = h.fits; has_root = root; has_kernel = kernel }, tt),
          record {
            fits = h.fits;
            same_root = sym (take_all 255 s.target.root (omega (arith, h.fits.root_fits)));
          },
        ))
      (λ _. (tt, h))

call_func-Ready :
    (o : Option (Option Func)) (args : CString) (s : Shell)
    → is_null o ≡ false
    → Ready s
    → ReadyNext (call_func o args s)
unfolding call_func
call_func-Ready none args s k h = (tt, h)
call_func-Ready (some none) args s k h = absurd (cc k)
call_func-Ready (some (some cmd_module)) args s k h =
    if_split ReadyNext (is_set args) _ _
      (λ _. change-Ready _ s (add_module-Fits s.target args h.fits) refl h) (λ _. (tt, h))
call_func-Ready (some (some cmd_ls)) args s k h = ((tt, tt), h)
call_func-Ready (some (some cmd_find)) args s k h = ((tt, tt), h)
call_func-Ready (some (some cmd_cat)) args s k h = ((tt, tt), h)

pub shell_command-Ready :
    (exists : Vfs → CString → Bool) (cmd args : CString) (s : Shell)
    → Ready s
    → ReadyNext (shell_command exists cmd args s)
unfolding shell_command
shell_command-Ready exists cmd args s h =
    if_split ReadyNext (not (is_set cmd)) _ _ (λ _. (tt, h))
      (λ _.
        if_split ReadyNext (kl_streq cmd (str "exit")) _ _ (λ _. tt)
          (λ exit.
            if_split ReadyNext (kl_streq cmd (str "help")) _ _ (λ _. (tt, h))
              (λ _.
                if_split ReadyNext (kl_streq cmd (str "kernel")) _ _
                  (λ _.
                    path_command-Ready exists args _ s (kernel-Fits s.target args h.fits) refl h)
                  (λ kernel.
                    if_split ReadyNext (kl_streq cmd (str "initrd")) _ _
                      (λ _.
                        path_command-Ready exists args _ s (initrd-Fits s.target args h.fits) refl
                          h)
                      (λ initrd.
                        if_split ReadyNext (kl_streq cmd (str "cmdline")) _ _
                          (λ _. change-Ready _ s (cmdline-Fits s.target args h.fits) refl h)
                          (λ cmdline.
                            if_split ReadyNext (kl_streq cmd (str "append")) _ _
                              (λ _. change-Ready _ s (append-Fits s.target args h.fits) refl h)
                              (λ append.
                                if_split ReadyNext (kl_streq cmd (str "root")) _ _
                                  (λ _. set_shell_root-Ready args s h)
                                  (λ root.
                                    if_split ReadyNext (kl_streq cmd (str "reset-vga")) _ _
                                      (λ _.
                                        change-Ready _ s
                                          (flags-Fits s.target s.target.is_default true h.fits) refl
                                          h)
                                      (λ reset.
                                        if_split ReadyNext (kl_streq cmd (str "boot")) _ _
                                          (λ _. boot_command-Ready s h)
                                          (λ boot.
                                            if_split ReadyNext (kl_streq cmd (str "disks")) _ _
                                              (λ _. ((tt, tt), h))
                                              (λ disks.
                                                call_func-Ready (find_command cmd commands) args s
                                                  (find_command-IsOther cmd commands (
                                                    root,
                                                    (
                                                      kernel,
                                                      (
                                                        initrd,
                                                        (
                                                          cmdline,
                                                          (
                                                            append,
                                                            (boot, (reset, (disks, (exit, tt)))),
                                                          ),
                                                        ),
                                                      ),
                                                    ),
                                                  ))
                                                  h)))))))))))
