-- ===== src/Tests/Boots.antt =====
-- The boot of a concrete target.
use kexec_loader.Misc.Config.{KlTarget}
use kexec_loader.Vfs.{ok}
use kexec_loader.Boot.{Translate, too_many, rebooted, kexec_failed, stopped, boot_target}
use kexec_loader.Boot.Arguments.{kexec_args, boot_target_lem}
use kexec_loader.Base.{
  leb, if◌then◌else◌, length, CString, str, ◌≡◌, refl, true, false, [], ◌∷◌, ◌++◌,
}

abbrev linux_target : KlTarget
linux_target = record {
  title = str "Linux";
  is_default = false;
  reset_vga = true;
  root = str "sda1";
  kernel = str "/vmlinuz";
  initrd = str "/initrd";
  cmdline = str "ro";
  append = [];
  modules = record { name = str "/m"; args = str "x=1" } ∷ [];
}

-- Every path translates to itself below `/mnt`.
abbrev below_mnt : CString → CString
below_mnt path = str "/mnt" ++ path

abbrev all_below : CString → Translate
all_below root path = ok (below_mnt path)

linux_rebooted :
    boot_target all_below (λ argv. true) linux_target
    ≡ rebooted (
        str "kexec"
        ∷ str "-l"
        ∷ str "/mnt/vmlinuz"
        ∷ str "--initrd=/mnt/initrd"
        ∷ str "--command-line=ro"
        ∷ str "--reset-vga"
        ∷ str "--module=/mnt/m x=1"
        ∷ [])
unfolding boot_target
linux_rebooted = refl

boot_target_lem_example : boot_target all_below (λ argv. true) linux_target ≡ (
    if leb (length (kexec_args below_mnt linux_target)) 255
    then (if true
        then rebooted (kexec_args below_mnt linux_target)
        else kexec_failed (kexec_args below_mnt linux_target))
    else stopped too_many)
boot_target_lem_example =
    boot_target_lem all_below below_mnt (λ argv. true) linux_target (refl, refl, (refl, tt))
