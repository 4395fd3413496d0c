-- ===== src/Tests/Menus.antt =====
-- A menu.lst on concrete files.
use kexec_loader.Misc.Strings.{kl_streq}
use kexec_loader.Misc.Config.{KlTarget}
use kexec_loader.Misc.Strings.Equality.{kl_streq_iff}
use kexec_loader.Grub.Device.{Gdev, gdev, first_device, add_gdev}
use kexec_loader.Grub.Device.Names.{IsGdev}
use kexec_loader.Grub.Device.Printed.{printed}
use kexec_loader.Grub.Menu.{conv_path, is_unset, load_menu}
use kexec_loader.Grub.Menu.Entries.{AddsEntries}
use kexec_loader.Grub.Menu.Kept.{load_menu-AddsEntries}
use kexec_loader.Grub.Device.Lookup.{Covers}
use kexec_loader.Grub.Menu.Paths.{conv_path-add_gdev}
use kexec_loader.Base.{
  take, All, CString, str, decimal, pos, negsuc, ◌≡◌, refl, inl, inr, true, false, some, List, [],
  ◌∷◌, ◌++◌, arith,
}

abbrev first_disk : Gdev
first_disk = gdev (str "hd") (str "0") [] []

abbrev disk_map : List Gdev
disk_map = add_gdev [] first_disk (str "sda")

abbrev menu_file : CString
menu_file =
    str
      "default 0\ntimeout 5\ntitle Linux\nroot (hd0,0)\nkernel (hd0,1)/vmlinuz ro\ntitle DOS\nroot (hd0,0)\nchainloader +1\n"

abbrev menu_target : KlTarget
menu_target = record {
  title = str "Linux";
  is_default = true;
  reset_vga = true;
  root = str "sda1";
  kernel = str "(sda2)/vmlinuz";
  initrd = [];
  cmdline = str "ro";
  append = [];
  modules = [];
}

menu_targets : (load_menu disk_map (some menu_file) (negsuc 0) []).targets ≡ menu_target ∷ []
unfolding load_menu kl_streq first_device add_gdev decimal
menu_targets = refl

load_menu-AddsEntries_example :
    AddsEntries [] (load_menu disk_map (some menu_file) (pos 9) []).targets
    × (is_unset (pos 9) ≡ false → (load_menu disk_map (some menu_file) (pos 9) []).timeout ≡ pos 9)
load_menu-AddsEntries_example = load_menu-AddsEntries disk_map (some menu_file) (pos 9) []

abbrev boot_part : Gdev
boot_part = gdev (str "hd") (str "0") (str "0") []

boot_part-IsGdev : IsGdev boot_part
boot_part-IsGdev = record {
  type_is = inr refl;
  p1_is = record { set = refl; digits = (refl, tt); fits = omega arith };
  p2_is = inr (inl (record { set = refl; digits = (refl, tt); fits = omega arith }));
  p3_is = inl refl;
  in_order = λ e. refl;
  no_device = refl;
}

-- a map of the second partition of the same disk
abbrev part_map : List Gdev
part_map = gdev (str "hd") (str "0") (str "1") [] ∷ []

other_part : All (λ entry. ¬ Covers boot_part entry) part_map
unfolding kl_streq
other_part = (
  λ c. elim (c.same_part) [ inl e ↦ cc | inr e ↦ cc ((kl_streq_iff (str "0") (str "1")).1 e) ],
  tt,
)

conv_path-add_gdev_example :
    conv_path
      (add_gdev part_map boot_part (str "sda1") ++ [])
      1024
      (b'(' ∷ printed boot_part (b')' ∷ str "/vmlinuz"))
    ≡ some (take 1023 (str "(" ++ (take 15 (str "sda1") ++ (str ")" ++ str "/vmlinuz"))))
conv_path-add_gdev_example =
    conv_path-add_gdev part_map [] boot_part (str "sda1") (str "/vmlinuz") boot_part-IsGdev
      other_part
