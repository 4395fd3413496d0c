-- ===== src/Tests/Entries.antt =====
-- A grub.cfg.
use kexec_loader.Misc.Config.{init_target}
use kexec_loader.Misc.Config.Loaded.{Adds}
use kexec_loader.Grub.Menu.{is_unset}
use kexec_loader.Grub.Config.Kept.{load_grub2_cfg-Adds}
use kexec_loader.Grub.Config.Entry.{
  Written, entry_lines, IsWritten, IsChosen, with_entry, grub2_lines-entry_lines,
}
use kexec_loader.Grub.Config.{grub2_lines, start_grub2, load_grub2_cfg, Grub2}
use kexec_loader.Base.{
  CString, str, pos, negsuc, ◌≡◌, refl, ◌↔◌, Bool, true, false, some, [], ◌∷◌, ◌++◌,
}

abbrev debian : CString
debian =
    str
      "set default=\"1\"\nset timeout=5\nmenuentry 'Debian' --class os {\n\tsearch --no-floppy --fs-uuid --set=root 1234-ABCD\n\tlinux\t/vmlinuz root=/dev/sda1 quiet\n\tinitrd /initrd.img\n}\nmenuentry \"Memtest\" {\n set root='hd0,1'\n linux16 /memtest\n}\n"

loaded :
    (load_grub2_cfg (some debian) (negsuc 0) []).targets
    ≡ record init_target {
      title = str "Debian";
      root = str "UUID=1234-ABCD";
      kernel = str "/vmlinuz";
      append = str "root=/dev/sda1 quiet";
      initrd = str "/initrd.img";
    }
      ∷ record init_target {
        title = str "Memtest";
        root = str "hd0,1";
        kernel = str "/memtest";
        is_default = true;
      }
      ∷ []
unfolding load_grub2_cfg
loaded = refl

load_grub2_cfg-Adds_example :
    Adds [] (load_grub2_cfg (some debian) (pos 3) []).targets
    × (is_unset (pos 3) ≡ false → (load_grub2_cfg (some debian) (pos 3) []).timeout ≡ pos 3)
load_grub2_cfg-Adds_example = load_grub2_cfg-Adds (some debian) (pos 3) []

abbrev memtest : Written
memtest = record {
  title = str "Memtest 86";
  options = str "--class m {";
  uuid = str "1234-AB";
  kernel = str "/mt";
  args = str "a=1";
  initrd = str "/rd";
}

memtest-IsWritten : IsWritten memtest
memtest-IsWritten = record {
  title_line = (refl, (refl, (refl, (refl, (refl, (refl, (refl, (refl, (refl, (refl, tt))))))))));
  title_quote = (refl, (refl, (refl, (refl, (refl, (refl, (refl, (refl, (refl, (refl, tt))))))))));
  options_begin = refl;
  options_line =
      (refl, (refl, (refl, (refl, (refl, (refl, (refl, (refl, (refl, (refl, (refl, tt)))))))))));
  uuid_id = record {
    set = refl;
    no_option = refl;
    word = (refl, (refl, (refl, (refl, (refl, (refl, (refl, tt)))))));
  };
  uuid_line = (refl, (refl, (refl, (refl, (refl, (refl, (refl, tt)))))));
  kernel_bare = record { set = refl; unquoted = refl; word = (refl, (refl, (refl, tt))) };
  kernel_line = (refl, (refl, (refl, tt)));
  args_begin = refl;
  args_line = (refl, (refl, (refl, tt)));
  initrd_bare = record { set = refl; unquoted = refl; word = (refl, (refl, (refl, tt))) };
  initrd_line = (refl, (refl, (refl, tt)));
}

-- `set default='Memtest 86'` in front of it
abbrev before_it : Grub2
before_it = record (start_grub2 (pos 3) []) { default_title = some (str "Memtest 86") }

grub2_lines-entry_lines_example :
    (default : Bool) × ((default ≡ true) ↔ IsChosen before_it memtest)
    × (grub2_lines 7 (entry_lines (str "\t") memtest ++ str "}\n" ∷ []) before_it
        ≡ grub2_lines 12 (str "}\n" ∷ []) (with_entry memtest default before_it))
grub2_lines-entry_lines_example =
    grub2_lines-entry_lines (str "\t") memtest before_it 7 (str "}\n" ∷ []) (refl, tt)
      memtest-IsWritten refl
