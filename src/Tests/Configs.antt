-- ===== src/Tests/Configs.antt =====
-- Configurations on concrete files.
use kexec_loader.Misc.Strings.{kl_streq}
use kexec_loader.Grub.Device.{split_line}
use kexec_loader.Misc.Config.{KlTarget, Conf, close_target, conf_lines, started, load_conf}
use kexec_loader.Misc.Config.Fits.{Fits}
use kexec_loader.Misc.Config.Loaded.{Adds}
use kexec_loader.Misc.Config.Directives.{load_conf-IsBootable, load_conf-grub_devmap}
use kexec_loader.Misc.Config.Untitled.{load_conf-untitled}
use kexec_loader.Misc.Config.Block.{IsText, IsTarget, block}
use kexec_loader.Misc.Config.Reads.{conf_lines-block}
use kexec_loader.Base.{
  CString, str, negsuc, ◌≡◌, refl, inl, inr, true, false, none, some, [], ◌∷◌, ◌++◌, arith,
}

abbrev no_conf : Conf
no_conf = record {
  timeout = negsuc 0;
  grub_path = none;
  grub_devmap = [];
  grub_autodetect = 1;
  targets = [];
  kmods = [];
}

abbrev linux : KlTarget
linux = record {
  title = str "Linux";
  is_default = true;
  reset_vga = false;
  root = str "hda1";
  kernel = str "/vmlinuz";
  initrd = [];
  cmdline = str "ro quiet";
  append = [];
  modules = [];
}

abbrev linux_file : CString
linux_file =
    str "timeout off\ntitle Linux\n root hda1\nkernel /vmlinuz\ndefault\ncmdline ro quiet\n"

loaded_targets : (load_conf (some linux_file) no_conf).conf.targets ≡ linux ∷ []
unfolding load_conf kl_streq
loaded_targets = refl

loaded_timeout : (load_conf (some linux_file) no_conf).conf.timeout ≡ negsuc 1
unfolding load_conf kl_streq
loaded_timeout = refl

load_conf-IsBootable_example : Adds [] (load_conf (some linux_file) no_conf).conf.targets
load_conf-IsBootable_example = load_conf-IsBootable (some linux_file) no_conf

-- The line that the manual gives as an example changes nothing.
abbrev map_file : CString
map_file = str "grub-map (hd0) sda\n"

load_conf-grub_devmap_example : (load_conf (some map_file) no_conf).conf.grub_devmap ≡ []
load_conf-grub_devmap_example = load_conf-grub_devmap (some map_file) no_conf

abbrev kmod_file : CString
kmod_file = str "kmod usb-storage\n"

load_conf-untitled_example :
    ((load_conf (some kmod_file) no_conf).conf.targets ≡ [])
    × ((load_conf (some kmod_file) no_conf).conf.kmods ≡ [])
unfolding split_line kl_streq
load_conf-untitled_example = load_conf-untitled kmod_file no_conf (refl, tt)

linux-IsTarget : IsTarget linux
linux-IsTarget =
    let text : IsText (str "Linux") = record {
      set = refl;
      begins = refl;
      one_line = (refl, (refl, (refl, (refl, (refl, tt)))));
    } in
    let root : IsText (str "hda1") = record {
      set = refl;
      begins = refl;
      one_line = (refl, (refl, (refl, (refl, tt))));
    } in
    let kernel : IsText (str "/vmlinuz") = record {
      set = refl;
      begins = refl;
      one_line = (refl, (refl, (refl, (refl, (refl, (refl, (refl, (refl, tt))))))));
    } in
    let cmdline : IsText (str "ro quiet") = record {
      set = refl;
      begins = refl;
      one_line = (refl, (refl, (refl, (refl, (refl, (refl, (refl, (refl, tt))))))));
    } in
    record {
      title_text = text;
      root_text = root;
      kernel_text = kernel;
      initrd_text = inl refl;
      cmdline_text = inr cmdline;
      append_text = inl refl;
      modules_are = tt;
    }

linux-Fits : Fits linux
linux-Fits = record {
  title_fits = omega arith;
  root_fits = omega arith;
  kernel_fits = omega arith;
  initrd_fits = omega arith;
  cmdline_fits = omega arith;
  append_fits = omega arith;
  modules_fit = tt;
}

conf_lines-block_example :
    (close_target (conf_lines 0 (block linux) (started no_conf))).conf.targets
    ≡ (close_target (started no_conf)).conf.targets ++ linux ∷ []
conf_lines-block_example = conf_lines-block (started no_conf) 0 linux linux-IsTarget linux-Fits
