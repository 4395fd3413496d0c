-- ===== src/Misc/Config/Directives.antt =====
-- What every configuration file keeps, by its directives.
use kexec_loader.Misc.Strings.{kl_streq}
use kexec_loader.Grub.Device.{split_line}
use kexec_loader.Misc.Config.{
  Conf, Loading, set_root, set_kernel, set_initrd, set_cmdline, set_append, set_default,
  set_reset_vga, add_module, target_directive, directive, conf_line, conf_lines, load_conf,
}
use kexec_loader.Misc.Config.Fits.{
  root-Fits, kernel-Fits, initrd-Fits, cmdline-Fits, append-Fits, flags-Fits, add_module-Fits,
}
use kexec_loader.Misc.Config.Loaded.{
  Loaded, Adds, started-Loaded, check_args-Loaded, copied-Loaded, flag-Loaded, kmod-Loaded,
  report-Loaded, grub_path-Loaded, grub_map-Loaded, autodetect-Loaded, open_target-Loaded,
  close_target-Loaded,
}
use kexec_loader.Base.{
  ◌==◌, Bool-cases, if_split, CString, str, head_byte, is_set, fgets_lines, ℕ, ◌+◌, ◌≡◌, inl, inr,
  true, not, ◌||◌, Option, none, some, List, [], ◌∷◌,
}

module _ (conf : Conf) where
  target_directive-Loaded :
      (lnum : ℕ) (name val : CString) (s : Loading)
      → Loaded conf s
      → Loaded conf (target_directive lnum name val s)
  unfolding target_directive
  target_directive-Loaded lnum name val s h =
      let copied = copied-Loaded conf lnum name val s in
      let t = s.target in
      elim (Bool-cases (kl_streq name (str "root"))) [
        | inl e ↦ rw e (copied (set_root val) (root-Fits t val) h)
        | inr e ↦ rw e (elim (Bool-cases (kl_streq name (str "kernel"))) [
          | inl e ↦ rw e (copied (set_kernel val) (kernel-Fits t val) h)
          | inr e ↦ rw e (elim (Bool-cases (kl_streq name (str "initrd"))) [
            | inl e ↦ rw e (copied (set_initrd val) (initrd-Fits t val) h)
            | inr e ↦ rw e (elim (Bool-cases (kl_streq name (str "cmdline"))) [
              | inl e ↦ rw e (copied (set_cmdline val) (cmdline-Fits t val) h)
              | inr e ↦ rw e (elim (Bool-cases (kl_streq name (str "append"))) [
                | inl e ↦ rw e (copied (set_append val) (append-Fits t val) h)
                | inr e ↦ rw e (elim (Bool-cases (kl_streq name (str "default"))) [
                  | inl e ↦
                      rw e
                        (flag-Loaded conf lnum name s set_default (flags-Fits t true t.reset_vga) h)
                  | inr e ↦ rw e (elim (Bool-cases (kl_streq name (str "reset-vga"))) [
                    | inl e ↦ rw e (
                        flag-Loaded conf lnum name s set_reset_vga (flags-Fits t t.is_default true)
                          h)
                    | inr e ↦ rw e (elim (Bool-cases (kl_streq name (str "module"))) [
                      | inl e ↦ rw e (copied (add_module val) (add_module-Fits t val) h)
                      | inr e ↦ rw e (elim (Bool-cases (kl_streq name (str "kmod"))) [
                        | inl e ↦ rw e (kmod-Loaded conf lnum name val s h)
                        | inr e ↦ rw e (report-Loaded conf _ s h)
                      ])
                    ])
                  ])
                ])
              ])
            ])
          ])
        ])
      ]

  directive-Loaded :
      (lnum : ℕ) (name val : CString) (s : Loading)
      → Loaded conf s
      → Loaded conf (directive lnum name val s)
  unfolding directive
  directive-Loaded lnum name val s h =
      let checked = check_args-Loaded conf 1 lnum name val s in
      elim (Bool-cases (kl_streq name (str "timeout"))) [
        | inl e ↦ rw e (
            checked _ h
              (record { devmap = h.devmap; added = h.added; target_fits = h.target_fits }))
        | inr e ↦ rw e (elim (Bool-cases (kl_streq name (str "grub-path"))) [
          | inl e ↦ rw e (checked _ h (grub_path-Loaded conf lnum val s h))
          | inr e ↦ rw e (elim (Bool-cases (kl_streq name (str "grub-map"))) [
            | inl e ↦ rw e (grub_map-Loaded conf lnum name val s h)
            | inr e ↦ rw e (elim (Bool-cases (kl_streq name (str "grub-autodetect"))) [
              | inl e ↦ rw e (checked _ h (autodetect-Loaded conf lnum val s h))
              | inr e ↦ rw e (elim (Bool-cases (kl_streq name (str "title"))) [
                | inl e ↦ rw e (checked _ h (open_target-Loaded conf lnum val s h))
                | inr e ↦ rw e (target_directive-Loaded lnum name val s h)
              ])
            ])
          ])
        ])
      ]

  conf_line-Loaded :
      (lnum : ℕ) (line : CString) (s : Loading)
      → Loaded conf s
      → Loaded conf (conf_line lnum line s)
  unfolding conf_line
  conf_line-Loaded lnum line s h =
      let name = (split_line line).0 in
      if_split (Loaded conf) (head_byte name == b'#' || not (is_set name)) s _ (λ _. h)
        (λ _. directive-Loaded lnum name (split_line line).1 s h)

  conf_lines-Loaded :
      (lnum : ℕ) (lines : List CString) (s : Loading)
      → Loaded conf s
      → Loaded conf (conf_lines lnum lines s)
  unfolding conf_lines
  conf_lines-Loaded lnum [] s h = h
  conf_lines-Loaded lnum (line ∷ lines) s h =
      conf_lines-Loaded (lnum + 1) lines _ (conf_line-Loaded (lnum + 1) line s h)

  load_conf-Loaded : (file : Option CString) → Loaded conf (load_conf file conf)
  unfolding load_conf
  load_conf-Loaded none = (started-Loaded conf)
  load_conf-Loaded (some content) =
      close_target-Loaded conf _
        (conf_lines-Loaded 0 (fgets_lines 1024 content) _ (started-Loaded conf))

-- Whatever the file holds, every target that `load_conf` adds behind the ones that are there has a
-- root device and a kernel, and all its strings fit their buffers.
pub load_conf-IsBootable :
    (file : Option CString) (conf : Conf) → Adds conf.targets (load_conf file conf).conf.targets
load_conf-IsBootable file conf = (load_conf-Loaded conf file).added

-- No configuration file changes the map of GRUB devices, whatever `grub-map` directives it has.
pub load_conf-grub_devmap :
    (file : Option CString) (conf : Conf)
    → (load_conf file conf).conf.grub_devmap ≡ conf.grub_devmap
load_conf-grub_devmap file conf = (load_conf-Loaded conf file).devmap
