-- ===== src/Grub/Menu/Kept.antt =====
-- Every menu.lst adds targets that can be booted, and leaves a timeout that is set.
use mathlib.Core.Path.{subst}
use kexec_loader.Misc.Strings.{next_value, kl_streq}
use kexec_loader.Misc.Config.{KlTarget, set_cmdline}
use kexec_loader.Misc.Config.Fits.{
  ModuleFits, Fits, strlcpy-length, kernel-Fits, initrd-Fits, cmdline-Fits,
}
use kexec_loader.Grub.Device.{Gdev, split_line}
use kexec_loader.Grub.Menu.{
  Menu, conv_path, is_unset, change_entry, with_path, put_kernel, put_initrd, kernel_directive,
  put_module, module_directive, in_entry, with_arg, menu_directive, menu_line, menu_lines,
  load_menu,
}
use kexec_loader.Grub.Menu.Entries.{
  Kept, AddsEntries, conv_path-length, change_entry-Kept, add_menu_target-Kept, open_entry-Kept,
  with_path-Kept, root_directive-Kept, start_menu-Kept,
}
use kexec_loader.Base.{
  ◌==◌, Bool-cases, if_split, and_true, length, take_all, All-append, CString, str, head_byte,
  is_set, strlcpy, fgets_lines, ℤ, atoi, ℕ, ◌+◌, ◌<◌, ◌≡◌, refl, ap, inl, inr, Bool, true, false,
  not, ◌&&◌, ◌||◌, Option, none, some, List, [], ◌∷◌, arith,
}

put_kernel-Fits :
    (path : CString) (t : KlTarget) → length path < 1024 → Fits t → Fits (put_kernel path t)
put_kernel-Fits path t fits h =
    subst (λ p. Fits (put_kernel p t)) (take_all 1023 path (omega arith)) (kernel-Fits t path h)

put_initrd-Fits :
    (path : CString) (t : KlTarget) → length path < 1024 → Fits t → Fits (put_initrd path t)
put_initrd-Fits path t fits h =
    subst (λ p. Fits (put_initrd p t)) (take_all 1023 path (omega arith)) (initrd-Fits t path h)

put_module-Fits :
    (args name : CString) (t : KlTarget)
    → length name < 1024
    → Fits t
    → Fits (put_module args name t)
put_module-Fits args name t fits h =
    let added : ModuleFits (record { name = name; args = strlcpy args 1024 }) = record {
      name_fits = fits;
      args_fit = strlcpy-length args 1024 (omega arith);
    } in
    record {
      title_fits = h.title_fits;
      root_fits = h.root_fits;
      kernel_fits = h.kernel_fits;
      initrd_fits = h.initrd_fits;
      cmdline_fits = h.cmdline_fits;
      append_fits = h.append_fits;
      modules_fit = All-append ModuleFits t.modules (_ ∷ []) h.modules_fit (added, tt);
    }

module _ (timeout : ℤ) (targets : List KlTarget) where
  kernel_directive-Kept :
      (devmap : List Gdev) (val : CString) (s : Menu)
      → Kept timeout targets s
      → Kept timeout targets (kernel_directive devmap val s)
  unfolding kernel_directive
  kernel_directive-Kept devmap val s h =
      let (path, args) = next_value val in
      let t = set_cmdline args s.target in
      with_path-Kept timeout targets put_kernel (conv_path devmap 1024 path)
        (change_entry (set_cmdline args) s)
        (λ p e. put_kernel-Fits p t (conv_path-length devmap path p e)) (λ p. refl)
        (change_entry-Kept timeout targets (set_cmdline args) s (cmdline-Fits s.target args) refl h)

  initrd_directive-Kept :
      (devmap : List Gdev) (val : CString) (s : Menu)
      → Kept timeout targets s
      → Kept timeout targets (with_path put_initrd (conv_path devmap 1024 val) s)
  initrd_directive-Kept devmap val s h =
      with_path-Kept timeout targets put_initrd (conv_path devmap 1024 val) s
        (λ p e. put_initrd-Fits p s.target (conv_path-length devmap val p e)) (λ p. refl) h

  module_directive-Kept :
      (devmap : List Gdev) (val : CString) (s : Menu)
      → Kept timeout targets s
      → Kept timeout targets (module_directive devmap val s)
  unfolding module_directive
  module_directive-Kept devmap val s h =
      let (name, args) = next_value val in
      with_path-Kept timeout targets (put_module args) (conv_path devmap 1024 name) s
        (λ p e. put_module-Fits args p s.target (conv_path-length devmap name p e)) (λ p. refl) h

  in_entry-Kept :
      (s rest : Menu)
      → Kept timeout targets s
      → Kept timeout targets rest
      → Kept timeout targets (in_entry s rest)
  in_entry-Kept s rest h k = if_split (Kept timeout targets) (s.topen == 0) s rest (λ _. h) (λ _. k)

  with_arg-Kept :
      (val : CString) (s rest : Menu)
      → Kept timeout targets s
      → Kept timeout targets rest
      → Kept timeout targets (with_arg val s rest)
  with_arg-Kept val s rest h k =
      if_split (Kept timeout targets) (is_set val) rest s (λ _. k) (λ _. h)

  set_timeout-Kept :
      (n : ℤ) (s : Menu)
      → is_unset s.timeout ≡ true
      → Kept timeout targets s
      → Kept timeout targets (record s { timeout = n })
  set_timeout-Kept n s unset h = record {
    added = h.added;
    target_fits = h.target_fits;
    resets = h.resets;
    same_timeout = λ e. absurd (cc (ap is_unset (h.same_timeout e), unset, e));
  }

  menu_directive-Kept :
      (devmap : List Gdev) (lnum : ℕ) (name val : CString) (s : Menu)
      → Kept timeout targets s
      → Kept timeout targets (menu_directive devmap lnum name val s)
  unfolding menu_directive
  menu_directive-Kept devmap lnum name val s h =
      let same : (d : ℤ) (b : Bool) → Kept timeout targets (record s { defnum = d; tskip = b }) =
        λ d b. record {
          added = h.added;
          target_fits = h.target_fits;
          resets = h.resets;
          same_timeout = h.same_timeout;
        } in
      elim (Bool-cases (kl_streq name (str "timeout") && is_unset s.timeout)) [
        | inl e ↦ rw e (
            with_arg-Kept val s _ h
              (set_timeout-Kept (atoi val) s (and_true (kl_streq name (str "timeout")) _ e).1 h))
        | inr e ↦ rw e (elim (Bool-cases (kl_streq name (str "default"))) [
          | inl e ↦ rw e (with_arg-Kept val s _ h (same (atoi val) s.tskip))
          | inr e ↦ rw e (elim (Bool-cases (kl_streq name (str "title"))) [
            | inl e ↦ rw e (with_arg-Kept val s _ h (open_entry-Kept timeout targets lnum val s h))
            | inr e ↦ rw e (elim (Bool-cases (kl_streq name (str "root"))) [
              | inl e ↦
                  rw e (in_entry-Kept s _ h (root_directive-Kept timeout targets devmap val s h))
              | inr e ↦ rw e (elim (Bool-cases (kl_streq name (str "kernel"))) [
                | inl e ↦ rw e (
                    in_entry-Kept s _ h
                      (with_arg-Kept val s _ h (kernel_directive-Kept devmap val s h)))
                | inr e ↦ rw e (elim (Bool-cases (kl_streq name (str "initrd"))) [
                  | inl e ↦ rw e (
                      in_entry-Kept s _ h
                        (with_arg-Kept val s _ h (initrd_directive-Kept devmap val s h)))
                  | inr e ↦ rw e (elim (Bool-cases (kl_streq name (str "module"))) [
                    | inl e ↦ rw e (
                        in_entry-Kept s _ h
                          (with_arg-Kept val s _ h (module_directive-Kept devmap val s h)))
                    | inr e ↦ rw e (elim (Bool-cases (kl_streq name (str "chainloader"))) [
                      | inl e ↦ rw e (same s.defnum true)
                      | inr e ↦ rw e h
                    ])
                  ])
                ])
              ])
            ])
          ])
        ])
      ]

  menu_lines-Kept :
      (devmap : List Gdev) (lnum : ℕ) (lines : List CString) (s : Menu)
      → Kept timeout targets s
      → Kept timeout targets (menu_lines devmap lnum lines s)
  unfolding menu_lines menu_line
  menu_lines-Kept devmap lnum [] s h = h
  menu_lines-Kept devmap lnum (buf ∷ lines) s h =
      let (name, val) = split_line buf in
      menu_lines-Kept devmap (lnum + 1) lines _ (
        if_split (Kept timeout targets) (not (is_set name) || head_byte name == b'#') s _ (λ _. h)
          (λ _. menu_directive-Kept devmap (lnum + 1) name val s h))

  load_menu-Kept :
      (devmap : List Gdev) (file : Option CString)
      → Kept timeout targets (load_menu devmap file timeout targets)
  unfolding load_menu
  load_menu-Kept devmap none = start_menu-Kept timeout targets
  load_menu-Kept devmap (some content) =
      add_menu_target-Kept timeout targets _
        (menu_lines-Kept devmap 0 (fgets_lines 1024 content) _ (start_menu-Kept timeout targets))

-- Whatever a menu.lst holds, every target that `load_menu` adds behind the ones that are there has
-- a root device and a kernel, fits its buffers and resets the VGA hardware; and a timeout that was
-- not -1 is left as it was.
pub load_menu-AddsEntries :
    (devmap : List Gdev) (file : Option CString) (timeout : ℤ) (targets : List KlTarget)
    → AddsEntries targets (load_menu devmap file timeout targets).targets
      × (is_unset timeout ≡ false → (load_menu devmap file timeout targets).timeout ≡ timeout)
load_menu-AddsEntries devmap file timeout targets =
    let kept = load_menu-Kept timeout targets devmap file in (kept.added, kept.same_timeout)
