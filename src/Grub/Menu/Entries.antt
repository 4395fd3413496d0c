-- ===== src/Grub/Menu/Entries.antt =====
-- What the lines of a menu.lst keep, and what the targets that it adds are.
use kexec_loader.Misc.Strings.{}
use kexec_loader.Misc.Config.{KlTarget, init_target, set_root}
use kexec_loader.Misc.Config.Fits.{Fits, strlcpy-length, titled-Fits, root-Fits, flags-Fits}
use kexec_loader.Misc.Config.Loaded.{IsBootable}
use kexec_loader.Grub.Device.{Gdev, lookup_gdev}
use kexec_loader.Grub.Menu.{
  Menu, after_close, on_device, conv_path, add_menu_target, is_unset, is_entry, open_entry,
  change_entry, with_path, root_directive, start_menu,
}
use kexec_loader.Base.{
  ◌==◌, Bool-cases, if_split, length, All, All-append, CString, str, head_byte, is_set, strlcpy, ℤ,
  ℕ, ◌<◌, ◌≡◌, refl, sym, ap, ◌∙◌, inl, inr, true, false, not, ◌&&◌, Option, none, some, List, [],
  ◌∷◌, ◌++◌, append-nil, append_assoc, arith,
}

-- a target that can be booted and resets the VGA hardware
pub record IsEntry (t : KlTarget) : Type 0 where
  pub bootable : IsBootable t
  pub resets : t.reset_vga ≡ true

-- the targets that stand behind `before`
abbrev pub AddsEntries : List KlTarget → List KlTarget → Type 0
AddsEntries before after = (new : List KlTarget) × (after ≡ before ++ new) × All IsEntry new

-- what holds between two lines
pub record Kept (timeout : ℤ) (targets : List KlTarget) (s : Menu) : Type 0 where
  pub added : AddsEntries targets s.targets
  pub target_fits : Fits s.target
  pub resets : (s.topen == 0) ≡ false → s.target.reset_vga ≡ true
  pub same_timeout : is_unset timeout ≡ false → s.timeout ≡ timeout

pub on_device-length :
    (src path : CString) (o : Option CString)
    → on_device 1024 src o ≡ some path
    → length path < 1024
on_device-length src path none k = absurd (cc k)
on_device-length src path (some dev) k =
    let text = str "(" ++ (dev ++ (str ")" ++ after_close src)) in
    let same : strlcpy text 1024 ≡ path = cc k in
    rw (sym same) (strlcpy-length text 1024 (omega arith))

pub conv_path-length :
    (devmap : List Gdev) (src path : CString)
    → conv_path devmap 1024 src ≡ some path
    → length path < 1024
unfolding conv_path
conv_path-length devmap src path h = elim (Bool-cases (head_byte src == b'(')) [
  | inl e ↦ on_device-length src path (lookup_gdev devmap src) (rw e at h)
  | inr e ↦
      let found : some (strlcpy src 1024) ≡ some path = rw e at h in
      let same : strlcpy src 1024 ≡ path = cc found in
      rw (sym same) (strlcpy-length src 1024 (omega arith))
]

module _ (timeout : ℤ) (targets : List KlTarget) where
  pub change_entry-Kept :
      (f : KlTarget → KlTarget) (s : Menu)
      → (Fits s.target → Fits (f s.target))
      → ((f s.target).reset_vga ≡ s.target.reset_vga)
      → Kept timeout targets s
      → Kept timeout targets (change_entry f s)
  change_entry-Kept f s k r h = record {
    added = h.added;
    target_fits = k h.target_fits;
    resets = λ e. r ∙ h.resets e;
    same_timeout = h.same_timeout;
  }

  pub add_menu_target-Kept :
      (s : Menu) → Kept timeout targets s → Kept timeout targets (add_menu_target s)
  unfolding add_menu_target
  add_menu_target-Kept s h =
      let test =
        not (s.topen == 0) && not s.tskip && is_set s.target.root && is_set s.target.kernel in
      if_split (Kept timeout targets) test _ s
        (λ e.
          let (new, at_new, entries) = h.added in
          let opened : (s.topen == 0) ≡ false = ground arith in
          let root : is_set s.target.root ≡ true = ground arith in
          let kernel : is_set s.target.kernel ≡ true = ground arith in
          let entry : IsEntry s.target = record {
            bootable = record { fits = h.target_fits; has_root = root; has_kernel = kernel };
            resets = h.resets opened;
          } in
          record {
            added = (
              new ++ s.target ∷ [],
              ap (λ ts. ts ++ s.target ∷ []) at_new ∙ append_assoc targets new (s.target ∷ []),
              All-append IsEntry new (s.target ∷ []) entries (entry, tt),
            );
            target_fits = h.target_fits;
            resets = h.resets;
            same_timeout = h.same_timeout;
          })
        (λ _. h)

  pub open_entry-Kept :
      (lnum : ℕ) (val : CString) (s : Menu)
      → Kept timeout targets s
      → Kept timeout targets (open_entry lnum val s)
  unfolding open_entry
  open_entry-Kept lnum val s h =
      let k = add_menu_target-Kept s h in
      record {
        added = k.added;
        target_fits =
            flags-Fits (record init_target { title = strlcpy val 256 }) (is_entry s.tnum s.defnum)
              true (titled-Fits _ (strlcpy-length val 256 (omega arith)));
        resets = λ _. refl;
        same_timeout = k.same_timeout;
      }

  pub with_path-Kept :
      (f : CString → KlTarget → KlTarget) (o : Option CString) (s : Menu)
      → ((path : CString) → o ≡ some path → Fits s.target → Fits (f path s.target))
      → ((path : CString) → (f path s.target).reset_vga ≡ s.target.reset_vga)
      → Kept timeout targets s
      → Kept timeout targets (with_path f o s)
  with_path-Kept f none s k r h = h
  with_path-Kept f (some path) s k r h = change_entry-Kept (f path) s (k path refl) (r path) h

  pub root_directive-Kept :
      (devmap : List Gdev) (val : CString) (s : Menu)
      → Kept timeout targets s
      → Kept timeout targets (root_directive devmap val s)
  root_directive-Kept devmap [] s h = record {
    added = h.added;
    target_fits = h.target_fits;
    resets = h.resets;
    same_timeout = h.same_timeout;
  }
  root_directive-Kept devmap (c ∷ val) s h =
      with_path-Kept set_root (lookup_gdev devmap (c ∷ val)) s (λ path e. root-Fits s.target path)
        (λ path. refl) h

  pub start_menu-Kept : Kept timeout targets (start_menu timeout targets)
  start_menu-Kept = record {
    added = ([], sym (append-nil targets), tt);
    target_fits = titled-Fits [] (omega arith);
    resets = λ e. cc;
    same_timeout = λ e. refl;
  }
