-- ===== src/Misc/Config/Loaded.antt =====
-- What every directive of a configuration keeps: the device map, the targets in front, and that the
-- targets added can be booted and fit their buffers.
use kexec_loader.Misc.Strings.{next_value, kl_strceq}
use kexec_loader.Misc.Strings.Splitting.{take_word-IsInk}
use kexec_loader.Misc.Config.{
  KlTarget, Conf, Message, Loading, report, has_args, check_args, check_topen, unless_set,
  report_missing, add_to_targets, add_target, close_target, set_grub_path, grub_map, set_autodetect,
  open_target, change_target, add_kmod, started, no_device, no_root,
}
use kexec_loader.Misc.Config.Fits.{Fits, strlcpy-length, titled-Fits}
use kexec_loader.Base.{
  ◌==◌, if◌then◌else◌, Bool-cases, if_split, and_true, take, drop, All, All-append, CString, str,
  head_byte, is_set, strcspn, strspn, blanks, IsOut, drop-strcspn, ℕ, ◌≡◌, refl, sym, ap, ◌∙◌, inl,
  inr, true, false, ◌&&◌, List, [], ◌∷◌, ◌++◌, append-nil, append_assoc, arith,
}

pub record IsBootable (t : KlTarget) : Type 0 where
  pub fits : Fits t
  pub has_root : is_set t.root ≡ true
  pub has_kernel : is_set t.kernel ≡ true

-- the targets that stand behind `before`
abbrev pub Adds : List KlTarget → List KlTarget → Type 0
Adds before after = (new : List KlTarget) × (after ≡ before ++ new) × All IsBootable new

-- what holds between two lines
pub record Loaded (conf : Conf) (s : Loading) : Type 0 where
  pub devmap : s.conf.grub_devmap ≡ conf.grub_devmap
  pub added : Adds conf.targets s.conf.targets
  pub target_fits : Fits s.target

module _ (conf : Conf) where
  pub report-Loaded : (m : Message) (s : Loading) → Loaded conf s → Loaded conf (report m s)
  report-Loaded m s h = record { devmap = h.devmap; added = h.added; target_fits = h.target_fits }

  pub started-Loaded : Loaded conf (started conf)
  started-Loaded = record {
    devmap = refl;
    added = ([], sym (append-nil conf.targets), tt);
    target_fits = titled-Fits [] (omega arith);
  }

  pub check_args-Loaded :
      (n lnum : ℕ) (name val : CString) (s rest : Loading)
      → Loaded conf s
      → Loaded conf rest
      → Loaded conf (check_args n lnum name val s rest)
  unfolding check_args
  check_args-Loaded n lnum name val s rest h k =
      if_split (Loaded conf) (has_args n val) rest _ (λ _. k) (λ _. report-Loaded _ s h)

  pub check_topen-Loaded :
      (lnum : ℕ) (name : CString) (s rest : Loading)
      → Loaded conf s
      → Loaded conf rest
      → Loaded conf (check_topen lnum name s rest)
  unfolding check_topen
  check_topen-Loaded lnum name s rest h k =
      if_split (Loaded conf) (s.topen == 0) _ rest (λ _. report-Loaded _ s h) (λ _. k)

  pub targets-Loaded :
      (s : Loading)
      → Loaded conf s
      → is_set s.target.root && is_set s.target.kernel ≡ true
      → Loaded conf (add_to_targets s)
  targets-Loaded s h e =
      let (root, kernel) = and_true (is_set s.target.root) (is_set s.target.kernel) e in
      let (new, at_new, bootable) = h.added in
      let target : IsBootable s.target = record {
        fits = h.target_fits;
        has_root = root;
        has_kernel = kernel;
      } in
      record {
        devmap = h.devmap;
        added = (
          new ++ s.target ∷ [],
          ap (λ ts. ts ++ s.target ∷ []) at_new ∙ append_assoc conf.targets new (s.target ∷ []),
          All-append IsBootable new (s.target ∷ []) bootable (target, tt),
        );
        target_fits = h.target_fits;
      }

  unless_set-target :
      (field : CString) (m : Message) (s : Loading) → (unless_set field m s).target ≡ s.target
  unless_set-target [] m s = refl
  unless_set-target (c ∷ field) m s = refl

  pub unless_set-Loaded :
      (field : CString) (m : Message) (s : Loading)
      → Loaded conf s
      → Loaded conf (unless_set field m s)
  unless_set-Loaded [] m s h = report-Loaded m s h
  unless_set-Loaded (c ∷ field) m s h = h

  report_missing-target : (s : Loading) → (report_missing s).target ≡ s.target
  report_missing-target s =
      unless_set-target s.target.kernel _ _ ∙ unless_set-target s.target.root (no_root s.topen) s

  pub report_missing-Loaded : (s : Loading) → Loaded conf s → Loaded conf (report_missing s)
  report_missing-Loaded s h =
      unless_set-Loaded s.target.kernel _ _ (unless_set-Loaded s.target.root (no_root s.topen) s h)

  pub close_target-Loaded : (s : Loading) → Loaded conf s → Loaded conf (close_target s)
  unfolding close_target add_target
  close_target-Loaded s h =
      let t = report_missing s in
      let loaded = report_missing-Loaded s h in
      let bootable = is_set s.target.root && is_set s.target.kernel in
      if_split (Loaded conf) (s.topen == 0) s (if bootable then add_to_targets t else t) (λ _. h)
        (λ _.
          if_split (Loaded conf) bootable _ t
            (λ e. targets-Loaded t loaded (rw (report_missing-target s) e)) (λ _. loaded))

  pub change_target-Loaded :
      (f : KlTarget → KlTarget) (s : Loading)
      → (Fits s.target → Fits (f s.target))
      → Loaded conf s
      → Loaded conf (change_target f s)
  change_target-Loaded f s k h = record {
    devmap = h.devmap;
    added = h.added;
    target_fits = k h.target_fits;
  }

  pub open_target-Loaded :
      (lnum : ℕ) (val : CString) (s : Loading)
      → Loaded conf s
      → Loaded conf (open_target lnum val s)
  unfolding open_target
  open_target-Loaded lnum val s h =
      let closed = close_target-Loaded s h in
      record {
        devmap = closed.devmap;
        added = closed.added;
        target_fits = titled-Fits _ (strlcpy-length val 256 (omega arith));
      }

  pub grub_path-Loaded :
      (lnum : ℕ) (val : CString) (s : Loading)
      → Loaded conf s
      → Loaded conf (set_grub_path lnum val s)
  grub_path-Loaded lnum val s h =
      if_split (Loaded conf) (head_byte val == b'(') _ (report (no_device lnum) s)
        (λ _. record { devmap = h.devmap; added = h.added; target_fits = h.target_fits })
        (λ _. report-Loaded _ s h)

  pub autodetect-Loaded :
      (lnum : ℕ) (val : CString) (s : Loading)
      → Loaded conf s
      → Loaded conf (set_autodetect lnum val s)
  autodetect-Loaded lnum val s h =
      let set : (n : ℕ) → Loaded conf (record s { conf = record s.conf { grub_autodetect = n } }) =
        λ n. record { devmap = h.devmap; added = h.added; target_fits = h.target_fits } in
      elim (Bool-cases (kl_strceq val (str "on"))) [
        | inl e ↦ rw e (set 2)
        | inr e ↦ rw e (elim (Bool-cases (kl_strceq val (str "off"))) [
          | inl e' ↦ rw e' (set 0)
          | inr e' ↦ rw e' (report-Loaded _ s h)
        ])
      ]

  -- `val` has been cut to one word when its arguments are counted.
  has_args-word : (word : CString) → All (IsOut blanks) word → has_args 2 word ≡ false
  unfolding has_args
  has_args-word [] h = refl
  has_args-word (c ∷ word) h =
      let e : drop (strcspn (c ∷ word) blanks) (c ∷ word) ≡ [] =
        ap (λ w. drop (strcspn w blanks) w) (sym (append-nil (c ∷ word)))
        ∙ drop-strcspn blanks (c ∷ word) [] h tt in
      ap (λ rest. has_args 1 (drop (strspn rest blanks) rest)) e

  pub grub_map-Loaded :
      (lnum : ℕ) (name val : CString) (s : Loading)
      → Loaded conf s
      → Loaded conf (grub_map lnum name val s)
  unfolding grub_map check_args next_value
  grub_map-Loaded lnum name val s h =
      rw (has_args-word (take (strcspn val blanks) val) (take_word-IsInk val)) (report-Loaded _ s h)

  pub copied-Loaded :
      (lnum : ℕ) (name val : CString) (s : Loading) (f : KlTarget → KlTarget)
      → (Fits s.target → Fits (f s.target))
      → Loaded conf s
      → Loaded conf (check_topen lnum name s (check_args 1 lnum name val s (change_target f s)))
  copied-Loaded lnum name val s f k h =
      check_topen-Loaded lnum name s _ h
        (check_args-Loaded 1 lnum name val s _ h (change_target-Loaded f s k h))

  pub flag-Loaded :
      (lnum : ℕ) (name : CString) (s : Loading) (f : KlTarget → KlTarget)
      → (Fits s.target → Fits (f s.target))
      → Loaded conf s
      → Loaded conf (check_topen lnum name s (change_target f s))
  flag-Loaded lnum name s f k h = check_topen-Loaded lnum name s _ h (change_target-Loaded f s k h)

  pub kmod-Loaded :
      (lnum : ℕ) (name val : CString) (s : Loading)
      → Loaded conf s
      → Loaded conf (check_topen lnum name s (check_args 1 lnum name val s (add_kmod val s)))
  kmod-Loaded lnum name val s h = check_topen-Loaded lnum name s _ h (
      check_args-Loaded 1 lnum name val s _ h
        (record { devmap = h.devmap; added = h.added; target_fits = h.target_fits }))
