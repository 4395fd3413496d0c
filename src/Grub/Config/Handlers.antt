-- ===== src/Grub/Config/Handlers.antt =====
-- What the commands of a grub.cfg keep.
use kexec_loader.Misc.Strings.{kl_streq}
use kexec_loader.Misc.Config.{KlTarget}
use kexec_loader.Misc.Config.Fits.{
  Fits, strlcpy-length, titled-Fits, root-Fits, kernel-Fits, initrd-Fits, append-Fits, flags-Fits,
}
use kexec_loader.Misc.Config.Loaded.{IsBootable, Adds}
use kexec_loader.Grub.Menu.{is_unset, is_entry}
use kexec_loader.Grub.Config.{
  SearchBy, Search, search_args, root_by, search_kind, end_search, search_line, Grub2, AfterLine,
  grub2_val, with_val, is_title, menuentry, close_entry, is_number, choose_default, set_variable,
  set_line, linux_line, initrd_line, next_line, goto_end, unknown, file, fs_label, fs_uuid,
}
use kexec_loader.Base.{
  if_split, and_true, length, All-append, CString, str, is_set, strlcpy, ℤ, atoi, negsuc, ℕ, ◌+◌,
  ◌≡◌, ap, ◌∙◌, Bool, true, false, not, ◌&&◌, ◌||◌, Option, none, some, List, [], ◌∷◌, ◌++◌,
  append_assoc, arith,
}

-- what holds between two lines
pub record Kept (timeout : ℤ) (targets : List KlTarget) (s : Grub2) : Type 0 where
  pub added : Adds targets s.targets
  pub target_fits : Fits s.target
  pub same_timeout : is_unset timeout ≡ false → s.timeout ≡ timeout

abbrev pub KeptLine : ℤ → List KlTarget → AfterLine → Type 0
KeptLine timeout targets (next_line s) = Kept timeout targets s
KeptLine timeout targets (goto_end s) = Kept timeout targets s

retitled-Fits :
    (t : KlTarget) (title : CString) → Fits t → Fits (record t { title = strlcpy title 256 })
retitled-Fits t title h = record {
  title_fits = strlcpy-length title 256 (omega arith);
  root_fits = h.root_fits;
  kernel_fits = h.kernel_fits;
  initrd_fits = h.initrd_fits;
  cmdline_fits = h.cmdline_fits;
  append_fits = h.append_fits;
  modules_fit = h.modules_fit;
}

module _ (timeout : ℤ) (targets : List KlTarget) where
  -- a change of the target and of the locals
  pub retarget-Kept :
      (s : Grub2) (t : KlTarget) (entry_start : ℕ) (skip : Bool) (title : Option CString)
      (index : ℤ) (cur : ℕ)
      → Fits t
      → Kept timeout targets s
      → Kept timeout targets (record s {
        target = t;
        entry_start = entry_start;
        skip_entry = skip;
        default_title = title;
        default_index = index;
        cur_index = cur;
      })
  retarget-Kept s t entry_start skip title index cur fits h = record {
    added = h.added;
    target_fits = fits;
    same_timeout = h.same_timeout;
  }

  change-Kept :
      (s : Grub2) (t : KlTarget)
      → Fits t
      → Kept timeout targets s
      → Kept timeout targets (record s { target = t })
  change-Kept s t fits h =
      retarget-Kept s t s.entry_start s.skip_entry s.default_title s.default_index s.cur_index fits
        h

  with_val-Kept :
      (s : Grub2) (o : Option (CString × CString)) (f : CString → CString → Grub2)
      → Kept timeout targets s
      → ((val rest : CString) → Kept timeout targets (f val rest))
      → KeptLine timeout targets (with_val s o f)
  with_val-Kept s none f h k = h
  with_val-Kept s (some (val, rest)) f h k = k val rest

  pub menuentry-Kept :
      (lnum : ℕ) (args : CString) (s : Grub2)
      → Kept timeout targets s
      → KeptLine timeout targets (menuentry lnum args s)
  unfolding menuentry
  menuentry-Kept lnum args s h = with_val-Kept s (grub2_val args) _ h (λ title rest.
      let t = record s.target { title = strlcpy title 256 } in
      let fits : Fits t = retitled-Fits s.target title h.target_fits in
      retarget-Kept s _ lnum false s.default_title s.default_index (s.cur_index + 1)
        (if_split Fits (is_entry s.cur_index s.default_index || is_title s.default_title title) _ t
          (λ e. flags-Fits t true false fits) (λ e. fits))
        h)

  add_entry-Adds : (s : Grub2) → Kept timeout targets s → Adds targets (close_entry s).targets
  add_entry-Adds s h =
      if_split (Adds targets) (not s.skip_entry && is_set s.target.root && is_set s.target.kernel) _
        _
        (λ e.
          let (set, kernel) =
            and_true (not s.skip_entry && is_set s.target.root) (is_set s.target.kernel) e in
          let (kept, root) = and_true (not s.skip_entry) (is_set s.target.root) set in
          let (new, at_new, bootable) = h.added in
          let entry : IsBootable s.target = record {
            fits = h.target_fits;
            has_root = root;
            has_kernel = kernel;
          } in
          (
            new ++ s.target ∷ [],
            ap (λ ts. ts ++ s.target ∷ []) at_new ∙ append_assoc targets new (s.target ∷ []),
            All-append IsBootable new (s.target ∷ []) bootable (entry, tt),
          ))
        (λ e. h.added)

  pub close_entry-Kept : (s : Grub2) → Kept timeout targets s → Kept timeout targets (close_entry s)
  close_entry-Kept s h = record {
    added = add_entry-Adds s h;
    target_fits = titled-Fits [] (omega arith);
    same_timeout = h.same_timeout;
  }

  set_variable-Kept :
      (name val : CString) (s : Grub2)
      → Kept timeout targets s
      → Kept timeout targets (set_variable name val s)
  unfolding set_variable choose_default
  set_variable-Kept name val s h =
      if_split (Kept timeout targets) (kl_streq name (str "root")) _ _
        (λ _. change-Kept s _ (root-Fits s.target val h.target_fits) h)
        (λ _.
          if_split (Kept timeout targets) (kl_streq name (str "default")) _ _
            (λ _.
              if_split (Kept timeout targets) (is_number val) _ _
                (λ _.
                  retarget-Kept s s.target s.entry_start s.skip_entry none (atoi val) s.cur_index
                    h.target_fits h)
                (λ _.
                  retarget-Kept s s.target s.entry_start s.skip_entry _ (negsuc 0) s.cur_index
                    h.target_fits h))
            (λ _.
              if_split (Kept timeout targets) (kl_streq name (str "timeout") && is_unset s.timeout)
                _ s
                (λ e.
                  let (named, unset) =
                    and_true (kl_streq name (str "timeout")) (is_unset s.timeout) e in
                  record {
                    added = h.added;
                    target_fits = h.target_fits;
                    same_timeout = λ k. absurd (cc (ap is_unset (h.same_timeout k), unset, k));
                  })
                (λ _. h)))

  pub set_line-Kept :
      (args : CString) (s : Grub2)
      → Kept timeout targets s
      → KeptLine timeout targets (set_line args s)
  unfolding set_line
  set_line-Kept args s h = by (grub2_val args)
    where
      by :
          (o : Option (CString × CString))
          → KeptLine timeout targets (elim o [
            | none ↦ goto_end s
            | some (name, rest) ↦ with_val s (grub2_val rest) λ val more. set_variable name val s
          ])
      by none = h
      by (some (name, rest)) =
          with_val-Kept s (grub2_val rest) _ h (λ val more. set_variable-Kept name val s h)

  pub path_line-Kept :
      (args : CString) (s : Grub2)
      → Kept timeout targets s
      → KeptLine timeout targets (linux_line args s) × KeptLine timeout targets (initrd_line args s)
  unfolding linux_line initrd_line
  path_line-Kept args s h = (
    with_val-Kept s (grub2_val args) _ h (λ kernel k_args.
        change-Kept s _ (append-Fits _ k_args (kernel-Fits s.target kernel h.target_fits)) h),
    with_val-Kept s (grub2_val args) _ h
        (λ initrd rest. change-Kept s _ (initrd-Fits s.target initrd h.target_fits) h),
  )

  root_by-Kept :
      (by : SearchBy) (args : CString) (s : Grub2)
      → Kept timeout targets s
      → Kept timeout targets (root_by by args s)
  unfolding root_by
  root_by-Kept unknown args s h = h
  root_by-Kept file args s h = h
  root_by-Kept fs_label args s h =
      change-Kept s _ (root-Fits s.target (str "LABEL=" ++ args) h.target_fits) h
  root_by-Kept fs_uuid args s h =
      change-Kept s _ (root-Fits s.target (str "UUID=" ++ args) h.target_fits) h

  end_search-Kept :
      (args : CString) (search : Search) (s : Grub2)
      → Kept timeout targets s
      → Kept timeout targets (end_search args search s)
  end_search-Kept args search s h =
      if_split (Kept timeout targets) search.sets_root (root_by search.search_by args s) s
        (λ _. root_by-Kept search.search_by args s h) (λ _. h)

  pub search_line-Kept :
      (cmd args : CString) (s : Grub2)
      → Kept timeout targets s
      → Kept timeout targets (search_line cmd args s)
  unfolding search_line
  search_line-Kept cmd args s h =
      let start : Search = record {
        search_by = search_kind cmd;
        sets_root = false;
        l_set = false;
      } in
      let (last, search) = search_args (length args) args start in end_search-Kept last search s h
