-- ===== src/Grub/Config/Kept.antt =====
-- Every grub.cfg adds targets that can be booted, and leaves a timeout that is set.
use kexec_loader.Misc.Strings.{kl_streq}
use kexec_loader.Misc.Config.{KlTarget}
use kexec_loader.Misc.Config.Fits.{titled-Fits}
use kexec_loader.Misc.Config.Loaded.{Adds}
use kexec_loader.Grub.Menu.{is_unset}
use kexec_loader.Grub.Config.{
  is_linux, is_initrd, is_search, grub2_command, split_command, grub2_line, grub2_lines,
  start_grub2, load_grub2_cfg, Grub2, AfterLine, next_line, goto_end,
}
use kexec_loader.Base.{
  ◌==◌, if_split, CString, str, head_byte, is_set, fgets_lines, ℤ, ℕ, ◌+◌, ◌≡◌, refl, sym, true,
  false, not, ◌&&◌, ◌||◌, Option, none, some, List, [], ◌∷◌, append-nil, arith,
}
use kexec_loader.Grub.Config.Handlers.{
  Kept, KeptLine, retarget-Kept, menuentry-Kept, close_entry-Kept, set_line-Kept, path_line-Kept,
  search_line-Kept,
}

module _ (timeout : ℤ) (targets : List KlTarget) where
  grub2_command-Kept :
      (lnum : ℕ) (cmd args : CString) (s : Grub2)
      → Kept timeout targets s
      → KeptLine timeout targets (grub2_command lnum cmd args s)
  unfolding grub2_command
  grub2_command-Kept lnum cmd args s h =
      let P = KeptLine timeout targets in
      if_split P (kl_streq cmd (str "menuentry")) _ _
        (λ _. menuentry-Kept timeout targets lnum args s h)
        (λ _.
          if_split P (kl_streq cmd (str "}") && not (s.entry_start == 0)) _ _
            (λ _. close_entry-Kept timeout targets s h)
            (λ _.
              if_split P (kl_streq cmd (str "chainloader")) _ _
                (λ _.
                  retarget-Kept timeout targets s s.target s.entry_start true s.default_title
                    s.default_index s.cur_index h.target_fits h)
                (λ _.
                  if_split P (kl_streq cmd (str "set")) _ _
                    (λ _. set_line-Kept timeout targets args s h)
                    (λ _.
                      if_split P (is_linux cmd) _ _
                        (λ _. (path_line-Kept timeout targets args s h).0)
                        (λ _.
                          if_split P (is_initrd cmd) _ _
                            (λ _. (path_line-Kept timeout targets args s h).1)
                            (λ _.
                              if_split P (is_search cmd) _ _
                                (λ _. search_line-Kept timeout targets cmd args s h) (λ _. h)))))))

  grub2_line-Kept :
      (lnum : ℕ) (buf : CString) (s : Grub2)
      → Kept timeout targets s
      → KeptLine timeout targets (grub2_line lnum buf s)
  unfolding grub2_line
  grub2_line-Kept lnum buf s h =
      let (cmd, args) = split_command buf in
      if_split (KeptLine timeout targets) (head_byte cmd == b'#' || not (is_set cmd)) (next_line s)
        _ (λ _. h) (λ _. grub2_command-Kept lnum cmd args s h)

  after_line-Kept :
      (lnum : ℕ) (lines : List CString)
      → ((t : Grub2) → Kept timeout targets t → Kept timeout targets (grub2_lines lnum lines t))
      → (l : AfterLine) → KeptLine timeout targets l
      → Kept timeout targets (elim l [ next_line t ↦ grub2_lines lnum lines t | goto_end t ↦ t ])
  after_line-Kept lnum lines k (next_line t) h = k t h
  after_line-Kept lnum lines k (goto_end t) h = h

  grub2_lines-Kept :
      (lnum : ℕ) (lines : List CString) (s : Grub2)
      → Kept timeout targets s
      → Kept timeout targets (grub2_lines lnum lines s)
  unfolding grub2_lines
  grub2_lines-Kept lnum [] s h = h
  grub2_lines-Kept lnum (buf ∷ lines) s h =
      after_line-Kept (lnum + 1) lines (λ t k. grub2_lines-Kept (lnum + 1) lines t k)
        (grub2_line (lnum + 1) buf s) (grub2_line-Kept (lnum + 1) buf s h)

  start_grub2-Kept : Kept timeout targets (start_grub2 timeout targets)
  start_grub2-Kept = record {
    added = ([], sym (append-nil targets), tt);
    target_fits = titled-Fits [] (omega arith);
    same_timeout = λ e. refl;
  }

  load_grub2_cfg-Kept :
      (contents : Option CString) → Kept timeout targets (load_grub2_cfg contents timeout targets)
  unfolding load_grub2_cfg
  load_grub2_cfg-Kept none = start_grub2-Kept
  load_grub2_cfg-Kept (some content) =
      grub2_lines-Kept 0 (fgets_lines 1024 content) _ start_grub2-Kept

-- Whatever a grub.cfg holds, every target that `load_grub2_cfg` adds behind the ones that are there has
-- a root device and a kernel, and fits its buffers; and a timeout that was not -1 is left as it was.
pub load_grub2_cfg-Adds :
    (contents : Option CString) (timeout : ℤ) (targets : List KlTarget)
    → Adds targets (load_grub2_cfg contents timeout targets).targets
      × (is_unset timeout ≡ false → (load_grub2_cfg contents timeout targets).timeout ≡ timeout)
load_grub2_cfg-Adds contents timeout targets =
    let kept = load_grub2_cfg-Kept timeout targets contents in (kept.added, kept.same_timeout)
