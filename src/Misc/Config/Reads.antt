-- ===== src/Misc/Config/Reads.antt =====
-- A target is read back from the block of lines that describes it.
use kexec_loader.Misc.Strings.{after_word, next_value, kl_streq}
use kexec_loader.Misc.Config.{
  KlModule, KlTarget, init_target, Message, Loading, has_args, check_args, unless_set,
  add_to_targets, add_target, close_target, open_target, make_module, add_module, target_directive,
  directive, conf_line, conf_lines, no_root,
}
use kexec_loader.Misc.Config.Fits.{ModuleFits, Fits}
use kexec_loader.Misc.Config.Block.{
  IsText, IsTextOrNone, IsModule, IsTarget, field_line, optional, flag_line, args_part, module_line,
  block_body, block,
}
use kexec_loader.Misc.Config.Runs.{
  inside, Runs, Runs-append, Runs-field, next_value-words, split_line-field, conf_line-directive,
}
use kexec_loader.Misc.Config.Settings.{
  root-Runs, kernel-Runs, initrd-Runs, cmdline-Runs, append-Runs, optional-Runs, default-Runs,
  reset_vga-Runs,
}
use kexec_loader.Base.{
  ◌==◌, length, take, All, take_all, All-append, CString, str, is_set, blanks, line_ends, IsOut,
  BeginsOut, take-strcspn, drop-strcspn, ℕ, ◌+◌, ◌<◌, ◌≡◌, refl, sym, ap, ◌∙◌, inl, inr, true,
  false, List, [], ◌∷◌, ◌++◌, map, append-nil, append_assoc, arith,
}

is_set-append : (xs ys : CString) → is_set xs ≡ true → is_set (xs ++ ys) ≡ true
is_set-append [] ys h = cc
is_set-append (x ∷ xs) ys h = refl

begins-word :
    (word rest : CString)
    → is_set word ≡ true
    → All (IsOut blanks) word
    → BeginsOut blanks (word ++ rest)
begins-word [] rest h k = cc
begins-word (c ∷ word) rest h k = k.0

args_part-line : (args : CString) → IsTextOrNone args → All (IsOut line_ends) (args_part args)
args_part-line [] h = tt
args_part-line (c ∷ args) (inl e) = absurd (cc e)
args_part-line (c ∷ args) (inr text) = (refl, text.one_line)

next_value-module :
    (name args : CString)
    → All (IsOut blanks) name
    → IsTextOrNone args
    → next_value (name ++ args_part args) ≡ (name, args)
unfolding next_value
next_value-module name [] h text =
    λ i. (take-strcspn blanks name [] h tt i, ap after_word (drop-strcspn blanks name [] h tt) i)
next_value-module name (c ∷ args) h (inl e) = absurd (cc e)
next_value-module name (c ∷ args) h (inr text) = next_value-words name (c ∷ args) h text.begins

module _ (s : Loading) (n : ℕ) (open_n : (n == 0) ≡ false) where
  module_line-IsText : (m : KlModule) → IsModule m → IsText (m.name ++ args_part m.args)
  module_line-IsText m h = record {
    set = is_set-append m.name (args_part m.args) h.name_set;
    begins = begins-word m.name (args_part m.args) h.name_set h.name_word;
    one_line =
        All-append (IsOut line_ends) m.name (args_part m.args) h.name_line
          (args_part-line m.args h.args_text);
  }

  make_module-reads :
      (m : KlModule) → IsModule m → ModuleFits m → make_module (m.name ++ args_part m.args) ≡ m
  unfolding make_module
  make_module-reads m h fits =
      ap (λ words. record { name = take 1023 words.0; args = take 1023 words.1 })
        (next_value-module m.name m.args h.name_word h.args_text)
      ∙ (λ i. record {
        name = take_all 1023 m.name (omega (arith, fits.name_fits)) i;
        args = take_all 1023 m.args (omega (arith, fits.args_fit)) i;
      })

  modules-Runs :
      (ms : List KlModule) (t : KlTarget)
      → All IsModule ms
      → All ModuleFits ms
      → Runs s n (map module_line ms) t (record t { modules = t.modules ++ ms })
  unfolding conf_lines directive target_directive kl_streq
  modules-Runs [] t h fits lnum =
      ap (λ ms. inside s n (record t { modules = ms })) (sym (append-nil t.modules))
  modules-Runs (m ∷ ms) t h fits lnum =
      let text = m.name ++ args_part m.args in
      let u : KlTarget = add_module text t in
      Runs-append s n (module_line m ∷ []) (map module_line ms) t u _
        (Runs-field s n b'm' (str "odule") text (add_module text) t refl
          (refl, (refl, (refl, (refl, (refl, (refl, tt))))))
          (refl, (refl, (refl, (refl, (refl, (refl, tt)))))) (module_line-IsText m h.0) (λ k. refl)
          open_n)
        (modules-Runs ms u h.1 fits.1) lnum
      ∙ ap (λ ms'. inside s n (record t { modules = ms' }))
          (append_assoc t.modules (make_module text ∷ []) ms
            ∙ ap (λ m'. t.modules ++ m' ∷ ms) (make_module-reads m h.0 fits.0))

  -- the lines of a block behind its title
  body-Runs :
      (t : KlTarget)
      → IsTarget t
      → Fits t
      → Runs s n (block_body t) (record init_target { title = t.title }) t
  body-Runs t h fits =
      let t1 : KlTarget = record init_target { title = t.title; root = t.root } in
      let t2 : KlTarget = record t1 { kernel = t.kernel } in
      let t3 : KlTarget = record t2 { initrd = t.initrd } in
      let t4 : KlTarget = record t3 { cmdline = t.cmdline } in
      let t5 : KlTarget = record t4 { append = t.append } in
      let t6 : KlTarget = record t5 { is_default = t.is_default } in
      let t7 : KlTarget = record t6 { reset_vga = t.reset_vga } in
      let start : KlTarget = record init_target { title = t.title } in
      Runs-append s n (field_line (str "root") t.root ∷ []) _ start t1 t
        (root-Runs s n open_n t.root start h.root_text fits.root_fits)
        (Runs-append s n (field_line (str "kernel") t.kernel ∷ []) _ t1 t2 t
          (kernel-Runs s n open_n t.kernel t1 h.kernel_text fits.kernel_fits)
          (Runs-append s n (optional (str "initrd") t.initrd) _ t2 t3 t
            (optional-Runs s n open_n (str "initrd") t.initrd t2 t3
              (λ e i. record t2 { initrd = sym e i })
              (λ x. initrd-Runs s n open_n t.initrd t2 x fits.initrd_fits) h.initrd_text)
            (Runs-append s n (optional (str "cmdline") t.cmdline) _ t3 t4 t
              (optional-Runs s n open_n (str "cmdline") t.cmdline t3 t4
                (λ e i. record t3 { cmdline = sym e i })
                (λ x. cmdline-Runs s n open_n t.cmdline t3 x fits.cmdline_fits) h.cmdline_text)
              (Runs-append s n (optional (str "append") t.append) _ t4 t5 t
                (optional-Runs s n open_n (str "append") t.append t4 t5
                  (λ e i. record t4 { append = sym e i })
                  (λ x. append-Runs s n open_n t.append t4 x fits.append_fits) h.append_text)
                (Runs-append s n (flag_line (str "default\n") t.is_default) _ t5 t6 t
                  (default-Runs s n open_n t.is_default t5 refl)
                  (Runs-append s n (flag_line (str "reset-vga\n") t.reset_vga) _ t6 t7 t
                    (reset_vga-Runs s n open_n t.reset_vga t6 refl)
                    (modules-Runs t.modules t7 h.modules_are fits.modules_fit)))))))

unless_set-is_set :
    (field : CString) (m : Message) (s : Loading) → is_set field ≡ true → unless_set field m s ≡ s
unless_set-is_set [] m s h = cc
unless_set-is_set (c ∷ field) m s h = refl

close_target-adds :
    (s : Loading)
    → (s.topen == 0) ≡ false
    → is_set s.target.root ≡ true
    → is_set s.target.kernel ≡ true
    → (close_target s).conf.targets ≡ s.conf.targets ++ s.target ∷ []
unfolding close_target add_target
close_target-adds s opened root kernel =
    rw (opened, root, kernel)
      (ap (λ u. (add_to_targets u).conf.targets)
        (unless_set-is_set s.target.kernel _ _ kernel
          ∙ unless_set-is_set s.target.root (no_root s.topen) s root))

title-opens :
    (s : Loading) (n : ℕ) (val : CString)
    → IsText val
    → length val < 256
    → conf_line n (field_line (str "title") val) s ≡ inside s n (record init_target { title = val })
unfolding directive kl_streq check_args has_args open_target
title-opens s n [] text fits = absurd (cc text.set)
title-opens s n (c ∷ val) text fits =
    conf_line-directive s n n b't' (field_line (str "title") (c ∷ val)) (str "itle") (c ∷ val) s
      (split_line-field (str "title") (c ∷ val) (refl, (refl, (refl, (refl, (refl, tt)))))
        (refl, (refl, (refl, (refl, (refl, tt))))) refl text)
      refl
    ∙ ap (λ v. inside s n (record init_target { title = v })) (take_all 255 (c ∷ val) (omega arith))

-- Take a target with a title, a root and a kernel whose strings stand on one line, begin with no
-- blank and fit their buffers, and whose modules have names of one word. Reading, line by line, the
-- block that describes it closes the target that is open and opens this one, so that closing it adds
-- it exactly as described.
pub conf_lines-block :
    (s : Loading) (lnum : ℕ) (t : KlTarget)
    → IsTarget t
    → Fits t
    → (close_target (conf_lines lnum (block t) s)).conf.targets
      ≡ (close_target s).conf.targets ++ t ∷ []
unfolding conf_lines
conf_lines-block s lnum t h fits =
    let n = lnum + 1 in
    let open_n : (n == 0) ≡ false = ground arith in
    let read : conf_lines lnum (block t) s ≡ inside s n t =
      ap (conf_lines n (block_body t)) (title-opens s n t.title h.title_text fits.title_fits)
      ∙ body-Runs s n open_n t h fits n in
    ap (λ u. (close_target u).conf.targets) read
    ∙ close_target-adds (inside s n t) open_n h.root_text.set h.kernel_text.set
