-- ===== src/Misc/Config/Settings.antt =====
-- What each line of a target's block sets.
use kexec_loader.Misc.Strings.{next_value, kl_streq}
use kexec_loader.Grub.Device.{split_line}
use kexec_loader.Misc.Config.{
  KlTarget, Loading, check_topen, set_root, set_kernel, set_initrd, set_cmdline, set_append,
  target_directive, directive, conf_line, conf_lines,
}
use kexec_loader.Misc.Config.Block.{IsText, IsTextOrNone, field_line, optional, flag_line}
use kexec_loader.Misc.Config.Runs.{inside, Runs, Runs-field}
use kexec_loader.Base.{
  ◌==◌, length, take_all, CString, str, ℕ, ◌<◌, ◌≡◌, refl, ap, ◌∙◌, inl, inr, Bool, true, false, [],
  ◌∷◌, arith,
}

module _ (s : Loading) (n : ℕ) (open_n : (n == 0) ≡ false) where
  pub root-Runs :
      (val : CString) (t : KlTarget)
      → IsText val
      → length val < 256
      → Runs s n (field_line (str "root") val ∷ []) t (record t { root = val })
  unfolding directive target_directive kl_streq
  root-Runs val t text fits lnum =
      Runs-field s n b'r' (str "oot") val (set_root val) t refl (refl, (refl, (refl, (refl, tt))))
        (refl, (refl, (refl, (refl, tt)))) text (λ k. refl) open_n lnum
      ∙ ap (λ v. inside s n (record t { root = v })) (take_all 255 val (omega arith))

  pub kernel-Runs :
      (val : CString) (t : KlTarget)
      → IsText val
      → length val < 1024
      → Runs s n (field_line (str "kernel") val ∷ []) t (record t { kernel = val })
  unfolding directive target_directive kl_streq
  kernel-Runs val t text fits lnum =
      Runs-field s n b'k' (str "ernel") val (set_kernel val) t refl
        (refl, (refl, (refl, (refl, (refl, (refl, tt))))))
        (refl, (refl, (refl, (refl, (refl, (refl, tt)))))) text (λ k. refl) open_n lnum
      ∙ ap (λ v. inside s n (record t { kernel = v })) (take_all 1023 val (omega arith))

  pub initrd-Runs :
      (val : CString) (t : KlTarget)
      → IsText val
      → length val < 1024
      → Runs s n (field_line (str "initrd") val ∷ []) t (record t { initrd = val })
  unfolding directive target_directive kl_streq
  initrd-Runs val t text fits lnum =
      Runs-field s n b'i' (str "nitrd") val (set_initrd val) t refl
        (refl, (refl, (refl, (refl, (refl, (refl, tt))))))
        (refl, (refl, (refl, (refl, (refl, (refl, tt)))))) text (λ k. refl) open_n lnum
      ∙ ap (λ v. inside s n (record t { initrd = v })) (take_all 1023 val (omega arith))

  pub cmdline-Runs :
      (val : CString) (t : KlTarget)
      → IsText val
      → length val < 1024
      → Runs s n (field_line (str "cmdline") val ∷ []) t (record t { cmdline = val })
  unfolding directive target_directive kl_streq
  cmdline-Runs val t text fits lnum =
      Runs-field s n b'c' (str "mdline") val (set_cmdline val) t refl
        (refl, (refl, (refl, (refl, (refl, (refl, (refl, tt)))))))
        (refl, (refl, (refl, (refl, (refl, (refl, (refl, tt))))))) text (λ k. refl) open_n lnum
      ∙ ap (λ v. inside s n (record t { cmdline = v })) (take_all 1023 val (omega arith))

  pub append-Runs :
      (val : CString) (t : KlTarget)
      → IsText val
      → length val < 1024
      → Runs s n (field_line (str "append") val ∷ []) t (record t { append = val })
  unfolding directive target_directive kl_streq
  append-Runs val t text fits lnum =
      Runs-field s n b'a' (str "ppend") val (set_append val) t refl
        (refl, (refl, (refl, (refl, (refl, (refl, tt))))))
        (refl, (refl, (refl, (refl, (refl, (refl, tt)))))) text (λ k. refl) open_n lnum
      ∙ ap (λ v. inside s n (record t { append = v })) (take_all 1023 val (omega arith))

  pub optional-Runs :
      (key val : CString) (t u : KlTarget)
      → (val ≡ [] → t ≡ u)
      → (IsText val → Runs s n (field_line key val ∷ []) t u)
      → IsTextOrNone val
      → Runs s n (optional key val) t u
  unfolding conf_lines
  optional-Runs key [] t u h k text lnum = ap (inside s n) (h refl)
  optional-Runs key (c ∷ val) t u h k (inl e) lnum = absurd (cc e)
  optional-Runs key (c ∷ val) t u h k (inr text) lnum = k text lnum

  pub default-Runs :
      (b : Bool) (t : KlTarget)
      → t.is_default ≡ false
      → Runs s n (flag_line (str "default\n") b) t (record t { is_default = b })
  unfolding conf_lines conf_line split_line next_value directive target_directive kl_streq
      check_topen
  default-Runs true t e lnum = rw open_n refl
  default-Runs false t e lnum = ap (λ b. inside s n (record t { is_default = b })) e

  pub reset_vga-Runs :
      (b : Bool) (t : KlTarget)
      → t.reset_vga ≡ false
      → Runs s n (flag_line (str "reset-vga\n") b) t (record t { reset_vga = b })
  unfolding conf_lines conf_line split_line next_value directive target_directive kl_streq
      check_topen
  reset_vga-Runs true t e lnum = rw open_n refl
  reset_vga-Runs false t e lnum = ap (λ b. inside s n (record t { reset_vga = b })) e
