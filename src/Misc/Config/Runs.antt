-- ===== src/Misc/Config/Runs.antt =====
-- How blocks of lines of a configuration run.
use kexec_loader.Misc.Strings.{after_word, next_value}
use kexec_loader.Grub.Device.{split_line}
use kexec_loader.Misc.Config.{
  KlTarget, Loading, has_args, check_args, check_topen, close_target, directive, conf_line,
  conf_lines,
}
use kexec_loader.Misc.Config.Block.{IsText, field_line}
use kexec_loader.Base.{
  ◌==◌, if◌then◌else◌, length, drop, All, All-append, CString, str, head_byte, is_set, strspn,
  blanks, line_ends, IsOut, BeginsOut, drop-strspn, take-strcspn, drop-strcspn, ℕ, ◌+◌, ◌≡◌, refl,
  ap, ◌∙◌, true, false, not, ◌||◌, List, [], ◌∷◌, ◌++◌, arith,
}

pub next_value-words :
    (word rest : CString)
    → All (IsOut blanks) word
    → BeginsOut blanks rest
    → next_value (word ++ b' ' ∷ rest) ≡ (word, rest)
unfolding next_value
next_value-words word rest h k i = (
  take-strcspn blanks word (b' ' ∷ rest) h refl i,
  (ap after_word (drop-strcspn blanks word (b' ' ∷ rest) h refl) ∙ drop-strspn blanks [] rest tt k)
      i,
)

pub split_line-field :
    (key val : CString)
    → All (IsOut blanks) key
    → All (IsOut line_ends) key
    → BeginsOut (line_ends ++ blanks) (key ++ b' ' ∷ val)
    → IsText val
    → split_line (field_line key val) ≡ (key, val)
unfolding split_line
split_line-field key val ink no_end begins text =
    let line = key ++ b' ' ∷ val in
    let one_line : All (IsOut line_ends) line =
      All-append (IsOut line_ends) key (b' ' ∷ val) no_end (refl, text.one_line) in
    ap (λ l. next_value (drop (strspn l (line_ends ++ blanks)) l))
      (take-strcspn line_ends line (str "\n") one_line refl)
    ∙ ap next_value (drop-strspn (line_ends ++ blanks) [] line tt begins)
    ∙ next_value-words key val ink text.begins

pub conf_lines-append :
    (lnum : ℕ) (xs ys : List CString) (s : Loading)
    → conf_lines lnum (xs ++ ys) s ≡ conf_lines (lnum + length xs) ys (conf_lines lnum xs s)
unfolding conf_lines
conf_lines-append lnum [] ys s = ap (λ n. conf_lines n ys s) (omega arith)
conf_lines-append lnum (x ∷ xs) ys s =
    conf_lines-append (lnum + 1) xs ys (conf_line (lnum + 1) x s)
    ∙ ap (λ n. conf_lines n ys (conf_lines lnum (x ∷ xs) s)) (omega arith)

-- while target `t` is open since line `n`
abbrev pub inside : Loading → ℕ → KlTarget → Loading
inside s n t = record (close_target s) { target = t; topen = n }

-- The lines change the target that is open, and nothing else.
abbrev pub Runs : Loading → ℕ → List CString → KlTarget → KlTarget → Type 0
Runs s n lines t u = (lnum : ℕ) → conf_lines lnum lines (inside s n t) ≡ inside s n u

module _ (s : Loading) (n : ℕ) where
  pub Runs-append :
      (xs ys : List CString) (t u v : KlTarget)
      → Runs s n xs t u
      → Runs s n ys u v
      → Runs s n (xs ++ ys) t v
  Runs-append xs ys t u v h k lnum =
      conf_lines-append lnum xs ys (inside s n t)
      ∙ ap (conf_lines (lnum + length xs) ys) (h lnum)
      ∙ k (lnum + length xs)

  pub Runs-line :
      (line : CString) (t u : KlTarget)
      → ((lnum : ℕ) → conf_line lnum line (inside s n t) ≡ inside s n u)
      → Runs s n (line ∷ []) t u
  unfolding conf_lines
  Runs-line line t u h lnum = h (lnum + 1)

  pub conf_line-directive :
      (lnum c : ℕ) (line key val : CString) (t : Loading)
      → split_line line ≡ (c ∷ key, val)
      → (c == b'#') ≡ false
      → conf_line lnum line t ≡ directive lnum (c ∷ key) val t
  unfolding conf_line
  conf_line-directive lnum c line key val t h e =
      let run : CString × CString → Loading = λ words.
        if head_byte words.0 == b'#' || not (is_set words.0)
        then t
        else directive lnum words.0 words.1 t in
      ap run h ∙ rw e refl

  -- the guards of a directive with a value, inside a target
  pub guards-pass :
      (lnum : ℕ) (name val : CString) (t : KlTarget) (rest : Loading)
      → (n == 0) ≡ false
      → is_set val ≡ true
      → check_topen lnum name (inside s n t) (check_args 1 lnum name val (inside s n t) rest) ≡ rest
  unfolding check_topen check_args has_args
  guards-pass lnum name [] t rest h k = cc
  guards-pass lnum name (c ∷ val) t rest h k = rw h refl

  -- A setting of a string field, by the line of its directive.
  pub Runs-field :
      (c : ℕ) (key val : CString) (f : KlTarget → KlTarget) (t : KlTarget)
      → (c == b'#') ≡ false
      → All (IsOut blanks) (c ∷ key)
      → All (IsOut line_ends) (c ∷ key)
      → IsText val
      → ((lnum : ℕ)
          → directive lnum (c ∷ key) val (inside s n t)
            ≡ check_topen lnum
                (c ∷ key)
                (inside s n t)
                (check_args 1 lnum (c ∷ key) val (inside s n t) (inside s n (f t))))
      → (n == 0) ≡ false
      → Runs s n (field_line (c ∷ key) val ∷ []) t (f t)
  Runs-field c key val f t e ink no_end text d open_n =
      let begins : IsOut (line_ends ++ blanks) c = ground (arith, ink.0, no_end.0) in
      Runs-line _ t (f t) (λ lnum.
        conf_line-directive lnum c (field_line (c ∷ key) val) key val (inside s n t)
          (split_line-field (c ∷ key) val ink no_end begins text) e
        ∙ d lnum
        ∙ guards-pass lnum (c ∷ key) val t (inside s n (f t)) open_n text.set)
