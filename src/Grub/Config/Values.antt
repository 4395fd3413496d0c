-- ===== src/Grub/Config/Values.antt =====
-- How the words of a grub.cfg are read.
use kexec_loader.Misc.Strings.{next_value}
use kexec_loader.Misc.Config.Block.{field_line}
use kexec_loader.Misc.Config.Runs.{next_value-words}
use kexec_loader.Grub.Config.{
  split_command, separators, up_to_quote, skip_separators, is_quote, grub2_val,
}
use kexec_loader.Base.{
  ◌==◌, ==-refl, and_true, ◌>>=◌, take, All, All-append, CString, str, head_byte, is_set, byte_in,
  strcspn, blanks, line_ends, IsIn, IsOut, BeginsIn, BeginsOut, drop-strspn, take-strcspn,
  drop-strcspn, ℕ, ◌≡◌, refl, ap, ap₂, ◌∙◌, Bool, true, false, not, ◌&&◌, some, [], ◌∷◌, ◌++◌,
  arith,
}

up_to_quote-value :
    (quote : ℕ) (val rest : CString)
    → All (λ c. (c == quote) ≡ false) val
    → up_to_quote quote (val ++ quote ∷ rest) ≡ some (val, quote ∷ rest)
unfolding up_to_quote
up_to_quote-value quote [] rest h = rw (==-refl quote) refl
up_to_quote-value quote (c ∷ val) rest (off, h) =
    rw off (ap (λ o. o >>= λ (v, r). some (c ∷ v, r)) (up_to_quote-value quote val rest h))

-- A value in quotes is read up to the quote, with the text behind it and the separators.
pub grub2_val-quoted :
    (quote : ℕ) (val gap rest : CString)
    → is_quote quote ≡ true
    → All (λ c. (c == quote) ≡ false) val
    → All (IsIn separators) gap
    → BeginsOut separators rest
    → grub2_val (quote ∷ (val ++ quote ∷ (gap ++ rest))) ≡ some (val, rest)
unfolding grub2_val
grub2_val-quoted quote val gap rest q h k begins =
    rw (q, up_to_quote-value quote val (gap ++ rest) h)
      (ap (λ r. some (val, r)) (drop-strspn separators gap rest k begins))

-- A value with no quotes, and with a separator behind it or at the end.
pub record IsBare (val : CString) : Type 0 where
  pub set : is_set val ≡ true
  pub unquoted : is_quote (head_byte val) ≡ false
  pub word : All (IsOut separators) val

pub grub2_val-bare :
    (val rest : CString)
    → IsBare val
    → BeginsIn separators rest
    → grub2_val (val ++ rest) ≡ some (val, skip_separators rest)
unfolding grub2_val
grub2_val-bare [] rest h k = absurd (cc (h.set))
grub2_val-bare (c ∷ val) rest h k = rw (h.unquoted) (
    ap₂ (λ v r. some (v, skip_separators r)) (take-strcspn separators (c ∷ val) rest h.word k)
      (drop-strcspn separators (c ∷ val) rest h.word k))

abbrev pub white : CString
white = line_ends ++ blanks

-- a word with no blanks and no line ends, as a test
abbrev pub is_word : CString → Bool
is_word [] = true
is_word (c ∷ s) = not (byte_in c white) && is_word s

out_of_white :
    (c : ℕ) → not (byte_in c white) ≡ true → IsOut blanks c × IsOut line_ends c × IsOut white c
out_of_white c h = (ground arith, ground arith, ground arith)

pub word-All : (s : CString) → is_word s ≡ true → All (IsOut blanks) s × All (IsOut line_ends) s
word-All [] h = (tt, tt)
word-All (c ∷ s) h =
    let (e, k) = and_true (not (byte_in c white)) (is_word s) h in
    let (ink, text, w) = out_of_white c e in
    let (inks, texts) = word-All s k in ((ink, inks), (text, texts))

-- An indented line is cut into its command and its arguments.
pub split_command-field :
    (indent : CString) (c : ℕ) (cmd args : CString)
    → All (IsIn white) indent
    → is_word (c ∷ cmd) ≡ true
    → BeginsOut blanks args
    → All (IsOut line_ends) args
    → split_command (indent ++ field_line (c ∷ cmd) args) ≡ (c ∷ cmd, args)
unfolding split_command
split_command-field indent c cmd args h word text one_line =
    let line = (c ∷ cmd) ++ b' ' ∷ args in
    let (ink, no_end) = word-All (c ∷ cmd) word in
    let begins : IsOut white c =
      (out_of_white c (and_true (not (byte_in c white)) (is_word cmd) word).0).2 in
    let no_ends : All (IsOut line_ends) line =
      All-append (IsOut line_ends) (c ∷ cmd) (b' ' ∷ args) no_end (refl, one_line) in
    ap (λ l. next_value (take (strcspn l line_ends) l))
      (drop-strspn white indent (field_line (c ∷ cmd) args) h begins)
    ∙ ap next_value (take-strcspn line_ends line (str "\n") no_ends refl)
    ∙ next_value-words (c ∷ cmd) args ink text
