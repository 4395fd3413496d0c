-- ===== src/Grub/Device/Printed.antt =====
-- `parse_gdev` reads back every well-formed device name, with and without brackets, and refuses a
-- partition that is named with the `msdos` prefix.
use kexec_loader.Grub.Device.{
  Gdev, last, more, token_end, digit_span, digits_token, msdos, parse_token, gdev, second_token,
  first_token, parse_name, parse_gdev,
}
use kexec_loader.Grub.Device.Names.{IsDigit, IsNumber, IsPart, IsPartOrNone, IsGdev}
use kexec_loader.Base.{
  ◌==◌, length, All, take_all, drop-append, take-append, CString, str, head_byte, is_digit,
  is_lower, ℕ, suc, ◌≡◌, refl, sym, ap, ◌∙◌, ◌⊎◌, inl, inr, Bool, true, false, none, some, [], ◌∷◌,
  ◌++◌, arith,
}

-- A device as GRUB writes it, in front of `tail`.
abbrev pub parts : CString → CString → CString → CString
parts [] p3 tail = tail
parts (c ∷ p2) [] tail = b',' ∷ ((c ∷ p2) ++ tail)
parts (c ∷ p2) (d ∷ p3) tail = b',' ∷ ((c ∷ p2) ++ (b',' ∷ ((d ∷ p3) ++ tail)))

abbrev pub printed : Gdev → CString → CString
printed g tail = g.type ++ (g.p1 ++ parts g.p2 g.p3 tail)

-- the end of a name, in brackets or not
abbrev Ends : Bool → CString → Type 0
Ends false tail = tail ≡ []
Ends true tail = (path : CString) × (tail ≡ b')' ∷ path)

-- no digit goes on here
abbrev Halts : CString → Type 0
Halts [] = Unit
Halts (c ∷ s) = is_digit c ≡ false

Ends-Halts : (brackets : Bool) (tail : CString) → Ends brackets tail → Halts tail
Ends-Halts false tail e = rw e tt
Ends-Halts true tail (path, e) = rw e refl

token_end-Ends :
    (brackets : Bool) (tok tail : CString)
    → Ends brackets tail
    → token_end brackets tok tail ≡ last tok
unfolding token_end
token_end-Ends false tok tail e = rw e refl
token_end-Ends true tok tail (path, e) = rw e refl

token_end-comma :
    (brackets : Bool) (tok tail : CString) → token_end brackets tok (b',' ∷ tail) ≡ more tok tail
unfolding token_end
token_end-comma true tok tail = refl
token_end-comma false tok tail = refl

digit_span-append :
    (t tail : CString) → All IsDigit t → Halts tail → digit_span (t ++ tail) ≡ length t
unfolding digit_span
digit_span-append [] [] h k = refl
digit_span-append [] (c ∷ tail) h k = rw k refl
digit_span-append (c ∷ t) tail h k = rw (h.0) (ap suc (digit_span-append t tail h.1 k))

digits_token-number :
    (brackets : Bool) (t tail : CString)
    → IsNumber t
    → Halts tail
    → digits_token brackets (t ++ tail) ≡ token_end brackets t tail
unfolding digits_token
digits_token-number brackets t tail n k =
    rw (digit_span-append t tail n.digits k)
      (rw (take-append t tail, drop-append t tail, take_all 15 t n.fits) refl)

digit-not_lower : (c : ℕ) → is_digit c ≡ true → is_lower c ≡ false
digit-not_lower c h = ground arith

parse_token-number :
    (brackets first : Bool) (t tail : CString)
    → IsNumber t
    → Halts tail
    → parse_token brackets first (t ++ tail) ≡ token_end brackets t tail
unfolding parse_token
parse_token-number brackets first [] tail n k = absurd (cc n.set)
parse_token-number brackets true (c ∷ t) tail n k =
    rw (n.digits.0) (digits_token-number brackets (c ∷ t) tail n k)
parse_token-number brackets false (c ∷ t) tail n k =
    rw (digit-not_lower c n.digits.0)
      (rw (n.digits.0) (digits_token-number brackets (c ∷ t) tail n k))

parse_token-letter :
    (brackets : Bool) (c : ℕ) (tail : CString)
    → is_lower c ≡ true
    → parse_token brackets false (c ∷ tail) ≡ token_end brackets (c ∷ []) tail
unfolding parse_token
parse_token-letter brackets c tail h = rw h refl

parse_token-part :
    (brackets : Bool) (t tail : CString)
    → IsPart t
    → Halts tail
    → parse_token brackets false (t ++ tail) ≡ token_end brackets t tail
parse_token-part brackets t tail (inl n) k = parse_token-number brackets false t tail n k
parse_token-part brackets t tail (inr (c, l, e)) k = rw e (parse_token-letter brackets c tail l)

as_given : (c : ℕ) (t : CString) → IsPartOrNone (c ∷ t) → IsPart (c ∷ t)
as_given c t (inl e) = absurd (cc e)
as_given c t (inr h) = h

-- The name behind the number of the device.
parts_lem :
    (brackets : Bool) (type p1 p2 p3 tail : CString)
    → IsPartOrNone p2
    → IsPartOrNone p3
    → (p2 ≡ [] → p3 ≡ [])
    → Ends brackets tail
    → first_token brackets type (token_end brackets p1 (parts p2 p3 tail))
      ≡ some (gdev type p1 p2 p3)
parts_lem brackets type p1 [] p3 tail h2 h3 order ends =
    rw (token_end-Ends brackets p1 tail ends) (rw (order refl) refl)
parts_lem brackets type p1 (c ∷ p2) [] tail h2 h3 order ends =
    rw (token_end-comma brackets p1 ((c ∷ p2) ++ tail)) (
      rw
        (parse_token-part brackets (c ∷ p2) tail (as_given c p2 h2) (Ends-Halts brackets tail ends))
        (rw (token_end-Ends brackets (c ∷ p2) tail ends) refl))
parts_lem brackets type p1 (c ∷ p2) (d ∷ p3) tail h2 h3 order ends =
    let rest = b',' ∷ ((d ∷ p3) ++ tail) in
    rw (token_end-comma brackets p1 ((c ∷ p2) ++ rest)) (
      rw (parse_token-part brackets (c ∷ p2) rest (as_given c p2 h2) refl) (
        rw (token_end-comma brackets (c ∷ p2) ((d ∷ p3) ++ tail)) (
          rw
            (parse_token-part brackets (d ∷ p3) tail (as_given d p3 h3)
              (Ends-Halts brackets tail ends))
            (rw (token_end-Ends brackets (d ∷ p3) tail ends) refl))))

parts-Halts : (p2 p3 tail : CString) → Halts tail → Halts (parts p2 p3 tail)
parts-Halts [] p3 tail h = h
parts-Halts (c ∷ p2) [] tail h = refl
parts-Halts (c ∷ p2) (d ∷ p3) tail h = refl

parse_name_type :
    (brackets : Bool) (c : ℕ) (src : CString)
    → (c ≡ b'f') ⊎ (c ≡ b'h')
    → parse_name brackets (c ∷ b'd' ∷ src)
      ≡ first_token brackets (c ∷ b'd' ∷ []) (parse_token brackets true src)
unfolding parse_name
parse_name_type brackets c src (inl e) = rw e refl
parse_name_type brackets c src (inr e) = rw e refl

parse_name-number :
    (brackets : Bool) (c : ℕ) (p1 tail : CString)
    → (c ≡ b'f') ⊎ (c ≡ b'h')
    → IsNumber p1
    → Halts tail
    → parse_name brackets (c ∷ b'd' ∷ (p1 ++ tail))
      ≡ first_token brackets (c ∷ b'd' ∷ []) (token_end brackets p1 tail)
parse_name-number brackets c p1 tail t h k =
    parse_name_type brackets c (p1 ++ tail) t
    ∙ ap (first_token brackets (c ∷ b'd' ∷ [])) (parse_token-number brackets true p1 tail h k)

parse_name-parts :
    (brackets : Bool) (type p1 p2 p3 tail : CString)
    → (type ≡ str "fd") ⊎ (type ≡ str "hd")
    → IsNumber p1
    → IsPartOrNone p2
    → IsPartOrNone p3
    → (p2 ≡ [] → p3 ≡ [])
    → Ends brackets tail
    → parse_name brackets (type ++ (p1 ++ parts p2 p3 tail)) ≡ some (gdev type p1 p2 p3)
parse_name-parts brackets type p1 p2 p3 tail (inl t) h1 h2 h3 order ends = rw t (
    parse_name-number brackets b'f' p1 (parts p2 p3 tail) (inl refl) h1
      (parts-Halts p2 p3 tail (Ends-Halts brackets tail ends))
    ∙ parts_lem brackets (str "fd") p1 p2 p3 tail h2 h3 order ends)
parse_name-parts brackets type p1 p2 p3 tail (inr t) h1 h2 h3 order ends = rw t (
    parse_name-number brackets b'h' p1 (parts p2 p3 tail) (inr refl) h1
      (parts-Halts p2 p3 tail (Ends-Halts brackets tail ends))
    ∙ parts_lem brackets (str "hd") p1 p2 p3 tail h2 h3 order ends)

parse_name-printed :
    (brackets : Bool) (g : Gdev) (tail : CString)
    → IsGdev g
    → Ends brackets tail
    → parse_name brackets (printed g tail) ≡ some g
parse_name-printed brackets g tail h ends =
    parse_name-parts brackets g.type g.p1 g.p2 g.p3 tail h.type_is h.p1_is h.p2_is h.p3_is
      h.in_order ends
    ∙ ap some (λ i. record g { device = sym h.no_device i })

not_open :
    (type s : CString)
    → (type ≡ str "fd") ⊎ (type ≡ str "hd")
    → (head_byte (type ++ s) == b'(') ≡ false
not_open type s (inl e) = rw e refl
not_open type s (inr e) = rw e refl

token_bad :
    (brackets : Bool) (type p1 rest : CString)
    → second_token brackets type p1 (token_end brackets (b'm' ∷ []) (str "sdos" ++ rest)) ≡ none
unfolding token_end
token_bad true type p1 rest = refl
token_bad false type p1 rest = refl

parse_name-msdos :
    (brackets : Bool) (p1 rest : CString)
    → IsNumber p1
    → parse_name brackets (str "hd" ++ (p1 ++ (b',' ∷ (msdos ++ rest)))) ≡ none
parse_name-msdos brackets p1 rest h =
    parse_name-number brackets b'h' p1 (b',' ∷ (msdos ++ rest)) (inr refl) h refl
    ∙ rw (token_end-comma brackets p1 (msdos ++ rest)) (
        rw (parse_token-letter brackets b'm' (str "sdos" ++ rest) refl)
          (token_bad brackets (str "hd") p1 rest))

-- A well-formed device is read back from its name, and from its name in brackets with any path
-- behind it, as it stands in the paths of a GRUB configuration.
pub parse_gdev-printed :
    (g : Gdev) (path : CString)
    → IsGdev g
    → (parse_gdev (printed g []) ≡ some g) × (parse_gdev (b'(' ∷ printed g (b')' ∷ path)) ≡ some g)
unfolding parse_gdev
parse_gdev-printed g path h = (
  rw (not_open g.type (g.p1 ++ parts g.p2 g.p3 []) h.type_is)
      (parse_name-printed false g [] h refl),
  parse_name-printed true g (b')' ∷ path) h (path, refl),
)

-- A partition named with the `msdos` prefix behind the number of its disk is refused, in brackets or
-- not: its first letter is taken for a BSD label.
pub parse_gdev-msdos :
    (p1 rest : CString)
    → IsNumber p1
    → (parse_gdev (str "hd" ++ (p1 ++ (b',' ∷ (msdos ++ rest)))) ≡ none)
      × (parse_gdev (str "(hd" ++ (p1 ++ (b',' ∷ (msdos ++ rest)))) ≡ none)
unfolding parse_gdev
parse_gdev-msdos p1 rest h = (parse_name-msdos false p1 rest h, parse_name-msdos true p1 rest h)
