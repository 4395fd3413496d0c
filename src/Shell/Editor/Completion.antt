-- ===== src/Shell/Editor/Completion.antt =====
-- What a completion adds is the longest text that all its entries begin with.
use kexec_loader.Misc.Strings.{kl_str_match_len}
use kexec_loader.Misc.Strings.Equality.{kl_str_match_len_lem}
use kexec_loader.Shell.Editor.{match_chars, app_chars, ac_text}
use kexec_loader.Base.{
  ◌==◌, ==_iff, length, take, All, length-take, take_all, All-map, CString, ℕ, zero, suc, ◌≤◌, min,
  ◌≡◌, refl, sym, ap, ◌∙◌, true, List, [], ◌∷◌, arith,
}

-- The string begins with the text.
abbrev pub StartsWith : CString → CString → Type 0
StartsWith s t = take (length s) t ≡ s

abbrev pub IsCommonPrefix : CString → List CString → Type 0
IsCommonPrefix s list = All (StartsWith s) list

take-take : (m n : ℕ) (s : CString) → m ≤ n → take m (take n s) ≡ take m s
take-take zero n s h = refl
take-take (suc m) zero s h = absurd (omega arith)
take-take (suc m) (suc n) [] h = refl
take-take (suc m) (suc n) (c ∷ s) h = ap (◌∷◌ c) (take-take m n s (omega arith))

-- Two strings that agree in `n` bytes agree in fewer.
agree_less : (m n : ℕ) (s t : CString) → m ≤ n → take n s ≡ take n t → take m s ≡ take m t
agree_less m n s t h e = sym (take-take m n s h) ∙ ap (take m) e ∙ take-take m n t h

-- How many bytes neighbours share is a bound for all, and all share that many.
match_chars-agree :
    (x y : CString) (list : List CString)
    → All (λ z. take (match_chars x y list) z ≡ take (match_chars x y list) x) (y ∷ list)
unfolding match_chars
match_chars-agree x y [] = (sym (kl_str_match_len_lem x y).0, tt)
match_chars-agree x y (z ∷ list) =
    let n = min (kl_str_match_len x y) (match_chars y z list) in
    let first : take n y ≡ take n x =
      agree_less n (kl_str_match_len x y) y x (omega arith) (sym (kl_str_match_len_lem x y).0) in
    (
      first,
      All-map _ _ (z ∷ list)
          (λ w e. agree_less n (match_chars y z list) w y (omega arith) e ∙ first)
          (match_chars-agree y z list),
    )

cons_same : {c d : ℕ} {s t : CString} → c ∷ s ≡ d ∷ t → (c ≡ d) × (s ≡ t)
cons_same h = (cc h, cc h)

match_len_most :
    (s x y : CString) → StartsWith s x → StartsWith s y → length s ≤ kl_str_match_len x y
unfolding kl_str_match_len
match_len_most [] x y h k = omega arith
match_len_most (c ∷ s) [] y h k = absurd (cc h)
match_len_most (c ∷ s) (d ∷ x) [] h k = absurd (cc k)
match_len_most (c ∷ s) (d ∷ x) (e ∷ y) h k =
    let (hd, tl) = cons_same h in
    let (hd', tl') = cons_same k in
    let same : (d == e) ≡ true = (==_iff d e).1 (hd ∙ sym hd') in
    rw same (omega (arith, match_len_most s x y tl tl'))

match_chars-most :
    (s x y : CString) (list : List CString)
    → IsCommonPrefix s (x ∷ y ∷ list)
    → length s ≤ match_chars x y list
unfolding match_chars
match_chars-most s x y [] (h, (k, _)) = match_len_most s x y h k
match_chars-most s x y (z ∷ list) (h, (k, rest)) =
    omega (arith, match_len_most s x y h k, match_chars-most s y z list (k, rest))

pub match_chars_le : (x y : CString) (list : List CString) → match_chars x y list ≤ length x
unfolding match_chars
match_chars_le x y [] = (kl_str_match_len_lem x y).2
match_chars_le x y (z ∷ list) = omega (arith, (kl_str_match_len_lem x y).2)

-- The text that a completion adds is a beginning of all entries of the list, and the longest: it is
-- no shorter than any text `s` that all of them begin with.
pub ac_text-longest :
    (x : CString) (list : List CString) (s : CString)
    → IsCommonPrefix s (x ∷ list)
    → IsCommonPrefix (ac_text (x ∷ list)) (x ∷ list) × (length s ≤ length (ac_text (x ∷ list)))
unfolding ac_text app_chars
ac_text-longest x [] s (h, _) =
    let whole : take (length x) x ≡ x = take_all (length x) x (omega arith) in
    rw whole ((whole, tt), omega (arith, ap length h, length-take (length s) x))
ac_text-longest x (y ∷ list) s h =
    let n = match_chars x y list in
    let len : length (take n x) ≡ n = omega (arith, length-take n x, match_chars_le x y list) in
    (
      All-map _ _ (x ∷ y ∷ list) (λ w e. ap (λ m. take m w) len ∙ e)
          (refl, match_chars-agree x y list),
      omega (arith, len, match_chars-most s x y list h),
    )
