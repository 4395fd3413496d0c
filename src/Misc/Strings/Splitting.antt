-- ===== src/Misc/Strings/Splitting.antt =====
-- What `next_value` and `kl_strins` of src/misc.c do to a string.
use kexec_loader.Base.{
  ℕ, zero, suc, ◌+◌, ◌-◌, ◌≤◌, ◌<◌, true, false, ltb, Bool-cases, [], ◌∷◌, ◌++◌, length,
  length-append, length-take, take, drop, take-append-drop, take_all, All, CString, blanks, byte_in,
  strcspn, strspn, ◌≡◌, refl, ap, sym, ◌∙◌, arith, inl, inr,
}
use kexec_loader.Misc.Strings.{next_value, after_word, kl_strins, insert_front}

abbrev pub IsBlank : ℕ → Type 0
IsBlank c = byte_in c blanks ≡ true

abbrev pub IsInk : ℕ → Type 0
IsInk c = byte_in c blanks ≡ false

-- the string does not begin with a blank
abbrev pub StartsInk : CString → Type 0
StartsInk [] = Unit
StartsInk (c ∷ s) = IsInk c

-- `ptr` is a word, then blanks, then a value; the value follows at least one blank.
pub record Splits (ptr word value : CString) : Type 0 where
  pub gap : CString
  pub joined : ptr ≡ word ++ (gap ++ value)
  pub word_ink : All IsInk word
  pub gap_blank : All IsBlank gap
  pub value_ink : StartsInk value
  pub parted : (gap ≡ []) → value ≡ []

pub take_word-IsInk : (s : CString) → All IsInk (take (strcspn s blanks) s)
take_word-IsInk [] = tt
take_word-IsInk (c ∷ s) = elim (Bool-cases (byte_in c blanks)) [
  | inl b ↦ rw b tt
  | inr i ↦ rw i (i, take_word-IsInk s)
]

take_gap-IsBlank : (s : CString) → All IsBlank (take (strspn s blanks) s)
take_gap-IsBlank [] = tt
take_gap-IsBlank (c ∷ s) = elim (Bool-cases (byte_in c blanks)) [
  | inl b ↦ rw b (b, take_gap-IsBlank s)
  | inr i ↦ rw i tt
]

drop_gap-StartsInk : (s : CString) → StartsInk (drop (strspn s blanks) s)
drop_gap-StartsInk [] = tt
drop_gap-StartsInk (c ∷ s) = elim (Bool-cases (byte_in c blanks)) [
  | inl b ↦ rw b (drop_gap-StartsInk s)
  | inr i ↦ rw i i
]

abbrev StartsBlank : CString → Type 0
StartsBlank [] = Unit
StartsBlank (c ∷ s) = IsBlank c

drop_word-StartsBlank : (s : CString) → StartsBlank (drop (strcspn s blanks) s)
drop_word-StartsBlank [] = tt
drop_word-StartsBlank (c ∷ s) = elim (Bool-cases (byte_in c blanks)) [
  | inl b ↦ rw b b
  | inr i ↦ rw i (drop_word-StartsBlank s)
]

split_rest :
    (ptr word rest : CString)
    → ptr ≡ word ++ rest
    → All IsInk word
    → StartsBlank rest
    → Splits ptr word (after_word rest)
split_rest ptr word [] e h b = record {
  gap = [];
  joined = e;
  word_ink = h;
  gap_blank = tt;
  value_ink = tt;
  parted = λ _. refl;
}
split_rest ptr word (c ∷ rest) e h b = record {
  gap = c ∷ take (strspn rest blanks) rest;
  joined =
      e ∙ ap (λ (t : CString). word ++ c ∷ t) (sym (take-append-drop (strspn rest blanks) rest));
  word_ink = h;
  gap_blank = (b, take_gap-IsBlank rest);
  value_ink = drop_gap-StartsInk rest;
  parted = λ z. cc;
}

-- `next_value` cuts a string at its first run of blanks: what is left at `ptr` is the first word,
-- and what is returned the text behind the blanks.
pub next_value-Splits : (ptr : CString) → Splits ptr (next_value ptr).0 (next_value ptr).1
unfolding next_value
next_value-Splits ptr =
    let n = strcspn ptr blanks in
    split_rest ptr (take n ptr) (drop n ptr) (sym (take-append-drop n ptr)) (take_word-IsInk ptr)
      (drop_word-StartsBlank ptr)

take_past :
    (xs ys : CString) (n : ℕ) → length xs ≤ n → take n (xs ++ ys) ≡ xs ++ take (n - length xs) ys
take_past [] ys n h = let e : n - 0 ≡ n = omega arith in rw e
take_past (x ∷ xs) ys zero h = elim h [ ]
take_past (x ∷ xs) ys (suc n) h =
    let e : suc n - suc (length xs) ≡ n - length xs = omega arith in
    rw e (ap (◌∷◌ x) (take_past xs ys n (omega arith)))

take_within : (xs ys : CString) (n : ℕ) → n ≤ length xs → take n (xs ++ ys) ≡ take n xs
take_within xs ys zero h = refl
take_within [] ys (suc n) h = elim h [ ]
take_within (x ∷ xs) ys (suc n) h = ap (◌∷◌ x) (take_within xs ys n (omega arith))

insert_front-eq-take :
    (dest src : CString) (size : ℕ)
    → 0 < size
    → insert_front dest src size ≡ take (size - 1) (src ++ dest)
unfolding insert_front
insert_front-eq-take dest src size h = elim (Bool-cases (ltb size (length src + 1))) [
  | inl small ↦ rw small (sym (take_within src dest (size - 1) (ground arith)))
  | inr fits ↦ rw fits (elim (Bool-cases (ltb size (length dest + length src + 1))) [
    | inl cut ↦ rw cut (
        let e : size - length src - 1 ≡ size - 1 - length src = omega arith in
        rw e (sym (take_past src dest (size - 1) (ground arith))))
    | inr whole ↦
        rw whole (sym (take_all (size - 1) (src ++ dest) (ground (arith, length-append src dest))))
  ])
]

-- All three branches of `kl_strins` insert `src` at the offset and cut the result to the buffer:
-- the string is that of the insertion, truncated to `size - 1` bytes, and never overruns it.
pub kl_strins-eq-take :
    (dest src : CString) (offset size : ℕ)
    → offset < size
    → offset ≤ length dest
    → ((kl_strins dest src offset size).0
        ≡ take offset dest ++ take (size - offset - 1) (src ++ drop offset dest))
      × (length (kl_strins dest src offset size).0 < size)
unfolding kl_strins
kl_strins-eq-take dest src offset size h k =
    let rest = drop offset dest in
    let n = size - offset - 1 in
    let e = insert_front-eq-take rest src (size - offset) (omega arith) in
    let fits : length (take offset dest ++ take n (src ++ rest)) < size = omega (
      arith,
      length-append (take offset dest) (take n (src ++ rest)),
      length-take offset dest,
      length-take n (src ++ rest),
    ) in
    (ap (◌++◌ (take offset dest)) e, rw e fits)
