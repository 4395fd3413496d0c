-- ===== src/Tar/Blocks.antt =====
-- The content of a file is read from its blocks of 512 bytes.
use kexec_loader.Tar.{Bytes, read_data}
use kexec_loader.Base.{
  ltb, leb, ◌==◌, Bool-cases, length, take, drop, length-append, length-drop, ℕ, zero, suc, ◌+◌,
  ◌-◌, ◌*◌, ◌≤◌, ◌<◌, min, ◌≡◌, refl, ap, ◌∙◌, inl, inr, false, some, [], ◌∷◌, ◌++◌, append-nil,
  arith,
}

not_short : (n : ℕ) → 512 ≤ n → ltb n 512 ≡ false
not_short n h = ground arith

pub take_front : (n : ℕ) (xs ys : Bytes) → n ≤ length xs → take n (xs ++ ys) ≡ take n xs
take_front zero [] ys h = refl
take_front zero (x ∷ xs) ys h = refl
take_front (suc n) [] ys h = absurd (omega arith)
take_front (suc n) (x ∷ xs) ys h = ap (◌∷◌ x) (take_front n xs ys (omega arith))

pub drop_front : (n : ℕ) (xs ys : Bytes) → n ≤ length xs → drop n (xs ++ ys) ≡ drop n xs ++ ys
drop_front zero [] ys h = refl
drop_front zero (x ∷ xs) ys h = refl
drop_front (suc n) [] ys h = absurd (omega arith)
drop_front (suc n) (x ∷ xs) ys h = drop_front n xs ys (omega arith)

take_empty : (n : ℕ) → take {A = ℕ} n [] ≡ []
take_empty zero = refl
take_empty (suc n) = refl

take_more : (n m k : ℕ) (xs : Bytes) → k ≡ n + m → take n xs ++ take m (drop n xs) ≡ take k xs
take_more zero m k xs h = let same : k ≡ m = omega arith in rw same refl
take_more (suc n) m zero xs h = absurd (omega arith)
take_more (suc n) m (suc k) [] h = take_empty m
take_more (suc n) m (suc k) (x ∷ xs) h = ap (◌∷◌ x) (take_more n m k xs (omega arith))

-- the first block of what is left
first_block :
    (left : ℕ) (xs : Bytes)
    → take (min left 512) xs ++ take (left - 512) (drop 512 xs) ≡ take left xs
first_block left xs = elim (Bool-cases (leb left 512)) [
  | inl e ↦
      let le : left ≤ 512 = ground arith in
      let whole : min left 512 ≡ left = omega arith in
      let over : left - 512 ≡ 0 = omega arith in rw (whole, over) (append-nil (take left xs))
  | inr e ↦
      let lt : 512 < left = ground arith in
      let whole : min left 512 ≡ 512 = omega arith in
      rw whole (take_more 512 (left - 512) left xs (omega arith))
]

-- Whole blocks that hold `left` bytes and no block more are read, and what is behind them is left.
pub read_data-blocks :
    (fuel k left : ℕ) (xs rest : Bytes)
    → length xs ≡ k * 512
    → left ≤ length xs
    → length xs < left + 512
    → left ≤ fuel
    → read_data fuel left (xs ++ rest) ≡ some (take left xs, rest)
unfolding read_data
read_data-blocks zero k left [] rest blocks le lt enough =
    let none_left : left ≡ 0 = omega arith in rw none_left refl
read_data-blocks zero k left (x ∷ xs) rest blocks le lt enough = absurd (omega arith)
read_data-blocks (suc fuel) zero left [] rest blocks le lt enough =
    let none_left : left ≡ 0 = omega arith in rw none_left refl
read_data-blocks (suc fuel) zero left (x ∷ xs) rest blocks le lt enough = absurd (omega arith)
read_data-blocks (suc fuel) (suc k) left xs rest blocks le lt enough =
    let more : (left == 0) ≡ false = ground arith in
    let whole : ltb (length (xs ++ rest)) 512 ≡ false =
      not_short (length (xs ++ rest)) (omega (arith, length-append xs rest)) in
    let later : read_data fuel (left - 512) (drop 512 (xs ++ rest))
        ≡ some (take (left - 512) (drop 512 xs), rest) =
      ap (read_data fuel (left - 512)) (drop_front 512 xs rest (omega arith))
      ∙ read_data-blocks fuel k (left - 512) (drop 512 xs) rest (omega (arith, length-drop 512 xs))
          (omega (arith, length-drop 512 xs)) (omega (arith, length-drop 512 xs)) (omega arith) in
    let front : take (min left 512) (xs ++ rest) ≡ take (min left 512) xs =
      take_front (min left 512) xs rest (omega arith) in
    rw (more, whole, later)
      (ap (λ ys. some (ys ++ take (left - 512) (drop 512 xs), rest)) front
        ∙ ap (λ ys. some (ys, rest)) (first_block left xs))
