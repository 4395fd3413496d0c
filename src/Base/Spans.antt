-- ===== src/Base/Spans.antt =====
-- `strspn` and `strcspn` on a string that is written in two parts.
use Prim.Native.Nat.{ℕ}
use mathlib.Core.Path.{◌≡◌, refl, ap}
use mathlib.Core.Bool.{true, false}
use mathlib.Core.List.{[], ◌∷◌, ◌++◌}
use kexec_loader.Base.Lists.{take, drop, All}
use kexec_loader.Base.Libc.{CString, byte_in, strspn, strcspn}

abbrev pub IsIn : CString → ℕ → Type 0
IsIn set c = byte_in c set ≡ true

abbrev pub IsOut : CString → ℕ → Type 0
IsOut set c = byte_in c set ≡ false

-- The string is empty or begins with a byte of the set, or with one that is not in it.
abbrev pub BeginsIn : CString → CString → Type 0
BeginsIn set [] = Unit
BeginsIn set (c ∷ s) = IsIn set c

abbrev pub BeginsOut : CString → CString → Type 0
BeginsOut set [] = Unit
BeginsOut set (c ∷ s) = IsOut set c

module _ (set : CString) where
  pub drop-strspn :
      (xs ys : CString)
      → All (IsIn set) xs
      → BeginsOut set ys
      → drop (strspn (xs ++ ys) set) (xs ++ ys) ≡ ys
  drop-strspn [] [] h k = refl
  drop-strspn [] (y ∷ ys) h k = rw k refl
  drop-strspn (x ∷ xs) ys h k = rw (h.0) (drop-strspn xs ys h.1 k)

  pub take-strcspn :
      (xs ys : CString)
      → All (IsOut set) xs
      → BeginsIn set ys
      → take (strcspn (xs ++ ys) set) (xs ++ ys) ≡ xs
  take-strcspn [] [] h k = refl
  take-strcspn [] (y ∷ ys) h k = rw k refl
  take-strcspn (x ∷ xs) ys h k = rw (h.0) (ap (◌∷◌ x) (take-strcspn xs ys h.1 k))

  pub drop-strcspn :
      (xs ys : CString)
      → All (IsOut set) xs
      → BeginsIn set ys
      → drop (strcspn (xs ++ ys) set) (xs ++ ys) ≡ ys
  drop-strcspn [] [] h k = refl
  drop-strcspn [] (y ∷ ys) h k = rw k refl
  drop-strcspn (x ∷ xs) ys h k = rw (h.0) (drop-strcspn xs ys h.1 k)
