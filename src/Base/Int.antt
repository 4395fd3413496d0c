-- ===== src/Base/Int.antt =====
-- The C type `int`, as whole numbers, and `atoi`.
use Prim.Native.Nat.{ℕ, ◌+◌, ◌-◌, ◌*◌, ◌%◌}
use mathlib.Core.Bool.{Bool, ◌&&◌, ◌||◌}
use mathlib.Core.List.{[], ◌∷◌}
use kexec_loader.Base.Bools.{leb, ◌==◌, if◌then◌else◌}
use kexec_loader.Base.Libc.{CString, is_digit}

-- `negsuc n` is -(n + 1).
pub data ℤ : Type 0 where
  pos : ℕ → ℤ
  negsuc : ℕ → ℤ

abbrev pub negate : ℕ → ℤ
negate n = if n == 0 then pos 0 else negsuc (n - 1)

abbrev is_space : ℕ → Bool
is_space c = c == 32 || leb 9 c && leb c 13

-- the digits in front of a string, read on from `acc`
abbrev pub digits_value : ℕ → CString → ℕ
digits_value acc [] = acc
digits_value acc (c ∷ s) = if is_digit c then digits_value (acc * 10 + (c - b'0')) s else acc

abbrev signed_value : CString → ℤ
signed_value [] = pos 0
signed_value (c ∷ s) =
    if c == b'-'
    then negate (digits_value 0 s)
    else if c == b'+'
    then pos (digits_value 0 s)
    else pos (digits_value 0 (c ∷ s))

-- `atoi`, for values in the range of `int`; behind it the C library promises nothing.
abbrev pub atoi : CString → ℤ
atoi [] = pos 0
atoi (c ∷ s) = let rest = atoi s in if is_space c then rest else signed_value (c ∷ s)

-- the conversion to `unsigned char`
abbrev pub to_uchar : ℤ → ℕ
to_uchar (pos n) = n % 256
to_uchar (negsuc n) = 255 - n % 256
