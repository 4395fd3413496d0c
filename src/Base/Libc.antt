-- ===== src/Base/Libc.antt =====
-- C strings and the functions of libc that the program calls on them.
-- A `char *` is the list of its bytes before the terminating NUL, so the byte at an index is that
-- of the list, and 0 at its end. Advancing a pointer is `drop`; writing a NUL at an index, `take`.
use Prim.Native.Char.{code}
use Prim.Native.Nat.{ℕ, zero, suc, ◌+◌, ◌-◌, ◌/◌, ◌%◌}
use Prim.Native.String.{String}
use mathlib.Core.Bool.{Bool, true, false, ◌&&◌, ◌||◌}
use mathlib.Core.List.{List, [], ◌∷◌, ◌++◌}
use kexec_loader.Base.Bools.{leb, ltb, ◌==◌, if◌then◌else◌}
use kexec_loader.Base.Lists.{take}

abbrev pub CString : Type 0
CString = List ℕ

-- The bytes of a literal; every literal of the development is ASCII.
abbrev pub str : String → CString
str String.[] = []
str (String.◌∷◌ c s) = code c ∷ str s

-- `*s`
abbrev pub head_byte : CString → ℕ
head_byte [] = 0
head_byte (c ∷ s) = c

-- `s[0] != '\0'`
abbrev pub is_set : CString → Bool
is_set [] = false
is_set (c ∷ s) = true

-- `strchr(set, c) != NULL` for a byte that is not NUL
abbrev pub byte_in : ℕ → CString → Bool
byte_in c [] = false
byte_in c (d ∷ set) = c == d || byte_in c set

abbrev pub strcspn : CString → CString → ℕ
strcspn [] set = 0
strcspn (c ∷ s) set = if byte_in c set then 0 else suc (strcspn s set)

abbrev pub strspn : CString → CString → ℕ
strspn [] set = 0
strspn (c ∷ s) set = if byte_in c set then suc (strspn s set) else 0

-- `strlcpy(dest, src, size)`: the string that `dest` holds after it
abbrev pub strlcpy : CString → ℕ → CString
strlcpy src size = take (size - 1) src

-- ctype.h in the C locale
abbrev pub is_digit : ℕ → Bool
is_digit c = leb b'0' c && leb c b'9'

abbrev pub is_lower : ℕ → Bool
is_lower c = leb b'a' c && leb c b'z'

abbrev pub to_lower : ℕ → ℕ
to_lower c = if leb b'A' c && leb c b'Z' then c + 32 else c

-- "\t "
abbrev pub blanks : CString
blanks = 9 ∷ 32 ∷ []

-- "\r\n"
abbrev pub line_ends : CString
line_ends = 13 ∷ 10 ∷ []

-- What a loop `while(fgets(buf, size, fh))` reads from a file: each time up to a newline, which
-- is kept, or to `size - 1` bytes. `room` is what is left of these.
abbrev lines_from : ℕ → ℕ → CString → CString → List CString
lines_from max room [] [] = []
lines_from max room (d ∷ line) [] = (d ∷ line) ∷ []
lines_from max room line (c ∷ s) =
    let full = lines_from max max [] s in
    let more = lines_from max (room - 1) (line ++ c ∷ []) s in
    if c == 10 || leb room 1 then (line ++ c ∷ []) ∷ full else more

abbrev pub fgets_lines : ℕ → CString → List CString
fgets_lines size = lines_from (size - 1) (size - 1) []

-- `strncmp(s, t, n) == 0`
abbrev pub strncmp_eq : CString → CString → ℕ → Bool
strncmp_eq s t zero = true
strncmp_eq [] [] (suc n) = true
strncmp_eq (c ∷ s) (d ∷ t) (suc n) = if c == d then strncmp_eq s t n else false
strncmp_eq _ _ (suc n) = false

-- `%d` of a number that is not negative; the fuel is enough, since each digit takes a tenth.
decimal_from : ℕ → ℕ → CString → CString
decimal_from zero n out = out
decimal_from (suc f) n out =
    let more = decimal_from f (n / 10) ((b'0' + n % 10) ∷ out) in
    if ltb n 10 then (b'0' + n) ∷ out else more

unfoldable pub decimal : ℕ → CString
unfolding decimal_from
decimal n = decimal_from (n + 1) n []
