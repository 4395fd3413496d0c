-- ===== src/Misc/Strings.antt =====
-- The string functions of src/misc.c. Each loop over an index `i` is a recursion on what is left
-- of the two strings at `i`.
pub mod Equality
pub mod Splitting
use kexec_loader.Base.{
  ℕ, zero, suc, ◌+◌, ◌-◌, Bool, true, false, ◌==◌, ltb, if◌then◌else◌, [], ◌∷◌, ◌++◌, length, take,
  drop, CString, blanks, strcspn, strspn, strlcpy, to_lower,
}

-- what `next_value` returns, from the string at the first blank
abbrev pub after_word : CString → CString
after_word [] = []
after_word (c ∷ s) = drop (strspn s blanks) s

-- The string that `ptr` holds when `next_value(ptr)` has cut it, and the value returned.
unfoldable pub next_value : CString → CString × CString
next_value ptr = let n = strcspn ptr blanks in (take n ptr, after_word (drop n ptr))

unfoldable pub kl_strndup : CString → ℕ → CString
kl_strndup [] max = []
kl_strndup (c ∷ src) zero = []
kl_strndup (c ∷ src) (suc max) = c ∷ kl_strndup src max

unfoldable pub kl_streq : CString → CString → Bool
kl_streq [] [] = true
kl_streq (c ∷ s1) (d ∷ s2) = if c == d then kl_streq s1 s2 else false
kl_streq _ _ = false

-- When `max` is reached the bytes there no longer count, whether they are equal or not.
unfoldable pub kl_strneq : CString → CString → ℕ → Bool
kl_strneq s1 s2 zero = true
kl_strneq [] [] (suc max) = true
kl_strneq (c ∷ s1) (d ∷ s2) (suc max) = if c == d then kl_strneq s1 s2 max else false
kl_strneq _ _ (suc max) = false

unfoldable pub kl_strceq : CString → CString → Bool
kl_strceq [] [] = true
kl_strceq (c ∷ s1) (d ∷ s2) = if to_lower c == to_lower d then kl_strceq s1 s2 else false
kl_strceq _ _ = false

unfoldable pub kl_strnceq : CString → CString → ℕ → Bool
kl_strnceq s1 s2 zero = true
kl_strnceq [] [] (suc max) = true
kl_strnceq (c ∷ s1) (d ∷ s2) (suc max) =
    if to_lower c == to_lower d then kl_strnceq s1 s2 max else false
kl_strnceq _ _ (suc max) = false

-- The branches of `kl_strins` on `dest` moved to the offset, with the `size` left there.
unfoldable pub insert_front : CString → CString → ℕ → CString
insert_front dest src size =
    if ltb size (length src + 1)
    then strlcpy src size
    else if ltb size (length dest + length src + 1)
    then src ++ take (size - length src - 1) dest
    else src ++ dest

-- The string in the buffer after `kl_strins(dest, src, offset, size)`, and the value returned.
unfoldable pub kl_strins : CString → CString → ℕ → ℕ → CString × ℕ
unfolding insert_front
kl_strins dest src offset size =
    let rest = drop offset dest in
    (take offset dest ++ insert_front rest src (size - offset), length rest + length src + 1)

unfoldable pub kl_streq_end : CString → CString → Bool
unfolding kl_streq
kl_streq_end s match =
    if ltb (length s) (length match)
    then false
    else kl_streq (drop (length s - length match) s) match

unfoldable pub kl_str_match_len : CString → CString → ℕ
kl_str_match_len (c ∷ s1) (d ∷ s2) = if c == d then suc (kl_str_match_len s1 s2) else 0
kl_str_match_len _ _ = 0
