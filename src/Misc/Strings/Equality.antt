-- ===== src/Misc/Strings/Equality.antt =====
-- What the comparisons of src/misc.c decide.
use kexec_loader.Base.{
  ℕ, zero, suc, ◌-◌, ◌≤◌, true, [], ◌∷◌, ◌++◌, map, length, length-append, drop-append, take, drop,
  take-append-drop, CString, to_lower, ◌≡◌, ◌≢◌, ◌↔◌, refl, ap, sym, ◌∙◌, arith, get_elem?, ◌⊎◌,
  inr,
}
use kexec_loader.Misc.Strings.{
  kl_streq, kl_strneq, kl_strceq, kl_strnceq, kl_streq_end, kl_str_match_len, kl_strndup,
}

-- `kl_streq` answers 1 exactly on equal strings.
pub kl_streq_iff : (s1 s2 : CString) → (kl_streq s1 s2 ≡ true) ↔ (s1 ≡ s2)
unfolding kl_streq
kl_streq_iff (c ∷ s1) (d ∷ s2) = ground (arith, kl_streq_iff s1 s2)
kl_streq_iff _ _ = ground arith

pub kl_streq_refl : (s : CString) → kl_streq s s ≡ true
kl_streq_refl s = (kl_streq_iff s s).1 refl

-- `kl_strneq` answers 1 exactly if the strings agree in their first `max` bytes.
pub kl_strneq_iff :
    (s1 s2 : CString) (max : ℕ) → (kl_strneq s1 s2 max ≡ true) ↔ (take max s1 ≡ take max s2)
unfolding kl_strneq
kl_strneq_iff s1 s2 zero = ground arith
kl_strneq_iff (c ∷ s1) (d ∷ s2) (suc max) = ground (arith, kl_strneq_iff s1 s2 max)
kl_strneq_iff [] [] (suc max) = ground arith
kl_strneq_iff [] (d ∷ s2) (suc max) = ground arith
kl_strneq_iff (c ∷ s1) [] (suc max) = ground arith

-- `kl_strceq` answers 1 exactly on strings that are equal in lower case.
pub kl_strceq_iff :
    (s1 s2 : CString) → (kl_strceq s1 s2 ≡ true) ↔ (map to_lower s1 ≡ map to_lower s2)
unfolding kl_strceq
kl_strceq_iff [] [] = ground arith
kl_strceq_iff (c ∷ s1) (d ∷ s2) = ground (arith, kl_strceq_iff s1 s2)
kl_strceq_iff [] (d ∷ s2) = ground arith
kl_strceq_iff (c ∷ s1) [] = ground arith

-- `kl_strnceq` answers 1 exactly if the first `max` bytes agree in lower case.
pub kl_strnceq_iff :
    (s1 s2 : CString) (max : ℕ)
    → (kl_strnceq s1 s2 max ≡ true) ↔ (map to_lower (take max s1) ≡ map to_lower (take max s2))
unfolding kl_strnceq
kl_strnceq_iff s1 s2 zero = ground arith
kl_strnceq_iff [] [] (suc max) = ground arith
kl_strnceq_iff (c ∷ s1) (d ∷ s2) (suc max) = ground (arith, kl_strnceq_iff s1 s2 max)
kl_strnceq_iff [] (d ∷ s2) (suc max) = ground arith
kl_strnceq_iff (c ∷ s1) [] (suc max) = ground arith

drop_suffix :
    (s match : CString)
    → drop (length s - length match) s ≡ match
    → (p : CString) × (s ≡ p ++ match)
drop_suffix s match e =
    let n = length s - length match in
    (take n s, sym (take-append-drop n s) ∙ ap (◌++◌ (take n s)) e)

drop-append_sub :
    (p match : CString) → drop (length (p ++ match) - length match) (p ++ match) ≡ match
drop-append_sub p match =
    let e : length (p ++ match) - length match ≡ length p = omega (arith, length-append p match) in
    rw e (drop-append p match)

kl_streq_end-append : (p match : CString) → kl_streq_end (p ++ match) match ≡ true
unfolding kl_streq_end
kl_streq_end-append p match =
    rw drop-append_sub (ground (arith, length-append p match, kl_streq_refl match))

-- `kl_streq_end` answers 1 exactly if the string ends in `match`.
pub kl_streq_end_iff :
    (s match : CString) → (kl_streq_end s match ≡ true) ↔ ((p : CString) × (s ≡ p ++ match))
unfolding kl_streq_end
kl_streq_end_iff s match = (
  λ h. drop_suffix s match (ground (arith, kl_streq_iff (drop (length s - length match) s) match)),
  λ (p, e). rw e (unfold kl_streq_end in kl_streq_end-append p match),
)

-- `kl_strndup` copies the first `max` bytes.
pub kl_strndup-eq-take : (src : CString) (max : ℕ) → kl_strndup src max ≡ take max src
unfolding kl_strndup
kl_strndup-eq-take [] zero = refl
kl_strndup-eq-take [] (suc max) = refl
kl_strndup-eq-take (c ∷ src) zero = refl
kl_strndup-eq-take (c ∷ src) (suc max) = ap (◌∷◌ c) (kl_strndup-eq-take src max)

-- `kl_str_match_len` is the length of the longest common prefix: the strings agree up to there,
-- and from there on they differ at once unless both have ended.
pub kl_str_match_len_lem :
    (s1 s2 : CString)
    → (take (kl_str_match_len s1 s2) s1 ≡ take (kl_str_match_len s1 s2) s2)
      × ((get_elem? s1 (kl_str_match_len s1 s2) ≢ get_elem? s2 (kl_str_match_len s1 s2))
          ⊎ (s1 ≡ s2))
      × (kl_str_match_len s1 s2 ≤ length s1)
      × (kl_str_match_len s1 s2 ≤ length s2)
unfolding kl_str_match_len
kl_str_match_len_lem [] [] = (refl, inr refl, omega arith, omega arith)
kl_str_match_len_lem (c ∷ s1) (d ∷ s2) = ground (arith, kl_str_match_len_lem s1 s2)
kl_str_match_len_lem [] (d ∷ s2) = ground arith
kl_str_match_len_lem (c ∷ s1) [] = ground arith
