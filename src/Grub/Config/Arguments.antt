-- ===== src/Grub/Config/Arguments.antt =====
-- The `search` lines of a grub.cfg.
use kexec_loader.Misc.Strings.{kl_streq}
use kexec_loader.Misc.Config.{set_root}
use kexec_loader.Grub.Config.{
  SearchBy, Search, next_arg, by_option, search_args, root_by, end_search, search_line, Grub2,
  unknown, fs_uuid,
}
use kexec_loader.Base.{
  ◌==◌, if◌then◌else◌, Bool-cases, if_split, length, drop, All, length-drop, CString, str,
  head_byte, is_set, byte_in, strcspn, strspn, blanks, strncmp_eq, IsOut, ℕ, zero, suc, ◌+◌, ◌≤◌,
  ◌<◌, ◌≡◌, refl, sym, ap, ◌∙◌, inl, inr, true, false, not, [], ◌∷◌, ◌++◌, arith,
}

-- one word that is no option
pub record IsId (id : CString) : Type 0 where
  pub set : is_set id ≡ true
  pub no_option : (head_byte id == b'-') ≡ false
  pub word : All (IsOut blanks) id

strcspn_all : (s : CString) → All (IsOut blanks) s → strcspn s blanks ≡ length s
strcspn_all [] h = refl
strcspn_all (c ∷ s) (out, h) = rw out (ap suc (strcspn_all s h))

drop-length : (s : CString) → drop (length s) s ≡ []
drop-length [] = refl
drop-length (c ∷ s) = drop-length s

-- the last argument
last_arg :
    (fuel c : ℕ) (id : CString) (by : SearchBy)
    → IsId (c ∷ id)
    → search_args (suc fuel) (c ∷ id) (record { search_by = by; sets_root = true; l_set = false })
      ≡ (c ∷ id, record { search_by = by; sets_root = true; l_set = false })
unfolding search_args next_arg
last_arg fuel c id by h =
    let out = h.word in
    rw (h.no_option)
      (rw (out.0, strcspn_all id out.1) (rw (drop-length id) (rw (h.no_option) refl)))

abbrev no_arg : SearchBy → Search
no_arg by = record { search_by = by; sets_root = false; l_set = false }

set_args :
    (fuel c : ℕ) (id : CString)
    → IsId (c ∷ id)
    → search_args
        (suc (suc (suc (suc fuel))))
        (str "--fs-uuid --set=root " ++ (c ∷ id))
        (no_arg unknown)
      ≡ (c ∷ id, record { search_by = fs_uuid; sets_root = true; l_set = false })
unfolding search_args next_arg
set_args fuel c id h = rw (h.word.0) (last_arg fuel c id fs_uuid h)

-- `search` by UUID, with the variable `root` set to the disk, takes the disk with the UUID.
pub search_line-uuid :
    (c : ℕ) (id : CString) (s : Grub2)
    → IsId (c ∷ id)
    → search_line (str "search") (str "--fs-uuid --set=root " ++ (c ∷ id)) s
      ≡ record s { target = set_root (str "UUID=" ++ (c ∷ id)) s.target }
unfolding search_line root_by kl_streq
search_line-uuid c id s h =
    ap (λ r. end_search r.0 r.1 s)
      (set_args (length (drop 4 (str "--fs-uuid --set=root " ++ (c ∷ id)))) c id h)

words_skipped :
    (c : ℕ) (s : CString)
    → 0 < strcspn (c ∷ s) blanks + strspn (drop (strcspn (c ∷ s) blanks) (c ∷ s)) blanks
words_skipped c s = elim (Bool-cases (byte_in c blanks)) [
  | inl e ↦ rw (e, e) (omega arith)
  | inr e ↦ rw e (omega arith)
]

next_arg_less : (c : ℕ) (s : CString) → length (next_arg (c ∷ s)).1 < length (c ∷ s)
unfolding next_arg
next_arg_less c s =
    let args = c ∷ s in
    let n = strcspn args blanks in
    if_split (λ (p : ℕ × CString). length p.1 < length args) (strncmp_eq args (str "--set=") 6) _ _
      (λ _. omega (arith, length-drop 6 args))
      (λ _. omega (
        arith,
        length-drop n args,
        length-drop (strspn (drop n args) blanks) (drop n args),
        words_skipped c s,
      ))

search_no_args : (fuel : ℕ) (s : Search) → search_args fuel [] s ≡ ([], s)
unfolding search_args
search_no_args zero s = refl
search_no_args (suc fuel) s = refl

-- The length of the arguments is fuel enough: more of it gives the same.
search_args-fuel :
    (fuel more : ℕ) (args : CString) (s : Search)
    → length args ≤ fuel
    → length args ≤ more
    → search_args fuel args s ≡ search_args more args s
unfolding search_args
search_args-fuel fuel more [] s h k = search_no_args fuel s ∙ sym (search_no_args more s)
search_args-fuel zero more (c ∷ args) s h k = absurd (omega arith)
search_args-fuel (suc fuel) zero (c ∷ args) s h k = absurd (omega arith)
search_args-fuel (suc fuel) (suc more) (c ∷ args) s h k =
    let next = next_arg (c ∷ args) in
    let is_last = not (is_set next.1) in
    let after = by_option next.0 is_last (c ∷ args) s in
    ap (λ later. if is_last then (c ∷ args, after) else later)
      (search_args-fuel fuel more next.1 after (omega (arith, next_arg_less c args))
        (omega (arith, next_arg_less c args)))
