-- ===== src/Glob/Relation.antt =====
-- What it means for a string to match an expression, with no search order in it.
use kexec_loader.Glob.{Flags, byte_matches, is_star, star_head}
use kexec_loader.Base.{
  length, drop, All, CString, ℕ, zero, suc, ◌≤◌, ◌≡◌, sym, ◌∙◌, ◌⊎◌, inl, inr, true, false, [], ◌∷◌,
  arith,
}

-- The meaning of a glob expression.
pub data Glob (fl : Flags) : CString → CString → Type 0 where
  done : Glob fl [] []
  byte :
      {c d : ℕ} {e s : CString}
      → is_star fl d ≡ false
      → byte_matches fl c d ≡ true
      → Glob fl e s
      → Glob fl (d ∷ e) (c ∷ s)
  leave : {d : ℕ} {e s : CString} → is_star fl d ≡ true → Glob fl e s → Glob fl (d ∷ e) s
  take_byte :
      {c d : ℕ} {e s : CString} → is_star fl d ≡ true → Glob fl (d ∷ e) s → Glob fl (d ∷ e) (c ∷ s)

-- The string matches what stands in front of one of the stars, and is used up where that star is
-- reached; the stars in front of that one take any text, the last of a run of stars for all of it.
pub data Early (fl : Flags) : CString → CString → Type 0 where
  used_up : {d : ℕ} {e : CString} → is_star fl d ≡ true → Early fl (d ∷ e) []
  early_byte :
      {c d : ℕ} {e s : CString}
      → is_star fl d ≡ false
      → byte_matches fl c d ≡ true
      → Early fl e s
      → Early fl (d ∷ e) (c ∷ s)
  early_leave : {d : ℕ} {e s : CString} → is_star fl d ≡ true → Early fl e s → Early fl (d ∷ e) s
  early_take :
      {d : ℕ} {e s : CString} (k : ℕ)
      → is_star fl d ≡ true
      → star_head fl e ≡ false
      → Early fl e (drop k s)
      → Early fl (d ∷ e) s

abbrev pub GlobOrEarly : Flags → CString → CString → Type 0
GlobOrEarly fl e s = Glob fl e s ⊎ Early fl e s

module _ {fl : Flags} where
  -- A star takes any text in front of what it matches.
  pub absorb :
      (d : ℕ) (e s : CString) (m : ℕ)
      → is_star fl d ≡ true
      → Glob fl (d ∷ e) (drop m s)
      → Glob fl (d ∷ e) s
  absorb d e s zero h x = x
  absorb d e [] (suc m) h x = x
  absorb d e (c ∷ s) (suc m) h x = take_byte h (absorb d e s m h x)

  pub either_byte :
      {c d : ℕ} {e s : CString}
      → is_star fl d ≡ false
      → byte_matches fl c d ≡ true
      → GlobOrEarly fl e s
      → GlobOrEarly fl (d ∷ e) (c ∷ s)
  either_byte n b (inl x) = inl (byte n b x)
  either_byte n b (inr x) = inr (early_byte n b x)

  pub either_leave :
      {d : ℕ} {e s : CString} → is_star fl d ≡ true → GlobOrEarly fl e s → GlobOrEarly fl (d ∷ e) s
  either_leave st (inl x) = inl (leave st x)
  either_leave st (inr x) = inr (early_leave st x)

  pub either_take :
      (d : ℕ) (e s : CString) (k : ℕ)
      → is_star fl d ≡ true
      → star_head fl e ≡ false
      → GlobOrEarly fl e (drop k s)
      → GlobOrEarly fl (d ∷ e) s
  either_take d e s k st ns (inl x) = inl (absorb d e s k st (leave st x))
  either_take d e s k st ns (inr x) = inr (early_take k st ns x)

-- With no star there is no star to stop at.
pub no_star-Early :
    {fl : Flags} {e s : CString} → All (λ d. is_star fl d ≡ false) e → ¬ Early fl e s
no_star-Early h (used_up st) = absurd (cc (sym st ∙ h.0))
no_star-Early h (early_byte n b x) = no_star-Early h.1 x
no_star-Early h (early_leave st x) = absurd (cc (sym st ∙ h.0))
no_star-Early h (early_take k st ns x) = absurd (cc (sym st ∙ h.0))

-- What a star matches, the rest of the expression goes on behind.
pub star_inv :
    {fl : Flags} {d : ℕ} {e : CString} (s : CString)
    → is_star fl d ≡ true
    → Glob fl (d ∷ e) s
    → (k : ℕ) × (k ≤ length s) × Glob fl e (drop k s)
star_inv s h (byte n b x) = cc
star_inv s h (leave _ x) = (0, omega arith, x)
star_inv (c ∷ s) h (take_byte _ x) = let (k, le, y) = star_inv s h x in (suc k, omega arith, y)

pub byte_inv :
    {fl : Flags} {c d : ℕ} {e s : CString}
    → is_star fl d ≡ false
    → Glob fl (d ∷ e) (c ∷ s)
    → (byte_matches fl c d ≡ true) × Glob fl e s
byte_inv h (byte n b x) = (b, x)
byte_inv h (leave st x) = cc
byte_inv h (take_byte st x) = cc

pub end_inv : {fl : Flags} {d : ℕ} {e : CString} → is_star fl d ≡ false → ¬ Glob fl (d ∷ e) []
end_inv h (leave st x) = cc

pub star_end :
    {fl : Flags} {d : ℕ} {e : CString} → is_star fl d ≡ true → Glob fl (d ∷ e) [] → Glob fl e []
star_end h (leave _ x) = x

pub star_step :
    {fl : Flags} {d c : ℕ} {e s : CString}
    → is_star fl d ≡ true
    → Glob fl (d ∷ e) (c ∷ s)
    → ¬ Glob fl e (c ∷ s)
    → Glob fl (d ∷ e) s
star_step h (byte n b x) no_match = cc
star_step h (leave _ x) no_match = absurd (no_match x)
star_step h (take_byte _ x) no_match = x
