-- ===== src/Glob/Decides.antt =====
-- `globcmp` returns for every string and expression, accepts all that the expression means, and
-- beyond that only strings that are used up where a star is reached.
use kexec_loader.Glob.{
  Flags, byte_matches, mycmp, stars, is_star, star_head, Round, star_round, byte_round, glob_round,
  glob_loop, globcmp, answer, again,
}
use kexec_loader.Glob.Relation.{
  Glob, Early, GlobOrEarly, no_star-Early, byte_inv, end_inv, either_byte, done,
}
use kexec_loader.Glob.Rounds.{
  Sound, Complete, Shorter, head-not_star, star_round-Sound, star_round-Complete,
  star_round-Shorter, skip_stars, unskip_stars,
}
use kexec_loader.Base.{
  ◌==◌, Bool-cases, length, drop, All, length-drop, CString, strspn, ℕ, zero, suc, ◌+◌, ◌<◌, ◌≡◌,
  refl, sym, ap, ◌∙◌, ◌↔◌, ◌⊎◌, inl, inr, Bool, true, false, some, [], ◌∷◌, ◌++◌, arith,
}

byte_round-Sound :
    (fl : Flags) (e s : CString) → star_head fl e ≡ false → Sound fl e s (byte_round fl s e)
unfolding byte_round mycmp
byte_round-Sound fl [] [] ns = λ _. inl done
byte_round-Sound fl [] (c ∷ s) ns = λ x. cc
byte_round-Sound fl (d ∷ e) [] ns = λ x. cc
byte_round-Sound fl (d ∷ e) (c ∷ s) ns = elim (Bool-cases (byte_matches fl c d)) [
  | inl b ↦ rw b (either_byte ns b)
  | inr b ↦ rw b (λ x. cc)
]

byte_round-Complete :
    (fl : Flags) (e s : CString)
    → star_head fl e ≡ false
    → Glob fl e s
    → Complete fl (byte_round fl s e)
unfolding byte_round mycmp
byte_round-Complete fl [] [] ns m = refl
byte_round-Complete fl [] (c ∷ s) ns m = elim m [ ]
byte_round-Complete fl (d ∷ e) [] ns m = absurd (end_inv ns m)
byte_round-Complete fl (d ∷ e) (c ∷ s) ns m = let (b, m') = byte_inv ns m in rw b m'

byte_round-Shorter : (fl : Flags) (s e : CString) → Shorter (length e) (byte_round fl s e)
unfolding byte_round mycmp
byte_round-Shorter fl [] [] = tt
byte_round-Shorter fl (c ∷ s) [] = tt
byte_round-Shorter fl [] (d ∷ e) = tt
byte_round-Shorter fl (c ∷ s) (d ∷ e) = elim (Bool-cases (byte_matches fl c d)) [
  | inl b ↦ rw b (omega arith)
  | inr b ↦ rw b tt
]

Sound-map :
    (fl : Flags) (e e' s : CString) (r : Round)
    → (GlobOrEarly fl e s → GlobOrEarly fl e' s)
    → Sound fl e s r
    → Sound fl e' s r
Sound-map fl e e' s (answer b) f h = λ x. f (h x)
Sound-map fl e e' s (again t u) f h = λ x. f (h x)

star_byte : (fl : Flags) (d : ℕ) → is_star fl d ≡ true → (d == b'*') ≡ true
star_byte fl d st = ground arith

star_flag : (fl : Flags) (d : ℕ) → is_star fl d ≡ true → is_star fl b'*' ≡ true
star_flag fl d st = ground arith

glob_round-Sound : (fl : Flags) (e s : CString) → Sound fl e s (glob_round fl s e)
unfolding glob_round
glob_round-Sound fl [] s = byte_round-Sound fl [] s refl
glob_round-Sound fl (d ∷ e) s = elim (Bool-cases (is_star fl d)) [
  | inl st ↦ rw st (
      rw (star_byte fl d st) (
        Sound-map fl _ (d ∷ e) s _ (unskip_stars fl d st e s)
          (star_round-Sound fl d (drop (strspn e stars) e) s st (head-not_star fl e))))
  | inr ns ↦ rw ns (byte_round-Sound fl (d ∷ e) s ns)
]

glob_round-Complete : (fl : Flags) (e s : CString) → Glob fl e s → Complete fl (glob_round fl s e)
unfolding glob_round
glob_round-Complete fl [] s m = byte_round-Complete fl [] s refl m
glob_round-Complete fl (d ∷ e) s m = elim (Bool-cases (is_star fl d)) [
  | inl st ↦ rw st (
      rw (star_byte fl d st) (
        star_round-Complete fl d (drop (strspn e stars) e) s st (star_flag fl d st)
          (head-not_star fl e) (skip_stars fl d st e s m)))
  | inr ns ↦ rw ns (byte_round-Complete fl (d ∷ e) s ns m)
]

glob_round-Shorter : (fl : Flags) (s e : CString) → Shorter (length e) (glob_round fl s e)
unfolding glob_round
glob_round-Shorter fl s [] = byte_round-Shorter fl s []
glob_round-Shorter fl s (d ∷ e) = elim (Bool-cases (is_star fl d)) [
  | inl st ↦ rw st (
      rw (star_byte fl d st) (
        star_round-Shorter fl s (drop (strspn e stars) e) (length (d ∷ e))
          (omega (arith, length-drop (strspn e stars) e))))
  | inr ns ↦ rw ns (byte_round-Shorter fl s (d ∷ e))
]

loop_answer :
    (f : ℕ) (fl : Flags) (s e : CString) (b : Bool)
    → glob_round fl s e ≡ answer b
    → glob_loop (suc f) fl s e ≡ some b
unfolding glob_loop
loop_answer f fl s e b h = rw (h, glob_loop)

loop_again :
    (f : ℕ) (fl : Flags) (s e s' e' : CString)
    → glob_round fl s e ≡ again s' e'
    → glob_loop (suc f) fl s e ≡ glob_loop f fl s' e'
unfolding glob_loop
loop_again f fl s e s' e' h = rw (h, glob_loop)

-- To split on a round.
Round-cases : (r : Round) → ((b : Bool) × (r ≡ answer b)) ⊎ ((s e : CString) × (r ≡ again s e))
Round-cases (answer b) = inl (b, refl)
Round-cases (again s e) = inr (s, e, refl)

loop_total :
    (f : ℕ) (fl : Flags) (s e : CString) → length e < f → (b : Bool) × (glob_loop f fl s e ≡ some b)
loop_total zero fl s e h = elim h [ ]
loop_total (suc f) fl s e h = elim (Round-cases (glob_round fl s e)) [
  | inl (b, r) ↦ (b, loop_answer f fl s e b r)
  | inr (s', e', r) ↦
      let shorter : length e' < length e = rw r at (glob_round-Shorter fl s e) in
      let (b, k) = loop_total f fl s' e' (omega arith) in (b, loop_again f fl s e s' e' r ∙ k)
]

loop_sound :
    (f : ℕ) (fl : Flags) (s e : CString) → glob_loop f fl s e ≡ some true → GlobOrEarly fl e s
loop_sound zero fl s e h = unfold glob_loop in cc
loop_sound (suc f) fl s e h = elim (Round-cases (glob_round fl s e)) [
  | inl (b, r) ↦ (rw r at (glob_round-Sound fl e s)) (cc (loop_answer f fl s e b r))
  | inr (s', e', r) ↦
      (rw r at (glob_round-Sound fl e s))
        (loop_sound f fl s' e' (sym (loop_again f fl s e s' e' r) ∙ h))
]

loop_complete :
    (f : ℕ) (fl : Flags) (s e : CString)
    → length e < f
    → Glob fl e s
    → glob_loop f fl s e ≡ some true
loop_complete zero fl s e h m = elim h [ ]
loop_complete (suc f) fl s e h m = elim (Round-cases (glob_round fl s e)) [
  | inl (b, r) ↦
      let yes_b : b ≡ true = rw r at (glob_round-Complete fl e s m) in
      loop_answer f fl s e b r ∙ ap some yes_b
  | inr (s', e', r) ↦
      let shorter : length e' < length e = rw r at (glob_round-Shorter fl s e) in
      let m' : Glob fl e' s' = rw r at (glob_round-Complete fl e s m) in
      loop_again f fl s e s' e' r ∙ loop_complete f fl s' e' (omega arith) m'
]

-- `globcmp` always returns, it returns 1 on every string that the expression matches, and where it
-- returns 1 the expression matches the string, or what stands in front of one of its stars does: the
-- string is used up at the place where that star is reached.
pub globcmp_lem :
    (s e : CString) (fl : Flags)
    → ((b : Bool) × (globcmp s e fl ≡ some b))
      × (Glob fl e s → globcmp s e fl ≡ some true)
      × (globcmp s e fl ≡ some true → Glob fl e s ⊎ Early fl e s)
unfolding globcmp
globcmp_lem s e fl = (
  loop_total (length e + 1) fl s e (omega arith),
  loop_complete (length e + 1) fl s e (omega arith),
  λ h. loop_sound (length e + 1) fl s e h,
)

-- An expression with no star is matched exactly as it means.
pub globcmp_no_star_iff :
    (s e : CString) (fl : Flags)
    → All (λ d. is_star fl d ≡ false) e
    → (globcmp s e fl ≡ some true) ↔ Glob fl e s
globcmp_no_star_iff s e fl h =
    let (_, complete, sound) = globcmp_lem s e fl in
    (λ m. elim (sound m) [ inl x ↦ x | inr x ↦ absurd (no_star-Early h x) ], complete)

byte_round_again :
    (fl : Flags) (c d : ℕ) (s e : CString)
    → is_star fl d ≡ false
    → byte_matches fl c d ≡ true
    → glob_round fl (c ∷ s) (d ∷ e) ≡ again s e
unfolding glob_round byte_round mycmp
byte_round_again fl c d s e ns b = rw ns (rw b refl)

star_round_end :
    (fl : Flags) (d : ℕ) (e : CString)
    → is_star fl d ≡ true
    → glob_round fl [] (d ∷ e) ≡ answer true
unfolding glob_round star_round
star_round_end fl d e st = rw st

loop_cut :
    (f : ℕ) (fl : Flags) (d : ℕ) (r q s : CString)
    → length (q ++ d ∷ r) < f
    → is_star fl d ≡ true
    → All (λ x. is_star fl x ≡ false) q
    → Glob fl q s
    → glob_loop f fl s (q ++ d ∷ r) ≡ some true
loop_cut zero fl d r q s h st ns m = elim h [ ]
loop_cut (suc f) fl d r [] [] h st ns m =
    loop_answer f fl [] (d ∷ r) true (star_round_end fl d r st)
loop_cut (suc f) fl d r [] (c ∷ s) h st ns m = elim m [ ]
loop_cut (suc f) fl d r (x ∷ q) [] h st ns m = absurd (end_inv ns.0 m)
loop_cut (suc f) fl d r (x ∷ q) (c ∷ s) h st ns m =
    let (b, m') = byte_inv ns.0 m in
    loop_again f fl (c ∷ s) (x ∷ (q ++ d ∷ r)) s (q ++ d ∷ r)
      (byte_round_again fl c x s (q ++ d ∷ r) ns.0 b)
    ∙ loop_cut f fl d r q s (omega arith) st ns.1 m'

-- A string that is used up when the first star is reached is accepted whatever the expression
-- asks for behind that star: `a*b` accepts `a`.
pub globcmp_star_at_end :
    (s q r : CString) (d : ℕ) (fl : Flags)
    → is_star fl d ≡ true
    → All (λ x. is_star fl x ≡ false) q
    → Glob fl q s
    → globcmp s (q ++ d ∷ r) fl ≡ some true
unfolding globcmp
globcmp_star_at_end s q r d fl st ns m =
    loop_cut (length (q ++ d ∷ r) + 1) fl d r q s (omega arith) st ns m
