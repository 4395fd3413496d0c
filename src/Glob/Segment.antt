-- ===== src/Glob/Segment.antt =====
-- `mycmp` and `seek` on the part of an expression up to its next star.
use kexec_loader.Glob.{Flags, byte_matches, mycmp, stars, is_star, seek}
use kexec_loader.Glob.Relation.{
  Glob, GlobOrEarly, star_inv, byte_inv, end_inv, star_end, star_step, absorb, either_byte,
}
use kexec_loader.Base.{
  ◌==◌, ==_iff, Bool-cases, length, drop, CString, head_byte, strcspn, ℕ, zero, suc, ◌≤◌, ◌≡◌, refl,
  sym, ap, ◌∙◌, inl, inr, true, false, some, [], ◌∷◌, arith,
}

abbrev pub segment : CString → ℕ
segment e = strcspn e stars

pub not_star : (fl : Flags) (d : ℕ) → (d == b'*') ≡ false → is_star fl d ≡ false
not_star fl d h = ground arith

mycmp_cons :
    (fl : Flags) (c d n : ℕ) (s e : CString)
    → mycmp (c ∷ s) (d ∷ e) (suc n) fl ≡ true
    → (byte_matches fl c d ≡ true) × (mycmp s e n fl ≡ true)
unfolding mycmp
mycmp_cons fl c d n s e h = elim (Bool-cases (byte_matches fl c d)) [
  | inl b ↦ (b, rw (b, mycmp) at h)
  | inr b ↦ absurd (cc (rw b at h))
]

mycmp_cons_true :
    (fl : Flags) (c d n : ℕ) (s e : CString)
    → byte_matches fl c d ≡ true
    → mycmp s e n fl ≡ true
    → mycmp (c ∷ s) (d ∷ e) (suc n) fl ≡ true
unfolding mycmp
mycmp_cons_true fl c d n s e b h = rw b h

mycmp_end : (fl : Flags) (d n : ℕ) (e : CString) → ¬ (mycmp [] (d ∷ e) (suc n) fl ≡ true)
unfolding mycmp
mycmp_end fl d n e h = cc

-- Where the part up to the next star compares equal, a match of the rest is a match of the whole.
pub segment_sound :
    (fl : Flags) (e s : CString)
    → mycmp s e (segment e) fl ≡ true
    → GlobOrEarly fl (drop (segment e) e) (drop (segment e) s)
    → GlobOrEarly fl e s
segment_sound fl [] s h m = m
segment_sound fl (d ∷ e) [] h m = elim (Bool-cases (d == b'*')) [
  | inl st ↦ rw st at m
  | inr ns ↦ absurd (mycmp_end fl d (segment e) e (rw ns at h))
]
segment_sound fl (d ∷ e) (c ∷ s) h m = elim (Bool-cases (d == b'*')) [
  | inl st ↦ rw st at m
  | inr ns ↦
      let (b, h') = mycmp_cons fl c d (segment e) s e (rw ns at h) in
      either_byte (not_star fl d ns) b (segment_sound fl e s h' (rw ns at m))
]

-- Of a match, the part up to the next star compares equal, and the rest matches behind it.
pub segment_complete :
    (fl : Flags) (e s : CString)
    → Glob fl e s
    → (mycmp s e (segment e) fl ≡ true) × Glob fl (drop (segment e) e) (drop (segment e) s)
segment_complete fl [] s m = (unfold mycmp in refl, m)
segment_complete fl (d ∷ e) [] m = elim (Bool-cases (d == b'*')) [
  | inl st ↦ rw st (unfold mycmp in refl, m)
  | inr ns ↦ absurd (end_inv (not_star fl d ns) m)
]
segment_complete fl (d ∷ e) (c ∷ s) m = elim (Bool-cases (d == b'*')) [
  | inl st ↦ rw st (unfold mycmp in refl, m)
  | inr ns ↦
      let (b, m') = byte_inv (not_star fl d ns) m in
      let (h, k) = segment_complete fl e s m' in
      rw ns (mycmp_cons_true fl c d (segment e) s e b h, k)
]

-- The next star, if there is one, is where the segment ends.
pub star_after :
    (e : CString)
    → (head_byte (drop (segment e) e) == b'*') ≡ true
    → (r : CString) × (drop (segment e) e ≡ b'*' ∷ r)
star_after [] h = cc
star_after (d ∷ e) h = elim (Bool-cases (d == b'*')) [
  | inl st ↦ (e, rw st (ap (λ (x : ℕ). x ∷ e) ((==_iff d b'*').0 st)))
  | inr ns ↦ rw ns (star_after e (rw ns at h))
]

pub none_after :
    (e : CString) → (head_byte (drop (segment e) e) == b'*') ≡ false → drop (segment e) e ≡ []
none_after [] h = refl
none_after (d ∷ e) h = elim (Bool-cases (d == b'*')) [
  | inl st ↦ absurd (cc (rw (st, st) at h))
  | inr ns ↦ rw ns (none_after e (rw ns at h))
]

pub length-segment_le : (e : CString) → segment e ≤ length e
length-segment_le [] = omega arith
length-segment_le (d ∷ e) = ground (arith, length-segment_le e)

-- What compares equal to `n` bytes of an expression is at least as long.
pub mycmp-length :
    (fl : Flags) (s e : CString) (n : ℕ) → n ≤ length e → mycmp s e n fl ≡ true → n ≤ length s
mycmp-length fl s e zero h m = omega arith
mycmp-length fl s [] (suc n) h m = elim h [ ]
mycmp-length fl [] (d ∷ e) (suc n) h m = unfold mycmp in cc
mycmp-length fl (c ∷ s) (d ∷ e) (suc n) h m =
    omega (arith, mycmp-length fl s e n (omega arith) (mycmp_cons fl c d n s e m).1)

seek_stop :
    (fl : Flags) (e : CString) (n c : ℕ) (s : CString)
    → mycmp (c ∷ s) e n fl ≡ true
    → seek fl e n (c ∷ s) ≡ some (c ∷ s)
unfolding seek
seek_stop fl e n c s m = rw (m, seek)

seek_next :
    (fl : Flags) (e : CString) (n c : ℕ) (s : CString)
    → mycmp (c ∷ s) e n fl ≡ false
    → seek fl e n (c ∷ s) ≡ seek fl e n s
unfolding seek
seek_next fl e n c s m = rw (m, seek)

-- Where the loop stops, the segment compares equal, at or behind the place where it began.
pub seek_sound :
    (fl : Flags) (e : CString) (n : ℕ) (s s' : CString)
    → seek fl e n s ≡ some s'
    → (mycmp s' e n fl ≡ true) × ((k : ℕ) × (s' ≡ drop k s))
seek_sound fl e n [] s' h = unfold seek in cc
seek_sound fl e n (c ∷ s) s' h = elim (Bool-cases (mycmp (c ∷ s) e n fl)) [
  | inl m ↦ let same : s' ≡ c ∷ s = cc (seek_stop fl e n c s m) in (rw same m, (0, same))
  | inr m ↦
      let (m', (k, at_k)) = seek_sound fl e n s s' (sym (seek_next fl e n c s m) ∙ h) in
      (m', (suc k, at_k))
]

drop-suc : (m : ℕ) (s : CString) → drop (suc m) s ≡ drop 1 (drop m s)
drop-suc zero s = refl
drop-suc (suc m) [] = refl
drop-suc (suc m) (c ∷ s) = drop-suc m s

drop-drop : (m n : ℕ) (s : CString) → drop m (drop n s) ≡ drop n (drop m s)
drop-drop zero n s = refl
drop-drop (suc m) zero s = refl
drop-drop (suc m) (suc n) [] = refl
drop-drop (suc m) (suc n) (c ∷ s) =
    drop-suc m (drop n s) ∙ ap (drop 1) (drop-drop m n s) ∙ sym (drop-suc n (drop m s))

-- Between two stars the segment may as well be looked for at once: the second star takes up what
-- lies between this place and the one of the match.
star_rest :
    (fl : Flags) (e r s : CString) (d : ℕ)
    → is_star fl d ≡ true
    → is_star fl b'*' ≡ true
    → drop (segment e) e ≡ b'*' ∷ r
    → Glob fl (d ∷ e) s
    → Glob fl (drop (segment e) e) (drop (segment e) s)
star_rest fl e r s d st star after m =
    let (k, _, found) = star_inv s st m in
    let behind : Glob fl (b'*' ∷ r) (drop (segment e) (drop k s)) =
      rw after at (segment_complete fl e (drop k s) found).1 in
    rw after (absorb b'*' r (drop (segment e) s) k star (rw (drop-drop (segment e) k s) at behind))

-- If a star and the expression behind it match, the loop stops, and the rest of the expression
-- still matches behind a star there.
pub seek_complete :
    (fl : Flags) (e r s : CString) (d : ℕ)
    → is_star fl d ≡ true
    → is_star fl b'*' ≡ true
    → drop (segment e) e ≡ b'*' ∷ r
    → ¬ Glob fl e []
    → Glob fl (d ∷ e) s
    → (s' : CString) × (seek fl e (segment e) s ≡ some s')
      × Glob fl (drop (segment e) e) (drop (segment e) s')
seek_complete fl e r [] d st star after ne m = absurd (ne (star_end st m))
seek_complete fl e r (c ∷ s) d st star after ne m =
    elim (Bool-cases (mycmp (c ∷ s) e (segment e) fl)) [
      | inl here ↦
          (c ∷ s, seek_stop fl e (segment e) c s here, star_rest fl e r (c ∷ s) d st star after m)
      | inr there ↦
          let later = star_step st m (λ x. cc (segment_complete fl e (c ∷ s) x).0) in
          let (s', found, rest) = seek_complete fl e r s d st star after ne later in
          (s', seek_next fl e (segment e) c s there ∙ found, rest)
    ]
