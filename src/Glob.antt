-- ===== src/Glob.antt =====
-- src/globcmp.c: glob matching.
pub mod Relation
pub mod Segment
pub mod Rounds
pub mod Decides
use kexec_loader.Base.{
  ltb, ◌==◌, if◌then◌else◌, length, drop, CString, str, head_byte, is_set, strcspn, strspn,
  is_digit, to_lower, ℕ, zero, suc, ◌+◌, ◌-◌, ◌*◌, Bool, true, false, not, ◌&&◌, ◌||◌, Option, none,
  some, [], ◌∷◌,
}

-- GLOB_IGNCASE, GLOB_STAR, GLOB_SINGLE and GLOB_HASH
pub record Flags : Type 0 where
  pub ignore_case : Bool
  pub star : Bool
  pub single : Bool
  pub hash : Bool

abbrev pub rcase : Flags → ℕ → ℕ
rcase fl c = if fl.ignore_case then to_lower c else c

-- The tests of `mycmp` at a byte of each string, neither of them its NUL.
abbrev pub byte_matches : Flags → ℕ → ℕ → Bool
byte_matches fl c d =
    rcase fl c == rcase fl d || fl.single && d == b'?' || fl.hash && d == b'#' && is_digit c

-- At the end of one string only, no test passes; at the end of both, `mycmp` returns 1.
unfoldable pub mycmp : CString → CString → ℕ → Flags → Bool
mycmp s expr zero fl = true
mycmp [] [] (suc len) fl = true
mycmp (c ∷ s) (d ∷ expr) (suc len) fl = if byte_matches fl c d then mycmp s expr len fl else false
mycmp _ _ (suc len) fl = false

abbrev pub stars : CString
stars = str "*"

-- `flags & GLOB_STAR && expr[0] == '*'`
abbrev pub is_star : Flags → ℕ → Bool
is_star fl d = fl.star && d == b'*'

abbrev pub star_head : Flags → CString → Bool
star_head fl [] = false
star_head fl (d ∷ expr) = is_star fl d

-- The loop `while(!mycmp(str, expr, n, flags)) { str++; … }`; `none` is its `return 0`.
unfoldable pub seek : Flags → CString → ℕ → CString → Option CString
seek fl expr n [] = none
seek fl expr n (c ∷ s) = elim (mycmp (c ∷ s) expr n fl) [
  | true ↦ some (c ∷ s)
  | false ↦ seek fl expr n s
]

-- `str + strlen(str) - n` compared with the last part of the expression
unfoldable pub compare_end : Flags → CString → CString → ℕ → Bool
unfolding mycmp
compare_end fl s expr n =
    if ltb (length s) n then false else mycmp (drop (length s - n) s) expr n fl

-- Where a round of the loop ends: with an answer, or with the next round.
pub data Round : Type 0 where
  answer : Bool → Round
  again : CString → CString → Round

abbrev pub sought : Option CString → CString → ℕ → Round
sought none expr n = answer false
sought (some s) expr n = again (drop n s) (drop n expr)

-- The round at a star, with the stars skipped.
unfoldable pub star_round : Flags → CString → CString → Round
unfolding seek compare_end
star_round fl [] expr = answer true
star_round fl (c ∷ s) [] = answer true
star_round fl (c ∷ s) (d ∷ expr) =
    let n = strcspn (d ∷ expr) stars in
    if head_byte (drop n (d ∷ expr)) == b'*'
    then sought (seek fl (d ∷ expr) n (c ∷ s)) (d ∷ expr) n
    else answer (compare_end fl (c ∷ s) (d ∷ expr) n)

unfoldable pub byte_round : Flags → CString → CString → Round
unfolding mycmp
byte_round fl s expr =
    if not (mycmp s expr 1 fl)
    then answer false
    else if not (is_set expr)
    then answer true
    else again (drop 1 s) (drop 1 expr)

unfoldable pub glob_round : Flags → CString → CString → Round
unfolding star_round byte_round
glob_round fl s expr =
    if star_head fl expr
    then star_round fl s (drop (strspn expr stars) expr)
    else byte_round fl s expr

-- `while(1)` on fuel: a round leaves a shorter expression, so its length and one is enough.
unfoldable pub glob_loop : ℕ → Flags → CString → CString → Option Bool
unfolding glob_round
glob_loop zero fl s expr = none
glob_loop (suc f) fl s expr = elim (glob_round fl s expr) [
  | answer b ↦ some b
  | again s' expr' ↦ glob_loop f fl s' expr'
]

unfoldable pub globcmp : CString → CString → Flags → Option Bool
unfolding glob_loop
globcmp s expr fl = glob_loop (length expr + 1) fl s expr
