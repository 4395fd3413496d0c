-- ===== src/Keymap/Lines.antt =====
-- A well-formed line of a keymap file sets the key that it names.
use Prim.Native.String.{String}
use mathlib.Core.Path.{subst}
use kexec_loader.Keymap.Codes.{codes}
use kexec_loader.Keymap.{
  find_code, number_bytes, skip_number, set_action, cut_line, keymap_line, set_key,
}
use kexec_loader.Misc.Strings.{kl_streq}
use kexec_loader.Base.{
  ◌==◌, get_elem?, All, All-append, All-map, CString, str, is_set, byte_in, is_digit, blanks,
  line_ends, digits_value, atoi, to_uchar, pos, IsIn, IsOut, BeginsIn, BeginsOut, drop-strspn,
  take-strcspn, ℕ, zero, suc, ◌%◌, ◌≡◌, refl, ap, ◌∙◌, Bool, true, false, not, ◌&&◌, none, some,
  List, [], ◌∷◌, ◌++◌, arith,
}

all_out : CString → CString → Bool
all_out set [] = true
all_out set (c ∷ s) = not (byte_in c set) && all_out set s

-- The name can stand at the end of a line, behind blanks.
clean : CString → Bool
clean [] = false
clean (c ∷ s) = not (byte_in c blanks) && all_out line_ends (c ∷ s)

-- The entry's name is found with the code that stands beside it, so no other entry hides it.
sound_entry : String → ℕ → Bool
sound_entry name code =
    clean (str name) && elim (find_code (str name) codes) [ some c ↦ c == code | none ↦ false ]

all_sound : List (String × ℕ) → Bool
all_sound [] = true
all_sound ((name, code) ∷ rest) = sound_entry name code && all_sound rest

codes_sound : all_sound codes ≡ true
unfolding all_sound sound_entry clean all_out codes find_code kl_streq
codes_sound = refl

all_sound-get :
    (cs : List (String × ℕ)) (i : ℕ) (name : String) (code : ℕ)
    → all_sound cs ≡ true
    → get_elem? cs i ≡ some (name, code)
    → sound_entry name code ≡ true
unfolding all_sound
all_sound-get [] i name code h e = cc
all_sound-get ((n, c) ∷ rest) zero name code h e =
    let same : sound_entry n c ≡ true = ground arith in
    let same_entry : ◌≡◌ {A = String × ℕ} (n, c) (name, code) = cc in
    subst (λ (entry : String × ℕ). sound_entry entry.0 entry.1 ≡ true) same_entry same
all_sound-get ((n, c) ∷ rest) (suc i) name code h e =
    all_sound-get rest i name code (ground arith) e

all_out-IsOut : (set s : CString) → all_out set s ≡ true → All (IsOut set) s
unfolding all_out
all_out-IsOut set [] h = tt
all_out-IsOut set (c ∷ s) h = (ground arith, all_out-IsOut set s (ground arith))

-- A number, and blanks, at least one byte of each.
abbrev pub IsNumber : CString → Type 0
IsNumber ds = (is_set ds ≡ true) × All (IsIn number_bytes) ds

abbrev pub IsGap : CString → Type 0
IsGap g = (is_set g ≡ true) × All (IsIn blanks) g

digit-IsOut :
    (c : ℕ) → IsIn number_bytes c → (IsOut blanks c) × (IsOut line_ends c) × (is_digit c ≡ true)
digit-IsOut c h = ground arith

blank-IsOut :
    (c : ℕ) → IsIn blanks c → (IsOut number_bytes c) × (IsOut line_ends c) × (is_digit c ≡ false)
blank-IsOut c h = ground arith

gap-BeginsOut : (g rest : CString) → IsGap g → BeginsOut number_bytes (g ++ rest)
gap-BeginsOut [] rest h = cc
gap-BeginsOut (c ∷ g) rest h = (blank-IsOut c h.1.0).0

skip_number-gap :
    (ds g rest : CString)
    → IsNumber ds
    → IsGap g
    → BeginsOut blanks rest
    → skip_number (ds ++ (g ++ rest)) ≡ rest
unfolding skip_number
skip_number-gap ds g rest hd hg hr =
    rw (drop-strspn number_bytes ds (g ++ rest) hd.1 (gap-BeginsOut g rest hg))
      (drop-strspn blanks g rest hg.1 hr)

digits_value-append :
    (ds g rest : CString) (acc : ℕ)
    → All (IsIn number_bytes) ds
    → IsGap g
    → digits_value acc (ds ++ (g ++ rest)) ≡ digits_value acc ds
digits_value-append [] [] rest acc hd hg = cc
digits_value-append [] (c ∷ g) rest acc hd hg = rw (blank-IsOut c hg.1.0).2 refl
digits_value-append (d ∷ ds) g rest acc hd hg =
    rw (digit-IsOut d hd.0).2 (digits_value-append ds g rest _ hd.1 hg)

atoi-digit :
    (c : ℕ) (s : CString) → IsIn number_bytes c → atoi (c ∷ s) ≡ pos (digits_value 0 (c ∷ s))
atoi-digit c s h = ground arith

atoi-number :
    (ds g rest : CString)
    → IsNumber ds
    → IsGap g
    → atoi (ds ++ (g ++ rest)) ≡ pos (digits_value 0 ds)
atoi-number [] g rest hd hg = cc
atoi-number (d ∷ ds) g rest hd hg =
    atoi-digit d (ds ++ (g ++ rest)) hd.1.0 ∙ ap pos (digits_value-append (d ∷ ds) g rest 0 hd.1 hg)

cut_line-ends :
    (c : ℕ) (body eol : CString)
    → All (IsOut line_ends) (c ∷ body)
    → BeginsIn line_ends eol
    → cut_line ((c ∷ body) ++ eol) ≡ c ∷ body
unfolding cut_line
cut_line-ends c body eol h k =
    rw (drop-strspn line_ends [] ((c ∷ body) ++ eol) tt h.0)
      (take-strcspn line_ends (c ∷ body) eol h k)

clean-IsOut :
    (n : CString)
    → clean n ≡ true
    → (is_set n ≡ true) × BeginsOut blanks n × All (IsOut line_ends) n
unfolding clean
clean-IsOut [] h = cc
clean-IsOut (c ∷ n) h = (refl, ground arith, all_out-IsOut line_ends (c ∷ n) (ground arith))

set_action-found :
    (lnum table index : ℕ) (n : CString) (code : ℕ)
    → is_set n ≡ true
    → find_code n codes ≡ some code
    → set_action lnum table index n
      ≡ set_key (record { kb_table = table; kb_index = index; kb_value = code })
unfolding set_action
set_action-found lnum table index [] code h e = cc
set_action-found lnum table index (c ∷ n) code h e = rw e refl

numbers-BeginsOut : (ds rest : CString) → IsNumber ds → BeginsOut blanks (ds ++ rest)
numbers-BeginsOut [] rest h = cc
numbers-BeginsOut (c ∷ ds) rest h = (digit-IsOut c h.1.0).0

line_body-IsOut :
    (ds g rest : CString)
    → IsNumber ds
    → IsGap g
    → All (IsOut line_ends) rest
    → All (IsOut line_ends) (ds ++ (g ++ rest))
line_body-IsOut ds g rest hd hg hr =
    All-append (IsOut line_ends) ds (g ++ rest) (All-map _ _ ds (λ c h. (digit-IsOut c h).1) hd.1)
      (All-append (IsOut line_ends) g rest (All-map _ _ g (λ c h. (blank-IsOut c h).1) hg.1) hr)

cut_line-numbers :
    (ds rest eol : CString)
    → IsNumber ds
    → All (IsOut line_ends) (ds ++ rest)
    → BeginsIn line_ends eol
    → cut_line ((ds ++ rest) ++ eol) ≡ ds ++ rest
cut_line-numbers [] rest eol hd h k = cc
cut_line-numbers (d ∷ ds) rest eol hd h k = cut_line-ends d (ds ++ rest) eol h k

entry_clean : (name : String) (code : ℕ) → sound_entry name code ≡ true → clean (str name) ≡ true
unfolding sound_entry
entry_clean name code h = ground arith

entry_found :
    (name : String) (code : ℕ)
    → sound_entry name code ≡ true
    → find_code (str name) codes ≡ some code
unfolding sound_entry
entry_found name code h = ground arith

keymap_line_steps :
    (lnum : ℕ) (line table index action : CString)
    → cut_line line ≡ table
    → skip_number table ≡ index
    → skip_number index ≡ action
    → keymap_line lnum line ≡ set_action lnum (to_uchar (atoi table)) (to_uchar (atoi index)) action
unfolding keymap_line
keymap_line_steps lnum line table index action e f g = rw (e, f, g) refl

-- A line that gives a table and an index in decimal and any name of the table of actions, with
-- blanks between them and whatever line end, sets that key of that table to the action's code.
pub keymap_line-sets :
    (lnum j : ℕ) (name : String) (code : ℕ) (table gap1 index gap2 eol : CString)
    → get_elem? codes j ≡ some (name, code)
    → IsNumber table
    → IsGap gap1
    → IsNumber index
    → IsGap gap2
    → BeginsIn line_ends eol
    → keymap_line lnum ((table ++ (gap1 ++ (index ++ (gap2 ++ str name)))) ++ eol)
      ≡ set_key (record {
        kb_table = digits_value 0 table % 256;
        kb_index = digits_value 0 index % 256;
        kb_value = code;
      })
keymap_line-sets lnum j name code table gap1 index gap2 eol at_j t g1 x g2 el =
    let sound = all_sound-get codes j name code codes_sound at_j in
    let (set, begins, outs) = clean-IsOut (str name) (entry_clean name code sound) in
    let index_text = index ++ (gap2 ++ str name) in
    keymap_line_steps lnum _ (table ++ (gap1 ++ index_text)) index_text (str name)
      (cut_line-numbers table (gap1 ++ index_text) eol t
        (line_body-IsOut table gap1 index_text t g1
          (line_body-IsOut index gap2 (str name) x g2 outs))
        el)
      (skip_number-gap table gap1 index_text t g1 (numbers-BeginsOut index (gap2 ++ str name) x))
      (skip_number-gap index gap2 (str name) x g2 begins)
    ∙ rw (atoi-number table gap1 index_text t g1, atoi-number index gap2 (str name) x g2)
        (set_action-found lnum _ _ (str name) code set (entry_found name code sound))
