-- ===== src/Shell/Editor/Insertion.antt =====
-- A completion inserts its text at the cursor.
use kexec_loader.Misc.Strings.{kl_strins}
use kexec_loader.Misc.Strings.Splitting.{kl_strins-eq-take}
use kexec_loader.Shell.Editor.{cmdbuf_size, match_chars, app_chars, ac_text, complete}
use kexec_loader.Shell.Editor.Line.{Line, text, insert_text, holding, Fits}
use kexec_loader.Shell.Editor.Lengths.{
  length-reverse, length-text, take-left, drop-left, Editor-ext, take_split,
}
use kexec_loader.Shell.Editor.Completion.{match_chars_le}
use kexec_loader.Base.{
  ◌==◌, ==_iff, Bool-cases, length, take, length-append, length-take, take_all, CString, ℕ, zero,
  suc, ◌+◌, ◌-◌, min, ◌≡◌, refl, sym, ap, ◌∙◌, inl, inr, List, [], ◌∷◌, ◌++◌, reverse,
  reverse-reverse, reverse-append, append_assoc, arith,
}

length-ac_text : (list : List CString) → length (ac_text list) ≡ app_chars list
unfolding ac_text app_chars
length-ac_text [] = refl
length-ac_text (x ∷ []) = omega (arith, length-take (length x) x)
length-ac_text (x ∷ y ∷ list) =
    omega (arith, length-take (match_chars x y list) x, match_chars_le x y list)

inserted :
    (l : Line) (s : CString)
    → text (insert_text s l) ≡ reverse l.left ++ take (1023 - length l.left) (s ++ l.right)
inserted l s =
    let room = 1023 - length l.left in
    ap (λ t. t ++ take (room - length s) l.right)
      (reverse-append (reverse (take room s)) l.left
        ∙ ap (λ t. reverse l.left ++ t) (reverse-reverse (take room s)))
    ∙ append_assoc (reverse l.left) (take room s) (take (room - length s) l.right)
    ∙ ap (λ t. reverse l.left ++ t) (sym (take_split room s l.right))

strins-text :
    (l : Line) (s : CString)
    → Fits l
    → (kl_strins (text l) s (length l.left) cmdbuf_size).0 ≡ text (insert_text s l)
strins-text l s fits =
    let e : 1024 - length l.left - 1 ≡ 1023 - length l.left = omega arith in
    (kl_strins-eq-take (text l) s (length l.left) 1024 (omega arith)
      (omega (arith, length-text l))).0
    ∙ rw (take-left l.left l.right, drop-left l.left l.right, e) refl
    ∙ sym (inserted l s)

take_nil : (n : ℕ) → take {A = ℕ} n [] ≡ []
take_nil zero = refl
take_nil (suc n) = refl

pub length-insert_left :
    (l : Line) (s : CString)
    → length (insert_text s l).left ≡ min (1023 - length l.left) (length s) + length l.left
length-insert_left l s =
    let room = 1023 - length l.left in
    length-append (reverse (take room s)) l.left
    ∙ omega (arith, length-reverse (take room s), length-take room s)

pub length-insert_right :
    (l : Line) (s : CString)
    → length (insert_text s l).right ≡ min (1023 - length l.left - length s) (length l.right)
length-insert_right l s = length-take (1023 - length l.left - length s) l.right

-- The cursor stands behind the text, or at the end of a full line.
insert_offset :
    (l : Line) (s : CString)
    → Fits l
    → min (length l.left + length s) (length (text (insert_text s l)))
      ≡ length (insert_text s l).left
insert_offset l s fits =
    omega (arith, length-insert_left l s, length-insert_right l s, length-text (insert_text s l))

insert_none :
    (l : Line) (s : CString) → Fits l → length s ≡ 0 → holding l ≡ holding (insert_text s l)
insert_none l [] fits h =
    let room = 1023 - length l.left in
    let same : take (room - 0) l.right ≡ l.right = take_all (room - 0) l.right (omega arith) in
    rw (take_nil room, same) refl
insert_none l (c ∷ s) fits h = absurd (omega arith)

pub complete_lem :
    (l : Line) (list : List CString)
    → Fits l
    → complete list (holding l) ≡ holding (insert_text (ac_text list) l)
unfolding complete
complete_lem l list fits = elim (Bool-cases (app_chars list == 0)) [
  | inl e ↦
      let zero_len : length (ac_text list) ≡ 0 =
        length-ac_text list ∙ (==_iff (app_chars list) 0).0 e in
      rw e (insert_none l (ac_text list) fits zero_len)
  | inr e ↦
      let s = ac_text list in
      let same = strins-text l s fits in
      rw e (
        Editor-ext _ _ _ _ l.entry same (
          ap (λ b. min (length l.left + app_chars list) (length b)) same
          ∙ ap (λ n. min (length l.left + n) (length (text (insert_text s l))))
              (sym (length-ac_text list))
          ∙ insert_offset l s fits))
]
