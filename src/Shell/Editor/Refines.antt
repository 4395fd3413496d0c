-- ===== src/Shell/Editor/Refines.antt =====
-- `read_cmd` edits a line with a cursor.
use mathlib.Core.Option
use kexec_loader.Misc.Strings.Equality.{kl_str_match_len_lem}
use kexec_loader.Console.{
  Key, key_up, key_down, key_left, key_right, key_home, key_end, key_del, key_backspace, byte,
}
use kexec_loader.Shell.Editor.{AcSearch, match_chars, insert_byte, show_entry, key_up_entry, press}
use kexec_loader.Shell.Editor.Line.{
  Line, text, at_end, backspace, move_left, move_right, erase, older, show, newer, insert_key, edit,
  holding, Fits,
}
use kexec_loader.Shell.Editor.Insertion.{complete_lem}
use kexec_loader.Shell.Editor.Lengths.{
  length-reverse, length-text, cross, take-left, drop-left, take-cross, drop-suc_left, Editor-ext,
}
use kexec_loader.Base.{
  ltb, ◌==◌, Bool-cases, length, get_elem?, take, CString, ℕ, zero, suc, ◌+◌, ◌-◌, ◌≤◌, ◌≡◌, refl,
  sym, ap, ◌∙◌, inl, inr, true, false, Option, none, some, List, [], ◌∷◌, ◌++◌, reverse,
  reverse-reverse, append-nil, arith,
}

module _ (ac_search : AcSearch) (history : List CString) where
  backspace_lem :
      (left right : CString) (n : ℕ)
      → press ac_search history key_backspace
          (holding (record { left = left; right = right; entry = n }))
        ≡ some (holding (backspace left (record { left = left; right = right; entry = n })))
  unfolding press
  backspace_lem [] right n = refl
  backspace_lem (c ∷ left) right n =
      let e : suc (length left) - 1 ≡ length left = omega arith in
      let t : ltb 0 (suc (length left)) ≡ true = ground arith in
      rw (t, e)
        (ap some (
          Editor-ext _ _ _ _ n (rw (take-cross c left right, drop-left (c ∷ left) right) refl)
            refl))

  left_lem :
      (left right : CString) (n : ℕ)
      → press ac_search history key_left
          (holding (record { left = left; right = right; entry = n }))
        ≡ some (holding (move_left left (record { left = left; right = right; entry = n })))
  unfolding press
  left_lem [] right n = refl
  left_lem (c ∷ left) right n =
      let e : suc (length left) - 1 ≡ length left = omega arith in
      let t : ltb 0 (suc (length left)) ≡ true = ground arith in
      rw (t, e) (ap some (Editor-ext _ _ _ _ n (cross c left right) refl))

  right_lem :
      (left right : CString) (n : ℕ)
      → press ac_search history key_right
          (holding (record { left = left; right = right; entry = n }))
        ≡ some (holding (move_right right (record { left = left; right = right; entry = n })))
  unfolding press
  right_lem left [] n =
      let len = length-text (record { left = left; right = []; entry = n }) in
      let t : ltb 0 (length (reverse left ++ []) - length left) ≡ false = ground arith in rw t refl
  right_lem left (c ∷ right) n =
      let len = length-text (record { left = left; right = c ∷ right; entry = n }) in
      let t : ltb 0 (length (reverse left ++ c ∷ right) - length left) ≡ true = ground arith in
      rw t (ap some (Editor-ext _ _ _ _ n (sym (cross c left right)) (omega arith)))

  del_lem :
      (left right : CString) (n : ℕ)
      → press ac_search history key_del (holding (record { left = left; right = right; entry = n }))
        ≡ Option.map holding (erase right (record { left = left; right = right; entry = n }))
  unfolding press
  del_lem left [] n =
      let len = length-text (record { left = left; right = []; entry = n }) in
      let t : ltb (length left) (length (reverse left ++ [])) ≡ false = ground arith in rw t refl
  del_lem left (c ∷ right) n =
      let len = length-text (record { left = left; right = c ∷ right; entry = n }) in
      let t : ltb (length left) (length (reverse left ++ c ∷ right)) ≡ true = ground arith in
      elim (Bool-cases (ltb (length left + suc (length right)) 1023)) [
        | inl e ↦
            let f : ltb (length (reverse left ++ c ∷ right) + 1) 1024 ≡ true = ground arith in
            rw (t, e, f)
              (ap some (
                Editor-ext _ _ _ _ n
                  (rw (take-left left (c ∷ right), drop-suc_left left c right) refl) refl))
        | inr e ↦
            let f : ltb (length (reverse left ++ c ∷ right) + 1) 1024 ≡ false = ground arith in
            rw (t, e, f) refl
      ]

  holding-at_end :
      (s : CString) (n : ℕ)
      → holding (at_end s n) ≡ record { cmdbuf = s; offset = length s; hnum = n }
  holding-at_end s n =
      Editor-ext _ _ _ _ n (ap (λ t. t ++ []) (reverse-reverse s) ∙ append-nil s) (length-reverse s)

  end_lem :
      (l : Line)
      → press ac_search history key_end (holding l)
        ≡ some (holding (record l { left = reverse (text l); right = [] }))
  unfolding press
  end_lem l = ap some (sym (holding-at_end (text l) l.entry))

  up_entry_lem :
      (l : Line) (o : Option CString) → key_up_entry (holding l) o ≡ Option.map holding (older l o)
  up_entry_lem l none = refl
  up_entry_lem l (some cmd) = ap some (sym (holding-at_end (take 1023 cmd) (l.entry + 1)))

  up_lem :
      (l : Line)
      → press ac_search history key_up (holding l)
        ≡ Option.map holding (edit ac_search history key_up l)
  unfolding press edit
  up_lem l = elim (Bool-cases (ltb l.entry 32)) [
    | inl e ↦ rw e (up_entry_lem l (get_elem? history l.entry))
    | inr e ↦ rw e refl
  ]

  show_lem : (n : ℕ) (o : Option CString) → show_entry n o ≡ Option.map holding (show n o)
  show_lem n none = refl
  show_lem n (some cmd) = ap some (sym (holding-at_end (take 1023 cmd) n))

  down_lem :
      (left right : CString) (n : ℕ)
      → press ac_search history key_down
          (holding (record { left = left; right = right; entry = n }))
        ≡ Option.map holding (newer history n (record { left = left; right = right; entry = n }))
  unfolding press
  down_lem left right zero = refl
  down_lem left right (suc zero) = refl
  down_lem left right (suc (suc n)) =
      let t : ltb 0 (suc (suc n)) ≡ true = ground arith in
      let f : (suc (suc n) == 1) ≡ false = ground arith in
      let e : suc (suc n) - 1 ≡ suc n = omega arith in
      let d : suc (suc n) - 2 ≡ n = omega arith in
      rw (t, f, e, d) (show_lem (suc n) (get_elem? history n))

  insert_lem : (c : ℕ) (l : Line) → insert_byte c (holding l) ≡ holding (insert_key c l)
  insert_lem c l =
      let len = length-text l in
      elim (Bool-cases (ltb (length l.left + length l.right) 1022)) [
        | inl e ↦
            let f : ltb (length (text l) + 2) 1024 ≡ true = ground arith in
            rw (e, f)
              (Editor-ext _ _ _ _ l.entry
                (rw (take-left l.left l.right, drop-left l.left l.right)
                  (sym (cross c l.left l.right)))
                (omega arith))
        | inr e ↦ let f : ltb (length (text l) + 2) 1024 ≡ false = ground arith in rw (e, f) refl
      ]

match_chars_le : (x y : CString) (list : List CString) → match_chars x y list ≤ length x
unfolding match_chars
match_chars_le x y [] = (kl_str_match_len_lem x y).2
match_chars_le x y (z ∷ list) = omega (arith, (kl_str_match_len_lem x y).2)

pub press-edit :
    (ac_search : AcSearch) (history : List CString) (key : Key) (l : Line)
    → Fits l
    → press ac_search history key (holding l) ≡ Option.map holding (edit ac_search history key l)
unfolding edit
press-edit ac_search history key_backspace l fits =
    backspace_lem ac_search history l.left l.right l.entry
press-edit ac_search history key_left l fits = left_lem ac_search history l.left l.right l.entry
press-edit ac_search history key_right l fits = right_lem ac_search history l.left l.right l.entry
press-edit ac_search history key_home l fits = unfold press in refl
press-edit ac_search history key_end l fits = end_lem ac_search history l
press-edit ac_search history key_del l fits = del_lem ac_search history l.left l.right l.entry
press-edit ac_search history key_up l fits = up_lem ac_search history l
press-edit ac_search history key_down l fits = down_lem ac_search history l.left l.right l.entry
press-edit ac_search history (byte c) l fits = elim (Bool-cases (c == 9)) [
  | inl e ↦
      unfold press in rw e (ap some (complete_lem l (ac_search (text l) (length l.left)) fits))
  | inr e ↦ unfold press in rw e (ap some (insert_lem ac_search history c l))
]
