-- ===== src/Shell/Editor/Lengths.antt =====
-- Lengths and positions in the text of a line.
use kexec_loader.Shell.Editor.{Editor}
use kexec_loader.Shell.Editor.Line.{Line, text}
use kexec_loader.Base.{
  length, take, drop, length-append, drop-append, take-append, CString, ℕ, zero, suc, ◌+◌, ◌-◌, ◌≡◌,
  refl, sym, ap, ◌∙◌, [], ◌∷◌, ◌++◌, reverse, reverse-cons, append_assoc, arith,
}

pub length-reverse : (s : CString) → length (reverse s) ≡ length s
length-reverse [] = refl
length-reverse (c ∷ s) =
    ap length (reverse-cons c s)
    ∙ length-append (reverse s) (c ∷ [])
    ∙ omega (arith, length-reverse s)

pub length-text : (l : Line) → length (text l) ≡ length l.left + length l.right
length-text l =
    length-append (reverse l.left) l.right ∙ ap (λ n. n + length l.right) (length-reverse l.left)

-- A byte may cross the cursor.
pub cross : (c : ℕ) (left right : CString) → reverse (c ∷ left) ++ right ≡ reverse left ++ c ∷ right
cross c left right =
    ap (λ s. s ++ right) (reverse-cons c left) ∙ append_assoc (reverse left) (c ∷ []) right

pub take-left : (left right : CString) → take (length left) (reverse left ++ right) ≡ reverse left
take-left left right =
    ap (λ n. take n (reverse left ++ right)) (sym (length-reverse left))
    ∙ take-append (reverse left) right

pub drop-left : (left right : CString) → drop (length left) (reverse left ++ right) ≡ right
drop-left left right =
    ap (λ n. drop n (reverse left ++ right)) (sym (length-reverse left))
    ∙ drop-append (reverse left) right

pub take-cross :
    (c : ℕ) (left right : CString) → take (length left) (reverse (c ∷ left) ++ right) ≡ reverse left
take-cross c left right = ap (take (length left)) (cross c left right) ∙ take-left left (c ∷ right)

pub drop-suc_left :
    (left : CString) (c : ℕ) (right : CString)
    → drop (length left + 1) (reverse left ++ c ∷ right) ≡ right
drop-suc_left left c right =
    ap (drop (length left + 1)) (sym (cross c left right))
    ∙ (let e : length left + 1 ≡ length (c ∷ left) = omega arith in
        rw e (drop-left (c ∷ left) right))

pub Editor-ext :
    (s t : CString) (m n h : ℕ)
    → s ≡ t
    → m ≡ n
    → ◌≡◌ {A = Editor}
        (record { cmdbuf = s; offset = m; hnum = h })
        (record { cmdbuf = t; offset = n; hnum = h })
Editor-ext s t m n h e f = λ i. record { cmdbuf = e i; offset = f i; hnum = h }

pub take_split :
    (n : ℕ) (xs ys : CString) → take n (xs ++ ys) ≡ take n xs ++ take (n - length xs) ys
take_split zero [] ys = refl
take_split (suc n) [] ys = let e : suc n - 0 ≡ suc n = omega arith in ap (λ m. take m ys) (sym e)
take_split zero (x ∷ xs) ys = let e : 0 - suc (length xs) ≡ 0 = omega arith in rw e
take_split (suc n) (x ∷ xs) ys =
    let e : suc n - suc (length xs) ≡ n - length xs = omega arith in
    rw e (ap (◌∷◌ x) (take_split n xs ys))
