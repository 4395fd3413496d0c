-- ===== src/Shell/Editor/Bounds.antt =====
-- What every key keeps of a line: it fits in `cmdbuf`, and the entry of the history is there.
use kexec_loader.Console.{
  Key, key_up, key_down, key_left, key_right, key_home, key_end, key_del, key_backspace, byte,
}
use kexec_loader.Shell.Editor.{AcSearch, ac_text}
use kexec_loader.Shell.Editor.Line.{
  Line, text, at_end, backspace, move_left, move_right, erase, older, show, newer, insert_text,
  insert_key, edit, Fits,
}
use kexec_loader.Shell.Editor.Refines.{}
use kexec_loader.Shell.Editor.Lengths.{length-reverse, length-text}
use kexec_loader.Shell.Editor.Insertion.{length-insert_left, length-insert_right}
use kexec_loader.Base.{
  ltb, ◌==◌, Bool-cases, length, get_elem?, take, length-take, CString, is_set, ℕ, zero, suc, ◌+◌,
  ◌≤◌, ◌<◌, ◌≡◌, refl, ◌≢◌, ◌↔◌, inl, inr, true, false, Option, none, some, List, [], ◌∷◌, ◌++◌,
  reverse, arith,
}

-- A line that fits, and as many entries gone back as there are.
pub record IsLine (history : List CString) (l : Line) : Type 0 where
  pub fits : Fits l
  pub entry_there : l.entry ≤ length history

get_elem?-there :
    (history : List CString) (n : ℕ) (cmd : CString)
    → get_elem? history n ≡ some cmd
    → n < length history
get_elem?-there [] n cmd h = cc
get_elem?-there (x ∷ history) zero cmd h = omega arith
get_elem?-there (x ∷ history) (suc n) cmd h = omega (arith, get_elem?-there history n cmd h)

at_end-Fits : (s : CString) (n : ℕ) → length s ≤ 1023 → Fits (at_end s n)
at_end-Fits s n h = omega (arith, length-reverse s)

get_elem?-below : (history : List CString) (n : ℕ) → n < length history → get_elem? history n ≢ none
get_elem?-below [] n h e = absurd (omega arith)
get_elem?-below (x ∷ history) zero h e = cc
get_elem?-below (x ∷ history) (suc n) h e = get_elem?-below history n (omega arith) e

take-fits : (cmd : CString) → length (take 1023 cmd) ≤ 1023
take-fits cmd = omega (arith, length-take 1023 cmd)

-- The line that an edit leaves, if it leaves one.
abbrev pub Keeps : List CString → Option Line → Type 0
Keeps history none = Unit
Keeps history (some l) = IsLine history l

erase-Keeps :
    (history : List CString) (left right : CString) (n : ℕ)
    → IsLine history (record { left = left; right = right; entry = n })
    → Keeps history (erase right (record { left = left; right = right; entry = n }))
erase-Keeps history left [] n h = h
erase-Keeps history left (c ∷ right) n h =
    elim (Bool-cases (ltb (length left + length (c ∷ right)) 1023)) [
      | inl e ↦ rw e (record { fits = omega (arith, h.fits); entry_there = h.entry_there })
      | inr e ↦ rw e tt
    ]

older-Keeps :
    (history : List CString) (l : Line) (o : Option CString)
    → get_elem? history l.entry ≡ o
    → IsLine history l
    → Keeps history (older l o)
older-Keeps history l none e h = h
older-Keeps history l (some cmd) e h = record {
  fits = at_end-Fits (take 1023 cmd) (l.entry + 1) (take-fits cmd);
  entry_there = omega (arith, get_elem?-there history l.entry cmd e);
}

newer-Keeps :
    (history : List CString) (n : ℕ) (l : Line)
    → n ≤ length history
    → IsLine history l
    → Keeps history (newer history n l)
newer-Keeps history zero l k h = h
newer-Keeps history (suc zero) l k h = record { fits = omega arith; entry_there = omega arith }
newer-Keeps history (suc (suc n)) l k h = show-Keeps (get_elem? history n)
  where
    show-Keeps : (o : Option CString) → Keeps history (show (suc n) o)
    show-Keeps none = tt
    show-Keeps (some cmd) = record {
      fits = at_end-Fits (take 1023 cmd) (suc n) (take-fits cmd);
      entry_there = omega (arith, k);
    }

insert-IsLine :
    (history : List CString) (s : CString) (l : Line)
    → IsLine history l
    → IsLine history (insert_text s l)
insert-IsLine history s l h = record {
  fits = omega (arith, h.fits, length-insert_left l s, length-insert_right l s);
  entry_there = h.entry_there;
}

insert_key-IsLine :
    (history : List CString) (c : ℕ) (l : Line) → IsLine history l → IsLine history (insert_key c l)
insert_key-IsLine history c l h = elim (Bool-cases (ltb (length l.left + length l.right) 1022)) [
  | inl e ↦ rw e (record { fits = ground arith; entry_there = h.entry_there })
  | inr e ↦ rw e h
]

backspace-IsLine :
    (history : List CString) (left right : CString) (n : ℕ)
    → IsLine history (record { left = left; right = right; entry = n })
    → IsLine history (backspace left (record { left = left; right = right; entry = n }))
      × IsLine history (move_left left (record { left = left; right = right; entry = n }))
      × IsLine history (move_right right (record { left = left; right = right; entry = n }))
backspace-IsLine history left right n h = (back left h, to_left left h, to_right right h)
  where
    back :
        (xs : CString)
        → IsLine history (record { left = xs; right = right; entry = n })
        → IsLine history (backspace xs (record { left = xs; right = right; entry = n }))
    back [] k = k
    back (c ∷ xs) k = record { fits = omega (arith, k.fits); entry_there = k.entry_there }

    to_left :
        (xs : CString)
        → IsLine history (record { left = xs; right = right; entry = n })
        → IsLine history (move_left xs (record { left = xs; right = right; entry = n }))
    to_left [] k = k
    to_left (c ∷ xs) k = record { fits = omega (arith, k.fits); entry_there = k.entry_there }

    to_right :
        (ys : CString)
        → IsLine history (record { left = left; right = ys; entry = n })
        → IsLine history (move_right ys (record { left = left; right = ys; entry = n }))
    to_right [] k = k
    to_right (c ∷ ys) k = record { fits = omega (arith, k.fits); entry_there = k.entry_there }

pub edit-Keeps :
    (ac_search : AcSearch) (history : List CString) (key : Key) (l : Line)
    → IsLine history l
    → Keeps history (edit ac_search history key l)
unfolding edit
edit-Keeps ac_search history key_backspace l h =
    (backspace-IsLine history l.left l.right l.entry h).0
edit-Keeps ac_search history key_left l h = (backspace-IsLine history l.left l.right l.entry h).1
edit-Keeps ac_search history key_right l h = (backspace-IsLine history l.left l.right l.entry h).2
edit-Keeps ac_search history key_home l h = record {
  fits = omega (arith, h.fits, length-text l);
  entry_there = h.entry_there;
}
edit-Keeps ac_search history key_end l h = record {
  fits = omega (arith, h.fits, length-text l, length-reverse (text l));
  entry_there = h.entry_there;
}
edit-Keeps ac_search history key_del l h = erase-Keeps history l.left l.right l.entry h
edit-Keeps ac_search history key_up l h = elim (Bool-cases (ltb l.entry 32)) [
  | inl e ↦ rw e (older-Keeps history l (get_elem? history l.entry) refl h)
  | inr e ↦ rw e h
]
edit-Keeps ac_search history key_down l h = newer-Keeps history l.entry l h.entry_there h
edit-Keeps ac_search history (byte c) l h = elim (Bool-cases (c == 9)) [
  | inl e ↦ rw e (insert-IsLine history (ac_text (ac_search (text l) (length l.left))) l h)
  | inr e ↦ rw e (insert_key-IsLine history c l h)
]

-- The one key that reads where it must not: KEY_DEL in a line of 1023 bytes.
pub record Overreads (key : Key) (l : Line) : Type 0 where
  pub is_del : key ≡ key_del
  pub in_line : is_set l.right ≡ true
  pub full : length (text l) ≡ 1023

older_some : (l : Line) (o : Option CString) → older l o ≢ none
older_some l none e = cc e
older_some l (some cmd) e = cc e

newer_some :
    (history : List CString) (n : ℕ) (l : Line) → n ≤ length history → newer history n l ≢ none
newer_some history zero l h e = cc e
newer_some history (suc zero) l h e = cc e
newer_some history (suc (suc n)) l h e = show_some (get_elem? history n) refl e
  where
    show_some : (o : Option CString) → get_elem? history n ≡ o → show (suc n) o ≢ none
    show_some none k e' = get_elem?-below history n (omega (arith, h)) k
    show_some (some cmd) k e' = cc e'

erase-none :
    (left right : CString) (n : ℕ)
    → Fits (record { left = left; right = right; entry = n })
    → erase right (record { left = left; right = right; entry = n }) ≡ none
    → Overreads key_del (record { left = left; right = right; entry = n })
erase-none left [] n h e = absurd (cc e)
erase-none left (c ∷ right) n h e =
    elim (Bool-cases (ltb (length left + length (c ∷ right)) 1023)) [
      | inl k ↦ absurd (cc (rw k at e))
      | inr k ↦ record {
        is_del = refl;
        in_line = refl;
        full =
            ground (arith, length-text (record { left = left; right = c ∷ right; entry = n }), h);
      }
    ]

edit-none :
    (ac_search : AcSearch) (history : List CString) (key : Key) (l : Line)
    → IsLine history l
    → edit ac_search history key l ≡ none
    → Overreads key l
unfolding edit
edit-none ac_search history key_backspace l h e = absurd (cc e)
edit-none ac_search history key_left l h e = absurd (cc e)
edit-none ac_search history key_right l h e = absurd (cc e)
edit-none ac_search history key_home l h e = absurd (cc e)
edit-none ac_search history key_end l h e = absurd (cc e)
edit-none ac_search history key_del l h e = erase-none l.left l.right l.entry h.fits e
edit-none ac_search history key_up l h e = elim (Bool-cases (ltb l.entry 32)) [
  | inl k ↦ absurd (older_some l (get_elem? history l.entry) (rw k at e))
  | inr k ↦ absurd (cc (rw k at e))
]
edit-none ac_search history key_down l h e = absurd (newer_some history l.entry l h.entry_there e)
edit-none ac_search history (byte c) l h e = absurd (cc e)

erase_full :
    (left right : CString) (n : ℕ)
    → is_set right ≡ true
    → length (reverse left ++ right) ≡ 1023
    → erase right (record { left = left; right = right; entry = n }) ≡ none
erase_full left [] n h e = absurd (cc h)
erase_full left (c ∷ right) n h e =
    let k : ltb (length left + length (c ∷ right)) 1023 ≡ false =
      ground (arith, length-text (record { left = left; right = c ∷ right; entry = n })) in
    rw k refl

pub edit-none_iff :
    (ac_search : AcSearch) (history : List CString) (key : Key) (l : Line)
    → IsLine history l
    → (edit ac_search history key l ≡ none) ↔ Overreads key l
unfolding edit
edit-none_iff ac_search history key l h = (
  edit-none ac_search history key l h,
  λ o. rw o.is_del (erase_full l.left l.right l.entry o.in_line o.full),
)
