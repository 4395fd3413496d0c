-- ===== src/Shell/Editor/Waiting.antt =====
-- Where the loop of `read_cmd` waits for a key, `cmdbuf`, the cursor and the history are in bounds.
use mathlib.Core.Option
use kexec_loader.Console.{Key, key_del}
use kexec_loader.Shell.Editor.{Editor, AcSearch, press, is_newline, edit_loop, new_editor, waiting}
use kexec_loader.Shell.Editor.Line.{Line, edit, holding}
use kexec_loader.Shell.Editor.Refines.{press-edit}
use kexec_loader.Shell.Editor.Lengths.{length-text}
use kexec_loader.Shell.Editor.Bounds.{IsLine, edit-Keeps, Overreads, edit-none_iff}
use kexec_loader.Base.{
  Bool-cases, length, CString, is_set, ◌≤◌, ◌<◌, ◌≡◌, refl, ap, ◌∙◌, ◌↔◌, inl, inr, true, Option,
  none, some, List, [], ◌∷◌, arith,
}
use kexec_loader.Shell.Editor.Sessions.{empty_line}

-- an editor that holds a line in its bounds
abbrev HoldsLine : List CString → Editor → Type 0
HoldsLine history e = (l : Line) × IsLine history l × (e ≡ holding l)

module _ (ac_search : AcSearch) (history : List CString) where
  waiting_next :
      (key : Key) (keys : List Key) (e : Editor) (l : Line) (o : Option Line)
      → edit ac_search history key l ≡ o
      → IsLine history l
      → ((m : Line)
          → IsLine history m
          → edit_loop ac_search history keys (holding m) ≡ waiting e
          → HoldsLine history e)
      → edit_loop ac_search history (key ∷ keys) (holding l) ≡ waiting e
      → HoldsLine history e
  unfolding edit_loop
  waiting_next key keys e l none k h ih w =
      let p : press ac_search history key (holding l) ≡ none =
        press-edit ac_search history key l h.fits ∙ ap (Option.map holding) k in
      elim (Bool-cases (is_newline key)) [
        | inl n ↦ absurd (cc (rw n at w))
        | inr n ↦ absurd (cc (rw (n, p) at w))
      ]
  waiting_next key keys e l (some m) k h ih w =
      let p : press ac_search history key (holding l) ≡ some (holding m) =
        press-edit ac_search history key l h.fits ∙ ap (Option.map holding) k in
      let kept : IsLine history m = rw k at (edit-Keeps ac_search history key l h) in
      elim (Bool-cases (is_newline key)) [
        | inl n ↦ absurd (cc (rw n at w))
        | inr n ↦ ih m kept (rw (n, p) at w)
      ]

  waiting-HoldsLine :
      (keys : List Key) (e : Editor) (l : Line)
      → IsLine history l
      → edit_loop ac_search history keys (holding l) ≡ waiting e
      → HoldsLine history e
  unfolding edit_loop
  waiting-HoldsLine [] e l h w = (l, h, waiting_injective w)
    where
      waiting_injective : {a b : Editor} → waiting a ≡ waiting b → b ≡ a
      waiting_injective x = cc
  waiting-HoldsLine (key ∷ keys) e l h w =
      waiting_next key keys e l (edit ac_search history key l) refl h
        (λ m k. waiting-HoldsLine keys e m k) w

press-none_iff :
    (ac_search : AcSearch) (history : List CString) (key : Key) (l : Line)
    → IsLine history l
    → (press ac_search history key (holding l) ≡ none) ↔ (edit ac_search history key l ≡ none)
press-none_iff ac_search history key l h =
    rw (press-edit ac_search history key l h.fits) (of_map (edit ac_search history key l))
  where
    of_map : (o : Option Line) → (Option.map holding o ≡ none) ↔ (o ≡ none)
    of_map none = (λ e. refl, λ e. refl)
    of_map (some m) = (λ e. absurd (cc e), λ e. absurd (cc e))

-- KEY_DEL in front of the end of a line of 1023 bytes
pub record IsDelInFull (key : Key) (e : Editor) : Type 0 where
  pub is_del : key ≡ key_del
  pub in_front : e.offset < length e.cmdbuf
  pub full : length e.cmdbuf ≡ 1023

same_overread : (key : Key) (l : Line) → Overreads key l ↔ IsDelInFull key (holding l)
same_overread key l = (
  λ o. record {
    is_del = o.is_del;
    in_front = omega (arith, length-text l, set_length l.right o.in_line);
    full = o.full;
  },
  λ d. record {
    is_del = d.is_del;
    in_line = length_set l.right (omega (arith, length-text l, d.in_front));
    full = d.full;
  },
)
  where
    set_length : (s : CString) → is_set s ≡ true → 0 < length s
    set_length [] h = cc
    set_length (c ∷ s) h = omega arith

    length_set : (s : CString) → 0 < length s → is_set s ≡ true
    length_set [] h = elim h [ ]
    length_set (c ∷ s) h = refl

-- Wherever the loop of `read_cmd` waits for the next key, whatever keys have been pressed, `cmdbuf`
-- holds at most 1023 bytes, the cursor stands in them and the entry of the history is there; and
-- the next key reads where it must not exactly if it is KEY_DEL, in front of the end of a line of
-- 1023 bytes.
pub edit_loop-in_bounds :
    (ac_search : AcSearch) (history : List CString) (keys : List Key) (e : Editor) (key : Key)
    → edit_loop ac_search history keys new_editor ≡ waiting e
    → (length e.cmdbuf < 1024)
      × (e.offset ≤ length e.cmdbuf)
      × (e.hnum ≤ length history)
      × ((press ac_search history key e ≡ none) ↔ IsDelInFull key e)
edit_loop-in_bounds ac_search history keys e key w =
    let start : IsLine history empty_line = record {
      fits = omega arith;
      entry_there = omega arith;
    } in
    let (l, h, is_held) = waiting-HoldsLine ac_search history keys e empty_line start w in
    let (to, from) = press-none_iff ac_search history key l h in
    let (over, back) = edit-none_iff ac_search history key l h in
    let (del, read) = same_overread key l in
    rw is_held (
      omega (arith, h.fits, length-text l),
      omega (arith, length-text l),
      h.entry_there,
      (λ n. del (over (to n)), λ d. from (back (read d))),
    )
