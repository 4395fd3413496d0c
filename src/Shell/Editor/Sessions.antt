-- ===== src/Shell/Editor/Sessions.antt =====
-- A command is what is left of a line when all keys in front of the newline have edited it.
use mathlib.Core.Option
use kexec_loader.Console.{Key, byte}
use kexec_loader.Shell.Editor.{
  AcSearch, press, Entered, is_newline, edit_loop, add_history, Command, command_of, read_cmd,
  entered, overread,
}
use kexec_loader.Shell.Editor.Line.{Line, text, edit, holding}
use kexec_loader.Shell.Editor.Refines.{press-edit}
use kexec_loader.Shell.Editor.Bounds.{IsLine, edit-Keeps}
use kexec_loader.Base.{
  ◌>>=◌, drop, All, CString, str, strspn, ◌≡◌, refl, ap, ◌∙◌, false, Option, none, some, List, [],
  ◌∷◌, ◌++◌, arith,
}

-- the keys in front of the newline
abbrev pub NoNewline : List Key → Type 0
NoNewline keys = All (λ key. is_newline key ≡ false) keys

-- All keys edit the line, in order.
unfoldable pub edit_all : AcSearch → List CString → List Key → Line → Option Line
unfolding edit
edit_all ac_search history [] l = some l
edit_all ac_search history (key ∷ keys) l =
    edit ac_search history key l >>= edit_all ac_search history keys

abbrev pub empty_line : Line
empty_line = record { left = []; right = []; entry = 0 }

-- the command that a line is, with the history it leaves
abbrev pub command : List CString → List Key → Line → Command
command history rest l =
    (drop (strspn (text l) (str " ")) (text l), add_history (text l) history, rest)

enter : List Key → Option Line → Entered
enter rest none = overread
enter rest (some l) = entered (text l) rest

module _ (ac_search : AcSearch) (history : List CString) where
  loop_next :
      (key : Key) (keys rest : List Key) (l : Line) (o : Option Line)
      → edit ac_search history key l ≡ o
      → IsLine history l
      → is_newline key ≡ false
      → ((m : Line)
          → IsLine history m
          → edit_loop ac_search history (keys ++ byte 10 ∷ rest) (holding m)
            ≡ enter rest (edit_all ac_search history keys m))
      → edit_loop ac_search history ((key ∷ keys) ++ byte 10 ∷ rest) (holding l)
        ≡ enter rest (o >>= edit_all ac_search history keys)
  unfolding edit_loop enter
  loop_next key keys rest l none e h k ih =
      let p : press ac_search history key (holding l) ≡ none =
        press-edit ac_search history key l h.fits ∙ ap (Option.map holding) e in
      rw (k, p) refl
  loop_next key keys rest l (some m) e h k ih =
      let p : press ac_search history key (holding l) ≡ some (holding m) =
        press-edit ac_search history key l h.fits ∙ ap (Option.map holding) e in
      let kept : IsLine history m = rw e at (edit-Keeps ac_search history key l h) in
      rw (k, p) (ih m kept)

  edit_loop-edit_all :
      (keys rest : List Key) (l : Line)
      → NoNewline keys
      → IsLine history l
      → edit_loop ac_search history (keys ++ byte 10 ∷ rest) (holding l)
        ≡ enter rest (edit_all ac_search history keys l)
  unfolding edit_loop edit_all enter
  edit_loop-edit_all [] rest l h k = refl
  edit_loop-edit_all (key ∷ keys) rest l h k =
      loop_next key keys rest l (edit ac_search history key l) refl k h.0
        (λ m kept. edit_loop-edit_all keys rest m h.1 kept)

command_of-enter :
    (history : List CString) (rest : List Key) (o : Option Line)
    → command_of history (enter rest o) ≡ Option.map (command history rest) o
unfolding enter
command_of-enter history rest none = refl
command_of-enter history rest (some l) = refl

-- `read_cmd` returns exactly what the keys in front of the newline make of an empty line that has a
-- cursor, with its leading blanks cut off, and leaves the keys behind the newline.
pub read_cmd-eq-edit_all :
    (ac_search : AcSearch) (history : List CString) (keys rest : List Key)
    → NoNewline keys
    → read_cmd ac_search history (keys ++ byte 10 ∷ rest)
      ≡ Option.map (command history rest) (edit_all ac_search history keys empty_line)
unfolding read_cmd
read_cmd-eq-edit_all ac_search history keys rest h =
    let start : IsLine history empty_line = record {
      fits = omega arith;
      entry_there = omega arith;
    } in
    ap (command_of history) (edit_loop-edit_all ac_search history keys rest empty_line h start)
    ∙ command_of-enter history rest (edit_all ac_search history keys empty_line)
