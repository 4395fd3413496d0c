-- ===== src/Tests/Typing.antt =====
-- Keys that are typed, and commands that are edited.
use mathlib.Core.Option
use kexec_loader.Console.{Key, key_up, key_left, key_home, key_del, key_backspace, byte}
use kexec_loader.Console.Keys.{encode_all, stdin_has, read_keys, read_keys-encode}
use kexec_loader.Shell.Editor.{
  Editor, AcSearch, ac_text, press, edit_loop, new_editor, read_cmd, waiting,
}
use kexec_loader.Shell.Editor.Waiting.{IsDelInFull, edit_loop-in_bounds}
use kexec_loader.Shell.Editor.Sessions.{edit_all, empty_line, command, read_cmd-eq-edit_all}
use kexec_loader.Shell.Editor.Completion.{IsCommonPrefix, ac_text-longest}
use kexec_loader.Base.{
  length, CString, str, ◌≤◌, ◌<◌, ◌≡◌, refl, ◌↔◌, none, some, List, [], ◌∷◌, ◌++◌, arith,
}

abbrev typed : List Key
typed = byte b'l' ∷ byte b's' ∷ key_home ∷ []

read_keys-encode_example :
    read_keys 1 5 (record {
      getc_buf = encode_all (key_up ∷ byte b'x' ∷ []);
      input = encode_all typed ++ (9 ∷ []);
    })
    ≡ some ((key_up ∷ byte b'x' ∷ []) ++ typed, stdin_has (9 ∷ []))
read_keys-encode_example =
    read_keys-encode 0 (key_up ∷ byte b'x' ∷ []) typed (9 ∷ []) (omega arith, (omega arith, tt))
      (tt, ((refl, refl), tt)) ((refl, refl), ((refl, refl), (tt, tt)))

-- no entry completes anything
abbrev nothing : AcSearch
nothing = λ cmd offset. []

edited :
    read_cmd nothing []
      (byte b'l' ∷ byte b's' ∷ key_left ∷ key_backspace ∷ byte b'x' ∷ byte 10 ∷ key_up ∷ [])
    ≡ some (str "xs", str "xs" ∷ [], key_up ∷ [])
unfolding read_cmd
edited = refl

read_cmd-eq-edit_all_example :
    read_cmd nothing (str "disks" ∷ []) ((key_up ∷ key_home ∷ key_del ∷ []) ++ byte 10 ∷ typed)
    ≡ Option.map
        (command (str "disks" ∷ []) typed)
        (edit_all nothing (str "disks" ∷ []) (key_up ∷ key_home ∷ key_del ∷ []) empty_line)
read_cmd-eq-edit_all_example =
    read_cmd-eq-edit_all nothing (str "disks" ∷ []) (key_up ∷ key_home ∷ key_del ∷ []) typed
      (refl, (refl, (refl, tt)))

abbrev x_editor : Editor
x_editor = record { cmdbuf = str "x"; offset = 1; hnum = 0 }

x_typed : edit_loop nothing [] (byte b'x' ∷ []) new_editor ≡ waiting x_editor
unfolding edit_loop
x_typed = refl

edit_loop-in_bounds_example :
    (length x_editor.cmdbuf < 1024)
    × (x_editor.offset ≤ length x_editor.cmdbuf)
    × (x_editor.hnum ≤ length {A = CString} [])
    × ((press nothing [] key_del x_editor ≡ none) ↔ IsDelInFull key_del x_editor)
edit_loop-in_bounds_example =
    edit_loop-in_bounds nothing [] (byte b'x' ∷ []) x_editor key_del x_typed

ac_text-longest_example :
    IsCommonPrefix (ac_text (str "boot" ∷ str "bolt" ∷ [])) (str "boot" ∷ str "bolt" ∷ [])
    × (length (str "b") ≤ length (ac_text (str "boot" ∷ str "bolt" ∷ [])))
ac_text-longest_example =
    ac_text-longest (str "boot") (str "bolt" ∷ []) (str "b") (refl, (refl, tt))
