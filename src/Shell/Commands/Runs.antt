-- ===== src/Shell/Commands/Runs.antt =====
-- Whole runs of the shell.
use kexec_loader.Misc.Strings.{next_value}
use kexec_loader.Misc.Config.Fits.{titled-Fits}
use kexec_loader.Vfs.{Vfs}
use kexec_loader.Console.{Key}
use kexec_loader.Shell.Editor.{
  Editor, AcSearch, press, Entered, is_newline, edit_loop, new_editor, Command, command_of,
  read_cmd, waiting, entered, overread,
}
use kexec_loader.Shell.Commands.{
  Shell, Made, Next, shell_line, End, then_made, shell_loop, start_shell, shell_main, again, exits,
  null_call, exited, reading, called_null,
}
use kexec_loader.Shell.Commands.Safety.{Ready, IsSafe, ReadyNext, shell_command-Ready}
use kexec_loader.Base.{
  if_split, length, All, All-append, CString, ℕ, zero, suc, ◌≤◌, ◌<◌, ◌≡◌, refl, ◌⊎◌, inl, inr,
  Bool, Option, none, some, List, [], ◌∷◌, arith,
}

-- What is left of the keys when a line has been entered.
abbrev Leaves : ℕ → Entered → Type 0
Leaves n (waiting e) = Unit
Leaves n overread = Unit
Leaves n (entered cmdbuf rest) = length rest < n

after_press-Leaves :
    (ac_search : AcSearch) (history : List CString) (keys : List Key) (n : ℕ) (o : Option Editor)
    → ((e : Editor) → Leaves n (edit_loop ac_search history keys e))
    → Leaves n (elim o [ none ↦ overread | some e ↦ edit_loop ac_search history keys e ])
after_press-Leaves ac_search history keys n none h = tt
after_press-Leaves ac_search history keys n (some e) h = h e

more-Leaves : (n : ℕ) (x : Entered) → Leaves n x → Leaves (suc n) x
more-Leaves n (waiting e) h = tt
more-Leaves n overread h = tt
more-Leaves n (entered cmdbuf rest) h = omega arith

edit_loop-Leaves :
    (ac_search : AcSearch) (history : List CString) (keys : List Key) (e : Editor)
    → Leaves (length keys) (edit_loop ac_search history keys e)
unfolding edit_loop
edit_loop-Leaves ac_search history [] e = tt
edit_loop-Leaves ac_search history (key ∷ keys) e =
    if_split (Leaves (suc (length keys))) (is_newline key) (entered e.cmdbuf keys) _
      (λ _. omega arith)
      (λ _.
        after_press-Leaves ac_search history keys (suc (length keys))
          (press ac_search history key e)
          (λ e'. more-Leaves (length keys) _ (edit_loop-Leaves ac_search history keys e')))

-- What is left of the keys when a command has been read.
abbrev Shorter : ℕ → Option Command → Type 0
Shorter n none = Unit
Shorter n (some (line, history, rest)) = length rest < n

command_of-Shorter :
    (history : List CString) (n : ℕ) (x : Entered) → Leaves n x → Shorter n (command_of history x)
command_of-Shorter history n (waiting e) h = tt
command_of-Shorter history n overread h = tt
command_of-Shorter history n (entered cmdbuf rest) h = h

read_cmd-Shorter :
    (ac_search : AcSearch) (history : List CString) (keys : List Key)
    → Shorter (length keys) (read_cmd ac_search history keys)
unfolding read_cmd
read_cmd-Shorter ac_search history keys =
    command_of-Shorter history (length keys) _ (edit_loop-Leaves ac_search history keys new_editor)

-- All calls to boot have a target that can be booted, and the run ends with `exit` or in `read_cmd`.
abbrev pub SafeRun : List Made × End → Type 0
SafeRun (made, end) = All IsSafe made × ((end ≡ exited) ⊎ (end ≡ reading))

then_made-SafeRun :
    (made : List Made) (run : List Made × End)
    → All IsSafe made
    → SafeRun run
    → SafeRun (then_made made run)
then_made-SafeRun made (rest, end) h (k, at_end) = (All-append IsSafe made rest h k, at_end)

module _ (ac_search : Vfs → AcSearch) (exists : Vfs → CString → Bool) where
  after_line-SafeRun :
      (fuel : ℕ) (rest : List Key) (next : Next)
      → ((t : Shell) → Ready t → SafeRun (shell_loop ac_search exists fuel rest t))
      → ReadyNext next
      → SafeRun (elim next [
        | again made t ↦ then_made made (shell_loop ac_search exists fuel rest t)
        | exits ↦ ([], exited)
        | null_call ↦ ([], called_null)
      ])
  after_line-SafeRun fuel rest (again made t) k (h, ready) = then_made-SafeRun made _ h (k t ready)
  after_line-SafeRun fuel rest exits k h = (tt, inl refl)
  after_line-SafeRun fuel rest null_call k h = absurd (h tt)

  after_read-SafeRun :
      (fuel : ℕ) (n : ℕ) (s : Shell) (o : Option Command)
      → n ≤ fuel
      → Ready s
      → ((rest : List Key) (t : Shell)
          → length rest < fuel
          → Ready t
          → SafeRun (shell_loop ac_search exists fuel rest t))
      → Shorter n o
      → SafeRun (elim o [
        | none ↦ ([], reading)
        | some (line, history, rest) ↦
            elim (shell_line exists line (record s { history = history })) [
              | again made t ↦ then_made made (shell_loop ac_search exists fuel rest t)
              | exits ↦ ([], exited)
              | null_call ↦ ([], called_null)
            ]
      ])
  unfolding shell_line
  after_read-SafeRun fuel n s none le ready k h = (tt, inr refl)
  after_read-SafeRun fuel n s (some (line, history, rest)) le ready k h =
      let s' : Shell = record s { history = history } in
      after_line-SafeRun fuel rest (shell_line exists line s')
        (λ t r. k rest t (omega (arith, h)) r)
        (shell_command-Ready exists (next_value line).0 (next_value line).1 s'
          (record { fits = ready.fits; same_root = ready.same_root }))

  shell_loop-SafeRun :
      (fuel : ℕ) (keys : List Key) (s : Shell)
      → length keys < fuel
      → Ready s
      → SafeRun (shell_loop ac_search exists fuel keys s)
  unfolding shell_loop
  shell_loop-SafeRun zero keys s lt ready = absurd (omega arith)
  shell_loop-SafeRun (suc fuel) keys s lt ready =
      after_read-SafeRun fuel (length keys) s (read_cmd (ac_search s.vfs) s.history keys)
        (omega arith) ready (λ rest t lt' r. shell_loop-SafeRun fuel rest t lt' r)
        (read_cmd-Shorter (ac_search s.vfs) s.history keys)

-- Whatever keys are typed, every call of `boot_target` that the shell makes has a target with a root
-- device and a kernel, whose strings fit their buffers; and the shell ends with `exit` or in a
-- `read_cmd` that does not return: it never calls a function that is NULL in the table of commands,
-- and its fuel is enough.
pub shell_main-SafeRun :
    (ac_search : Vfs → AcSearch) (exists : Vfs → CString → Bool) (v : Vfs) (keys : List Key)
    → SafeRun (shell_main ac_search exists v keys)
unfolding shell_main
shell_main-SafeRun ac_search exists v keys =
    shell_loop-SafeRun ac_search exists (suc (length keys)) keys (start_shell v) (omega arith)
      (record { fits = titled-Fits [] (omega arith); same_root = refl })
