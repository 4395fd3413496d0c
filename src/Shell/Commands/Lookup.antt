-- ===== src/Shell/Commands/Lookup.antt =====
-- The table of commands: those with no function are the ones that shell_main handles itself.
use kexec_loader.Misc.Strings.{kl_streq}
use kexec_loader.Misc.Strings.Equality.{kl_streq_iff}
use kexec_loader.Shell.Commands.{Func, find_command}
use kexec_loader.Base.{
  Bool-cases, if_split, CString, ◌≡◌, refl, sym, ◌∙◌, inl, inr, Bool, true, false, Option, none,
  some, List, [], ◌∷◌,
}

abbrev pub is_null : Option (Option Func) → Bool
is_null none = false
is_null (some none) = true
is_null (some (some f)) = false

abbrev NotNull : Option (Option Func) → Type 0
NotNull o = is_null o ≡ false

streq_swap : (s t : CString) → kl_streq s t ≡ false → kl_streq t s ≡ false
streq_swap s t h = elim (Bool-cases (kl_streq t s)) [
  | inl e ↦ absurd (cc (sym ((kl_streq_iff s t).1 (sym ((kl_streq_iff t s).0 e))) ∙ h))
  | inr e ↦ e
]

-- The command is none of those that the table has with no function.
abbrev pub IsOther : CString → List (CString × Option Func) → Type 0
IsOther cmd [] = Unit
IsOther cmd ((name, none) ∷ table) = (kl_streq cmd name ≡ false) × IsOther cmd table
IsOther cmd ((name, some f) ∷ table) = IsOther cmd table

pub find_command-IsOther :
    (cmd : CString) (table : List (CString × Option Func))
    → IsOther cmd table
    → is_null (find_command cmd table) ≡ false
unfolding find_command
find_command-IsOther cmd [] h = refl
find_command-IsOther cmd ((name, none) ∷ table) (off, h) =
    rw (streq_swap cmd name off) (find_command-IsOther cmd table h)
find_command-IsOther cmd ((name, some f) ∷ table) h =
    if_split NotNull (kl_streq name cmd) (some (some f)) _ (λ _. refl)
      (λ _. find_command-IsOther cmd table h)
