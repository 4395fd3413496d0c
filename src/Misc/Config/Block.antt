-- ===== src/Misc/Config/Block.antt =====
-- The block of lines that describes a target.
use kexec_loader.Misc.Config.{KlModule, KlTarget}
use kexec_loader.Base.{
  All, CString, str, is_set, blanks, line_ends, IsOut, BeginsOut, ◌≡◌, ◌⊎◌, Bool, true, false, List,
  [], ◌∷◌, ◌++◌, map,
}

-- a value of a directive: on one line, with no blanks in front
pub record IsText (val : CString) : Type 0 where
  pub set : is_set val ≡ true
  pub begins : BeginsOut blanks val
  pub one_line : All (IsOut line_ends) val

abbrev pub IsTextOrNone : CString → Type 0
IsTextOrNone val = (val ≡ []) ⊎ IsText val

pub record IsModule (m : KlModule) : Type 0 where
  pub name_set : is_set m.name ≡ true
  pub name_word : All (IsOut blanks) m.name
  pub name_line : All (IsOut line_ends) m.name
  pub args_text : IsTextOrNone m.args

pub record IsTarget (t : KlTarget) : Type 0 where
  pub title_text : IsText t.title
  pub root_text : IsText t.root
  pub kernel_text : IsText t.kernel
  pub initrd_text : IsTextOrNone t.initrd
  pub cmdline_text : IsTextOrNone t.cmdline
  pub append_text : IsTextOrNone t.append
  pub modules_are : All IsModule t.modules

abbrev pub field_line : CString → CString → CString
field_line key val = (key ++ b' ' ∷ val) ++ str "\n"

abbrev pub optional : CString → CString → List CString
optional key [] = []
optional key (c ∷ val) = field_line key (c ∷ val) ∷ []

abbrev pub flag_line : CString → Bool → List CString
flag_line line true = line ∷ []
flag_line line false = []

-- the arguments behind a module's name
abbrev pub args_part : CString → CString
args_part [] = []
args_part (c ∷ args) = b' ' ∷ c ∷ args

abbrev pub module_line : KlModule → CString
module_line m = field_line (str "module") (m.name ++ args_part m.args)

-- the lines behind the title
abbrev pub block_body : KlTarget → List CString
block_body t =
    field_line (str "root") t.root
    ∷ field_line (str "kernel") t.kernel
    ∷ (optional (str "initrd") t.initrd
        ++ (optional (str "cmdline") t.cmdline
            ++ (optional (str "append") t.append
                ++ (flag_line (str "default\n") t.is_default
                    ++ (flag_line (str "reset-vga\n") t.reset_vga ++ map module_line t.modules)))))

-- The block that describes a target.
abbrev pub block : KlTarget → List CString
block t = field_line (str "title") t.title ∷ block_body t
