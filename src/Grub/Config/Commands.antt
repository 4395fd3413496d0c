-- ===== src/Grub/Config/Commands.antt =====
-- What the lines of a grub.cfg do to the state.
use kexec_loader.Misc.Config.{set_kernel, set_initrd, set_append, KlTarget, init_target}
use kexec_loader.Misc.Config.Block.{field_line}
use kexec_loader.Grub.Menu.{is_entry}
use kexec_loader.Grub.Config.{
  grub2_command, grub2_line, grub2_lines, Grub2, AfterLine, separators, grub2_val, is_title,
  menuentry, linux_line, initrd_line, next_line, goto_end,
}
use kexec_loader.Grub.Config.Values.{IsBare, white, is_word, split_command-field}
use kexec_loader.Base.{
  ◌==◌, if◌then◌else◌, All, CString, head_byte, is_set, strlcpy, blanks, line_ends, IsIn, IsOut,
  BeginsOut, ℕ, ◌+◌, ◌≡◌, refl, ap, ◌∙◌, Bool, true, false, not, ◌||◌, some, List, [], ◌∷◌, ◌++◌,
  arith,
}

pub lines_next :
    (lnum : ℕ) (buf : CString) (lines : List CString) (s t : Grub2)
    → grub2_line (lnum + 1) buf s ≡ next_line t
    → grub2_lines lnum (buf ∷ lines) s ≡ grub2_lines (lnum + 1) lines t
unfolding grub2_lines
lines_next lnum buf lines s t h =
    ap (λ l. elim l [ next_line u ↦ grub2_lines (lnum + 1) lines u | goto_end u ↦ u ]) h

-- An indented line does what its command does.
pub line-command :
    (lnum : ℕ) (indent : CString) (c : ℕ) (cmd args : CString) (s : Grub2)
    → All (IsIn white) indent
    → is_word (c ∷ cmd) ≡ true
    → BeginsOut blanks args
    → All (IsOut line_ends) args
    → (c == b'#') ≡ false
    → grub2_line lnum (indent ++ field_line (c ∷ cmd) args) s ≡ grub2_command lnum (c ∷ cmd) args s
unfolding grub2_line
line-command lnum indent c cmd args s h word text one_line e =
    let run : CString × CString → AfterLine = λ words.
      if head_byte words.0 == b'#' || not (is_set words.0)
      then next_line s
      else grub2_command lnum words.0 words.1 s in
    ap run (split_command-field indent c cmd args h word text one_line) ∙ rw e refl

out_blanks : (c : ℕ) → IsOut separators c → IsOut blanks c
out_blanks c h = ground arith

pub bare-BeginsOut : (val rest : CString) → IsBare val → BeginsOut blanks (val ++ rest)
bare-BeginsOut [] rest h = absurd (cc (h.set))
bare-BeginsOut (c ∷ val) rest h = let out = h.word in out_blanks c out.0

flagged :
    (b : Bool) (title : CString)
    → (if b
        then record init_target { title = title; is_default = true; reset_vga = false }
        else record init_target { title = title })
      ≡ record init_target { title = title; is_default = b }
flagged true title = refl
flagged false title = refl

-- while the entry is open
abbrev pub opened : ℕ → KlTarget → Grub2 → Grub2
opened lnum t s = record s {
  target = t;
  entry_start = lnum;
  skip_entry = false;
  cur_index = s.cur_index + 1;
}

pub menuentry-val :
    (lnum : ℕ) (args title rest : CString) (s : Grub2)
    → grub2_val args ≡ some (title, rest)
    → menuentry lnum args (record s { target = init_target })
      ≡ next_line (
          opened lnum
            (record init_target {
              title = strlcpy title 256;
              is_default = is_entry s.cur_index s.default_index || is_title s.default_title title;
            })
            s)
unfolding menuentry
menuentry-val lnum args title rest s h = rw h (
    ap (λ t. next_line (opened lnum t s))
      (flagged (is_entry s.cur_index s.default_index || is_title s.default_title title)
        (strlcpy title 256)))

pub linux-val :
    (args kernel rest : CString) (s : Grub2)
    → grub2_val args ≡ some (kernel, rest)
    → linux_line args s
      ≡ next_line (record s { target = set_append rest (set_kernel kernel s.target) })
unfolding linux_line
linux-val args kernel rest s h = rw h refl

pub initrd-val :
    (args initrd rest : CString) (s : Grub2)
    → grub2_val args ≡ some (initrd, rest)
    → initrd_line args s ≡ next_line (record s { target = set_initrd initrd s.target })
unfolding initrd_line
initrd-val args initrd rest s h = rw h refl
