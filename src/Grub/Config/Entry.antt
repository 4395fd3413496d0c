-- ===== src/Grub/Config/Entry.antt =====
-- An entry of five lines is read back: title, disk by UUID, kernel, initrd and the closing brace.
use kexec_loader.Misc.Strings.{next_value, kl_streq}
use kexec_loader.Misc.Config.{set_root, set_kernel, set_initrd, set_append, KlTarget, init_target}
use kexec_loader.Misc.Config.Block.{field_line}
use kexec_loader.Grub.Menu.{is_entry}
use kexec_loader.Grub.Config.{
  grub2_command, split_command, grub2_line, grub2_lines, Grub2, separators, is_title, next_line,
}
use kexec_loader.Grub.Config.Chosen.{is_default_iff}
use kexec_loader.Grub.Config.Values.{grub2_val-quoted, IsBare, grub2_val-bare, white, word-All}
use kexec_loader.Grub.Config.Arguments.{IsId, search_line-uuid}
use kexec_loader.Grub.Config.Commands.{
  lines_next, line-command, bare-BeginsOut, opened, menuentry-val, linux-val, initrd-val,
}
use kexec_loader.Base.{
  ◌==◌, All, All-append, CString, str, is_set, strlcpy, line_ends, pos, IsIn, IsOut, BeginsOut,
  drop-strspn, ℕ, ◌+◌, ◌≡◌, refl, ap, ◌∙◌, ◌↔◌, ◌⊎◌, Bool, true, false, ◌||◌, some, List, [], ◌∷◌,
  ◌++◌, append-nil, arith,
}

-- What an entry says.
pub record Written : Type 0 where
  pub title : CString
  pub options : CString
  pub uuid : CString
  pub kernel : CString
  pub args : CString
  pub initrd : CString

-- The lines of an entry: the title in single quotes with options and a brace behind it, the disk, the
-- kernel with its arguments, and the initrd, of which
-- those inside the braces are indented.
abbrev pub entry_lines : CString → Written → List CString
entry_lines indent e =
    field_line (str "menuentry") (b'\'' ∷ (e.title ++ b'\'' ∷ (str " " ++ e.options)))
    ∷ (indent ++ field_line (str "search") (str "--fs-uuid --set=root " ++ e.uuid))
    ∷ (indent ++ field_line (str "linux") (e.kernel ++ b' ' ∷ e.args))
    ∷ (indent ++ field_line (str "initrd") e.initrd)
    ∷ str "}\n"
    ∷ []

-- The strings stand on one line; the title has no quote, the disk, the kernel and the initrd are
-- words with no separator, and the arguments and what stands behind the title begin with none.
pub record IsWritten (e : Written) : Type 0 where
  pub title_line : All (IsOut line_ends) e.title
  pub title_quote : All (λ c. (c == b'\'') ≡ false) e.title
  pub options_begin : BeginsOut separators e.options
  pub options_line : All (IsOut line_ends) e.options
  pub uuid_id : IsId e.uuid
  pub uuid_line : All (IsOut line_ends) e.uuid
  pub kernel_bare : IsBare e.kernel
  pub kernel_line : All (IsOut line_ends) e.kernel
  pub args_begin : BeginsOut separators e.args
  pub args_line : All (IsOut line_ends) e.args
  pub initrd_bare : IsBare e.initrd
  pub initrd_line : All (IsOut line_ends) e.initrd

-- The target of an entry, its strings cut to their buffers.
abbrev pub written_target : Written → Bool → KlTarget
written_target e default = record init_target {
  title = strlcpy e.title 256;
  root = strlcpy (str "UUID=" ++ e.uuid) 256;
  kernel = strlcpy e.kernel 1024;
  append = strlcpy e.args 1024;
  initrd = strlcpy e.initrd 1024;
  is_default = default;
}

-- `set default` has named the index that the entry has, or its title.
abbrev pub IsChosen : Grub2 → Written → Type 0
IsChosen s e = (s.default_index ≡ pos s.cur_index) ⊎ (s.default_title ≡ some e.title)

abbrev pub with_entry : Written → Bool → Grub2 → Grub2
with_entry e default s = record s {
  targets = s.targets ++ written_target e default ∷ [];
  target = init_target;
  entry_start = 0;
  skip_entry = false;
  cur_index = s.cur_index + 1;
}

-- the flag that the code sets
is_chosen : Grub2 → Written → Bool
is_chosen s e = is_entry s.cur_index s.default_index || is_title s.default_title e.title

module _ (indent : CString) (e : Written) (indented : All (IsIn white) indent) (h : IsWritten e)
    (s : Grub2) (lnum : ℕ) where
  title_line :
      grub2_line lnum
        (field_line (str "menuentry") (b'\'' ∷ (e.title ++ b'\'' ∷ (str " " ++ e.options))))
        (record s { target = init_target })
      ≡ next_line (
          opened lnum
            (record init_target { title = strlcpy e.title 256; is_default = is_chosen s e })
            s)
  unfolding grub2_command kl_streq is_chosen
  title_line =
      let args = b'\'' ∷ (e.title ++ b'\'' ∷ (str " " ++ e.options)) in
      let one_line : All (IsOut line_ends) args = (
        refl,
        All-append (IsOut line_ends) e.title _ h.title_line (refl, (refl, h.options_line)),
      ) in
      line-command lnum [] b'm' (str "enuentry") args (record s { target = init_target }) tt refl
        refl one_line refl
      ∙ menuentry-val lnum args e.title e.options s (
          grub2_val-quoted b'\'' e.title (str " ") e.options refl h.title_quote (refl, tt)
            h.options_begin)

  search_id_line :
      (uuid : CString)
      → IsId uuid
      → All (IsOut line_ends) uuid
      → grub2_line lnum
          (indent ++ field_line (str "search") (str "--fs-uuid --set=root " ++ uuid))
          s
        ≡ next_line (record s { target = set_root (str "UUID=" ++ uuid) s.target })
  unfolding grub2_command kl_streq
  search_id_line [] id one_line = absurd (cc (id.set))
  search_id_line (c ∷ uuid) id one_line =
      line-command lnum indent b's' (str "earch") (str "--fs-uuid --set=root " ++ (c ∷ uuid)) s
        indented refl refl
        (All-append (IsOut line_ends) (str "--fs-uuid --set=root ") (c ∷ uuid)
          (All-append (IsOut line_ends) (str "--fs-uuid") (str " --set=root ")
            (word-All (str "--fs-uuid") refl).1
            (
              refl,
              All-append (IsOut line_ends) (str "--set=root") (str " ")
                  (word-All (str "--set=root") refl).1 (refl, tt),
            ))
          one_line)
        refl
      ∙ ap next_line (search_line-uuid c uuid s id)

  kernel_line :
      grub2_line lnum (indent ++ field_line (str "linux") (e.kernel ++ b' ' ∷ e.args)) s
      ≡ next_line (record s { target = set_append e.args (set_kernel e.kernel s.target) })
  unfolding grub2_command kl_streq
  kernel_line =
      let args = e.kernel ++ b' ' ∷ e.args in
      let one_line : All (IsOut line_ends) args =
        All-append (IsOut line_ends) e.kernel _ h.kernel_line (refl, h.args_line) in
      line-command lnum indent b'l' (str "inux") args s indented refl
        (bare-BeginsOut e.kernel (b' ' ∷ e.args) h.kernel_bare) one_line refl
      ∙ linux-val args e.kernel e.args s (
          grub2_val-bare e.kernel (b' ' ∷ e.args) h.kernel_bare refl
          ∙ ap (λ r. some (e.kernel, r)) (drop-strspn separators [] e.args tt h.args_begin))

  initrd_at_end :
      grub2_line lnum (indent ++ field_line (str "initrd") e.initrd) s
      ≡ next_line (record s { target = set_initrd e.initrd s.target })
  unfolding grub2_command kl_streq
  initrd_at_end =
      line-command lnum indent b'i' (str "nitrd") e.initrd s indented refl
        (rw (append-nil e.initrd) at (bare-BeginsOut e.initrd [] h.initrd_bare)) h.initrd_line refl
      ∙ initrd-val e.initrd e.initrd [] s
          (rw (append-nil e.initrd) at (grub2_val-bare e.initrd [] h.initrd_bare tt))

root_set : (uuid : CString) → is_set (strlcpy (str "UUID=" ++ uuid) 256) ≡ true
root_set uuid = refl

kernel_set : (kernel : CString) → IsBare kernel → is_set (strlcpy kernel 1024) ≡ true
kernel_set [] h = absurd (cc (h.set))
kernel_set (c ∷ kernel) h = refl

end_line :
    (lnum n : ℕ) (t : KlTarget) (s : Grub2)
    → is_set t.root ≡ true
    → is_set t.kernel ≡ true
    → grub2_line lnum (str "}\n") (opened (n + 1) t s)
      ≡ next_line (record s {
        targets = s.targets ++ t ∷ [];
        target = init_target;
        entry_start = 0;
        skip_entry = false;
        cur_index = s.cur_index + 1;
      })
unfolding grub2_line split_command next_value grub2_command kl_streq
end_line lnum n t s root kernel =
    let started : (n + 1 == 0) ≡ false = ground arith in rw (started, root, kernel) refl

five_lines :
    (indent : CString) (e : Written) (s : Grub2) (lnum : ℕ) (rest : List CString)
    → All (IsIn white) indent
    → IsWritten e
    → s.target ≡ init_target
    → grub2_lines lnum (entry_lines indent e ++ rest) s
      ≡ grub2_lines (lnum + 5) rest (with_entry e (is_chosen s e) s)
five_lines indent e s lnum rest indented h start =
    ap (grub2_lines lnum (entry_lines indent e ++ rest)) (ap (λ t. record s { target = t }) start)
    ∙ lines_next lnum _ _ _ _ (title_line indent e indented h s (lnum + 1))
    ∙ lines_next (lnum + 1) _ _ _ _
        (search_id_line indent e indented h _ (lnum + 1 + 1) e.uuid h.uuid_id h.uuid_line)
    ∙ lines_next (lnum + 1 + 1) _ _ _ _ (kernel_line indent e indented h _ (lnum + 1 + 1 + 1))
    ∙ lines_next (lnum + 1 + 1 + 1) _ _ _ _
        (initrd_at_end indent e indented h _ (lnum + 1 + 1 + 1 + 1))
    ∙ lines_next (lnum + 1 + 1 + 1 + 1) _ _ _ _
        (end_line (lnum + 1 + 1 + 1 + 1 + 1) lnum _ s refl (kernel_set e.kernel h.kernel_bare))
    ∙ ap (λ n. grub2_lines n rest (with_entry e (is_chosen s e) s)) (omega arith)

-- From a state between two entries, the five lines of an entry, indented with blanks, add exactly
-- the target that they describe, its disk by UUID and its strings cut to their buffers, which is a
-- default target exactly if `set default` has named its index or its title; and the next lines run
-- from a state between two entries. The title has no quote, the disk, the kernel and the initrd are
-- single words, and what follows the title on its line is not read.
pub grub2_lines-entry_lines :
    (indent : CString) (e : Written) (s : Grub2) (lnum : ℕ) (rest : List CString)
    → All (IsIn white) indent
    → IsWritten e
    → s.target ≡ init_target
    → (default : Bool) × ((default ≡ true) ↔ IsChosen s e)
      × (grub2_lines lnum (entry_lines indent e ++ rest) s
          ≡ grub2_lines (lnum + 5) rest (with_entry e default s))
unfolding is_chosen
grub2_lines-entry_lines indent e s lnum rest indented h start = (
  is_chosen s e,
  is_default_iff s.cur_index s.default_index s.default_title e.title,
  five_lines indent e s lnum rest indented h start,
)
