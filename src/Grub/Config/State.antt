-- ===== src/Grub/Config/State.antt =====
-- The state of load_grub2_cfg, its values, and its commands but `search`.
use kexec_loader.Misc.Strings.{kl_streq}
use kexec_loader.Misc.Config.{set_root, set_kernel, set_initrd, set_append, KlTarget, init_target}
use kexec_loader.Grub.Menu.{is_unset, is_entry}
use kexec_loader.Base.{
  ◌==◌, if◌then◌else◌, ◌>>=◌, take, drop, CString, str, is_set, byte_in, strcspn, strspn, strlcpy,
  ℤ, atoi, negsuc, ℕ, ◌+◌, Bool, true, false, not, ◌&&◌, ◌||◌, Option, none, some, List, [], ◌∷◌,
  ◌++◌,
}

-- The globals `timeout` and `targets`, and the locals of `load_grub2_cfg`; `default_title` is the
-- string in its buffer, or none for NULL.
pub record Grub2 : Type 0 where
  pub timeout : ℤ
  pub targets : List KlTarget
  pub target : KlTarget
  pub entry_start : ℕ
  pub skip_entry : Bool
  pub default_title : Option CString
  pub default_index : ℤ
  pub cur_index : ℕ

-- How a round of the loop ends: with the next line, or with `goto END`.
pub data AfterLine : Type 0 where
  next_line : Grub2 → AfterLine
  goto_end : Grub2 → AfterLine

-- "\t ="
abbrev pub separators : CString
separators = 9 ∷ 32 ∷ b'=' ∷ []

-- the string up to a quote, and the text from the quote on; none if there is no quote
unfoldable pub up_to_quote : ℕ → CString → Option (CString × CString)
up_to_quote quote [] = none
up_to_quote quote (c ∷ s) =
    let later = up_to_quote quote s in
    if c == quote then some ([], c ∷ s) else (later >>= λ (val, rest). some (c ∷ val, rest))

-- `**next = '\0'` and what follows
abbrev pub skip_separators : CString → CString
skip_separators [] = []
skip_separators (c ∷ s) = drop (strspn s separators) s

abbrev pub is_quote : ℕ → Bool
is_quote c = c == b'\'' || c == b'"'

abbrev pub bare_val : CString → CString × CString
bare_val cur = let n = strcspn cur separators in (take n cur, skip_separators (drop n cur))

-- The strings at `*cur` and at `*next`; none is the result 0.
unfoldable pub grub2_val : CString → Option (CString × CString)
unfolding up_to_quote
grub2_val [] = some (bare_val [])
grub2_val (c ∷ cur) =
    let quoted = (up_to_quote c cur >>= λ (val, rest). some (val, skip_separators rest)) in
    if is_quote c then quoted else some (bare_val (c ∷ cur))

-- `if(!grub2_val(...)) goto END;`
abbrev pub with_val : Grub2 → Option (CString × CString) → (CString → CString → Grub2) → AfterLine
with_val s none f = goto_end s
with_val s (some (val, rest)) f = next_line (f val rest)

abbrev pub is_title : Option CString → CString → Bool
is_title none title = false
is_title (some default_title) title = kl_streq default_title title

unfoldable pub menuentry : ℕ → CString → Grub2 → AfterLine
unfolding grub2_val kl_streq
menuentry lnum args s = with_val s (grub2_val args) λ title rest.
    let t = record s.target { title = strlcpy title 256 } in
    record s {
      target =
          if is_entry s.cur_index s.default_index || is_title s.default_title title
          then record t { is_default = true; reset_vga = false }
          else t;
      entry_start = lnum;
      skip_entry = false;
      cur_index = s.cur_index + 1;
    }

-- the line `}` behind a `menuentry`
abbrev pub close_entry : Grub2 → Grub2
close_entry s = record s {
  targets =
      if not s.skip_entry && is_set s.target.root && is_set s.target.kernel
      then s.targets ++ s.target ∷ []
      else s.targets;
  target = init_target;
  entry_start = 0;
}

abbrev pub is_number : CString → Bool
is_number val = not (is_set (drop (strspn val (str "1234567890")) val))

unfoldable pub choose_default : CString → Grub2 → Grub2
choose_default val s =
    if is_number val
    then record s { default_index = atoi val; default_title = none }
    else record s {
      default_index = negsuc 0;
      default_title = if byte_in b'>' val then none else some (strlcpy val 256);
    }

unfoldable pub set_variable : CString → CString → Grub2 → Grub2
unfolding kl_streq choose_default
set_variable name val s =
    if kl_streq name (str "root")
    then record s { target = set_root val s.target }
    else if kl_streq name (str "default")
    then choose_default val s
    else if kl_streq name (str "timeout") && is_unset s.timeout
    then record s { timeout = atoi val }
    else s

unfoldable pub set_line : CString → Grub2 → AfterLine
unfolding grub2_val set_variable
set_line args s = elim (grub2_val args) [
  | none ↦ goto_end s
  | some (name, rest) ↦ with_val s (grub2_val rest) λ val more. set_variable name val s
]

unfoldable pub linux_line : CString → Grub2 → AfterLine
unfolding grub2_val
linux_line args s =
    with_val s (grub2_val args)
      λ kernel k_args. record s { target = set_append k_args (set_kernel kernel s.target) }

unfoldable pub initrd_line : CString → Grub2 → AfterLine
unfolding grub2_val
initrd_line args s =
    with_val s (grub2_val args) λ initrd rest. record s { target = set_initrd initrd s.target }
