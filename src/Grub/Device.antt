-- ===== src/Grub/Device.antt =====
-- GRUB device names of src/grub.c: parsing, the device map and its file, and the lookup of names.
pub mod Names
pub mod Printed
pub mod Lookup
use mathlib.Core.Option
use kexec_loader.Misc.Strings.{next_value, kl_streq}
use kexec_loader.Base.{
  ◌==◌, if◌then◌else◌, take, drop, CString, str, head_byte, is_set, strcspn, strspn, strlcpy,
  is_digit, is_lower, blanks, line_ends, fgets_lines, strncmp_eq, decimal, digits_value, atoi, ℕ,
  suc, ◌+◌, ◌-◌, Bool, true, false, not, ◌&&◌, ◌||◌, Option, none, some, List, [], ◌∷◌, ◌++◌, map,
}

-- `kl_gdev`
pub record Gdev : Type 0 where
  pub type : CString
  pub p1 : CString
  pub p2 : CString
  pub p3 : CString
  pub device : CString

-- What `PARSE_TOKEN` does: return 0, return 1 with the token, or go on behind a comma.
pub data Token : Type 0 where
  bad : Token
  last : CString → Token
  more : CString → CString → Token

-- the tests behind the token
unfoldable pub token_end : Bool → CString → CString → Token
token_end true tok [] = bad
token_end false tok [] = last tok
token_end brackets tok (c ∷ src) =
    if brackets && c == b')' then last tok else if c == b',' then more tok src else bad

-- how many digits there are in front
unfoldable pub digit_span : CString → ℕ
digit_span [] = 0
digit_span (c ∷ src) = if is_digit c then suc (digit_span src) else 0

-- The loop over the digits keeps `sizeof(x) - 1` of them.
unfoldable pub digits_token : Bool → CString → Token
unfolding digit_span token_end
digits_token brackets src =
    token_end brackets (take 15 (take (digit_span src) src)) (drop (digit_span src) src)

abbrev pub msdos : CString
msdos = str "msdos"

unfoldable pub parse_token : Bool → Bool → CString → Token
parse_token brackets first src =
    if not first && is_lower (head_byte src)
    then token_end brackets (take 1 src) (drop 1 src)
    else if is_digit (head_byte src)
    then digits_token brackets src
    else if strncmp_eq src msdos 5 && is_digit (head_byte (drop 5 src))
    then digits_token brackets (drop 5 src)
    else bad

abbrev pub gdev : CString → CString → CString → CString → Gdev
gdev type p1 p2 p3 = record { type = type; p1 = p1; p2 = p2; p3 = p3; device = [] }

abbrev pub third_token : CString → CString → CString → Token → Option Gdev
third_token type p1 p2 bad = none
third_token type p1 p2 (last t) = some (gdev type p1 p2 t)
third_token type p1 p2 (more t src) = none

abbrev pub second_token : Bool → CString → CString → Token → Option Gdev
second_token brackets type p1 bad = none
second_token brackets type p1 (last t) = some (gdev type p1 t [])
second_token brackets type p1 (more t src) = third_token type p1 t (parse_token brackets false src)

abbrev pub first_token : Bool → CString → Token → Option Gdev
first_token brackets type bad = none
first_token brackets type (last t) = some (gdev type t [] [])
first_token brackets type (more t src) =
    second_token brackets type t (parse_token brackets false src)

-- behind the bracket, if there is one
unfoldable pub parse_name : Bool → CString → Option Gdev
unfolding parse_token digits_token token_end
parse_name brackets src =
    if (head_byte src == b'f' || head_byte src == b'h') && head_byte (drop 1 src) == b'd'
    then first_token brackets (strlcpy src 3) (parse_token brackets true (drop 2 src))
    else none

-- `none` is a return of 0; the callers do not read `dest` then.
unfoldable pub parse_gdev : CString → Option Gdev
unfolding parse_name
parse_gdev src =
    if head_byte src == b'(' then parse_name true (drop 1 src) else parse_name false src

-- the tests of the first loop of `lookup_gdev`
unfoldable pub maps : Gdev → Gdev → Bool
unfolding kl_streq
maps g entry =
    kl_streq g.type entry.type
    && kl_streq g.p1 entry.p1
    && (not (is_set g.p2) || kl_streq g.p2 entry.p2)
    && (not (is_set g.p3) || kl_streq g.p3 entry.p3)

-- the tests of the second loop
unfoldable pub maps_disk : Gdev → Gdev → Bool
unfolding kl_streq
maps_disk g entry = not (is_set entry.p2) && kl_streq g.type entry.type && kl_streq g.p1 entry.p1

unfoldable pub first_device : (Gdev → Bool) → List Gdev → Option CString
first_device test [] = none
first_device test (entry ∷ devmap) =
    let later = first_device test devmap in if test entry then some entry.device else later

unfoldable pub floppy : Gdev → Option CString
unfolding kl_streq
floppy g =
    if kl_streq g.type (str "fd") && is_digit (head_byte g.p1) && not (is_set g.p2)
    then some (str "fd" ++ decimal (digits_value 0 g.p1))
    else none

abbrev pub or_else : Option CString → Option CString → Option CString
or_else none o = o
or_else (some d) o = some d

-- `sprintf("%s%d", device, atoi(p2) + 1)`; the partition is made of digits there.
abbrev pub partition_of : Gdev → Option CString → Option CString
partition_of g none = none
partition_of g (some disk) = some (disk ++ decimal (digits_value 0 g.p2 + 1))

unfoldable pub whole_disk : List Gdev → Gdev → Option CString
unfolding maps_disk first_device
whole_disk devmap g =
    if not (is_digit (head_byte g.p2)) || is_set g.p3
    then none
    else partition_of g (first_device (maps_disk g) devmap)

unfoldable pub lookup_parsed : List Gdev → Gdev → Option CString
unfolding maps first_device whole_disk floppy
lookup_parsed devmap g =
    or_else (first_device (maps g) devmap) (or_else (whole_disk devmap g) (floppy g))

unfoldable pub lookup_gdev : List Gdev → CString → Option CString
unfolding parse_gdev lookup_parsed
lookup_gdev devmap dev = elim (parse_gdev dev) [ none ↦ none | some g ↦ lookup_parsed devmap g ]

-- `strlcpy(gdev.device, val, sizeof(gdev.device)); list_add_copy(&grub_devmap, …)`
unfoldable pub add_gdev : List Gdev → Gdev → CString → List Gdev
add_gdev devmap g val = devmap ++ record g { device = strlcpy val 16 } ∷ []

abbrev pub add_parsed : List Gdev → CString → Option Gdev → List Gdev
add_parsed devmap val none = devmap
add_parsed devmap val (some g) = add_gdev devmap g val

-- `name[i-1] != ')'`, and the name without that byte
unfoldable pub strip_close : CString → Option CString
strip_close [] = none
strip_close (c ∷ []) = if c == b')' then some [] else none
strip_close (c ∷ d ∷ name) = Option.map (◌∷◌ c) (strip_close (d ∷ name))

-- The name of a line behind its `(`, and its value; `none` is a syntax error.
unfoldable pub devmap_name : CString → CString → Option CString
unfolding strip_close
devmap_name [] val = none
devmap_name (c ∷ name) [] = none
devmap_name (c ∷ name) (v ∷ val) = if c == b'(' then strip_close name else none

abbrev pub add_named : List Gdev → CString → Option CString → List Gdev
add_named devmap val none = devmap
add_named devmap val (some name) = add_parsed devmap val (parse_gdev name)

-- The line up to its end, behind its first blanks and line ends, cut by `next_value`.
unfoldable pub split_line : CString → CString × CString
unfolding next_value
split_line buf =
    let line = take (strcspn buf line_ends) buf in
    next_value (drop (strspn line (line_ends ++ blanks)) line)

unfoldable pub devmap_line : List Gdev → CString → List Gdev
unfolding split_line devmap_name parse_gdev add_gdev
devmap_line devmap buf =
    let (name, val) = split_line buf in
    if not (is_set name) || head_byte name == b'#'
    then devmap
    else add_named devmap val (devmap_name name val)

unfoldable pub load_devmap_lines : List Gdev → List CString → List Gdev
unfolding devmap_line
load_devmap_lines devmap [] = devmap
load_devmap_lines devmap (buf ∷ lines) = load_devmap_lines (devmap_line devmap buf) lines

-- `vfs_fopen` gives the file's content, or NULL.
unfoldable pub load_devmap : Option CString → List Gdev → List Gdev
unfolding load_devmap_lines
load_devmap none devmap = devmap
load_devmap (some content) devmap = load_devmap_lines devmap (fgets_lines 1024 content)
