-- ===== src/Tar.antt =====
-- extract_tar, test_checksum and tar_mkdirs of src/tar.c, on the bytes that the archive has when it
-- is decompressed. The files that it makes can be opened, written and renamed.
pub mod Blocks
pub mod Archive
use kexec_loader.Misc.Strings.{kl_streq, kl_streq_end}
use kexec_loader.Vfs.{cut_last_slash}
use kexec_loader.Base.{
  ltb, leb, ◌==◌, if◌then◌else◌, ◌>>=◌, length, take, drop, CString, str, head_byte, is_set,
  byte_in, strspn, blanks, ℕ, zero, suc, ◌+◌, ◌-◌, ◌*◌, ◌/◌, ◌%◌, ◌^◌, ◌<◌, min, Bool, true, false,
  not, ◌&&◌, ◌||◌, Option, none, some, List, [], ◌∷◌, ◌++◌,
}

abbrev pub Bytes : Type 0
Bytes = List ℕ

-- The string at the start of the bytes.
unfoldable pub c_string : Bytes → CString
c_string [] = []
c_string (c ∷ s) = let rest = c_string s in if c == 0 then [] else c ∷ rest

abbrev pub is_octal : ℕ → Bool
is_octal c = leb b'0' c && leb c b'7'

unfoldable pub octal_digits : ℕ → Bytes → ℕ
octal_digits value [] = value
octal_digits value (c ∷ s) =
    let more = octal_digits (value * 8 + (c - 48)) s in if is_octal c then more else value

-- " \t\n\v\f\r"
abbrev pub spaces : CString
spaces = 32 ∷ 9 ∷ 10 ∷ 11 ∷ 12 ∷ 13 ∷ []

-- the value of the digits in 64 bits
unfoldable pub bounded_octal : Bytes → ℕ
unfolding octal_digits
bounded_octal s = min (octal_digits 0 s) (2 ^ 64 - 1)

abbrev pub signed_octal : Bytes → ℕ
signed_octal [] = 0
signed_octal (c ∷ s) =
    if c == b'-'
    then (2 ^ 64 - bounded_octal s) % 2 ^ 64
    else if c == b'+'
    then bounded_octal s
    else bounded_octal (c ∷ s)

-- `strtoul(s, NULL, 8)`
unfoldable pub strtoul8 : Bytes → ℕ
unfolding bounded_octal
strtoul8 s = signed_octal (drop (strspn s spaces) s)

-- The offsets of `checksum`, `size` and `linkflag` in the header.
abbrev pub header_size : ℕ
header_size = 512

abbrev pub size_field : Bytes → Bytes
size_field header = drop 124 header

abbrev pub checksum_field : Bytes → Bytes
checksum_field header = drop 148 header

abbrev pub linkflag : Bytes → ℕ
linkflag header = head_byte (drop 156 header)

unfoldable pub sum_bytes : Bytes → ℕ
sum_bytes [] = 0
sum_bytes (c ∷ s) = c + sum_bytes s

-- the header with blanks for its checksum
abbrev pub with_blanks : Bytes → Bytes
with_blanks header = take 148 header ++ (str "        " ++ drop 156 header)

unfoldable pub test_checksum : Bytes → Bool
unfolding strtoul8 sum_bytes
test_checksum header =
    strtoul8 (checksum_field header) % 2 ^ 32 == sum_bytes (with_blanks header) % 2 ^ 32

-- `memcmp(&header, &zheader, sizeof(header)) == 0`
unfoldable pub is_zero_record : Bytes → Bool
is_zero_record [] = true
is_zero_record (c ∷ s) = c == 0 && is_zero_record s

-- The files that are there, with what was extracted.
abbrev pub Files : Type 0
Files = List (CString × Bytes)

unfoldable pub check_file : CString → Files → Bool
unfolding kl_streq
check_file path [] = false
check_file path ((name, content) ∷ files) = kl_streq path name || check_file path files

-- `strchr(path, '/')` and the calls behind it
abbrev pub make_parent : (CString → Bool) → CString → Option Bool → Option Bool
make_parent mkdir [] later = some true
make_parent mkdir (c ∷ path) later =
    if byte_in b'/' (c ∷ path)
    then (later >>= λ made. some (made && mkdir (c ∷ path)))
    else some (mkdir (c ∷ path))

-- `mkdir` tells whether the directory is there behind the call. `none` is a path that its buffer of
-- 128 bytes cannot hold. Each round takes a slash off, so the length is fuel enough.
unfoldable pub tar_mkdirs : (CString → Bool) → ℕ → CString → Option Bool
unfolding cut_last_slash
tar_mkdirs mkdir zero rpath = none
tar_mkdirs mkdir (suc fuel) rpath = elim (cut_last_slash rpath) [
  | none ↦ if ltb (length rpath) 128 then some true else none
  | some path ↦
      let later = tar_mkdirs mkdir fuel path in
      if ltb (length rpath) 128 then make_parent mkdir path later else none
]

-- `while(file_count < file_size)`: what is read into the file, and what is left. Each round takes a
-- byte of the size at least, so the size is fuel enough.
unfoldable pub read_data : ℕ → ℕ → Bytes → Option (Bytes × Bytes)
read_data zero left bytes = some ([], bytes)
read_data (suc fuel) left bytes =
    let later = read_data fuel (left - 512) (drop 512 bytes) in
    if left == 0
    then some ([], bytes)
    else if ltb (length bytes) 512
    then none
    else later >>= λ (content, rest). some (take (min left 512) bytes ++ content, rest)

abbrev pub add_file : CString → Bytes → Files → Files
add_file path content files = if check_file path files then files else files ++ (path, content) ∷ []

unfoldable pub ends_in_slash : CString → Bool
ends_in_slash [] = false
ends_in_slash (c ∷ []) = c == b'/'
ends_in_slash (c ∷ d ∷ s) = ends_in_slash (d ∷ s)

abbrev pub entry_path : CString → CString → CString
entry_path dest name = dest ++ (str "/" ++ name)

-- How `extract_tar` ends, with the files then: at a zero record, with `FAIL`, with `return 0`, or
-- by a read or a write out of bounds.
pub data Extracted : Type 0 where
  finished : Files → Extracted
  failed : Files → Extracted
  stopped : Files → Extracted
  out_of_bounds : Extracted
  no_fuel : Extracted

-- the header's file
unfoldable pub extract_file :
    (Bytes → Files → Extracted) → (CString → Bool) → CString → Bytes → Bytes → Files → Extracted
unfolding c_string tar_mkdirs read_data strtoul8
extract_file next mkdir dest header rest files =
    let name = c_string header in
    let path = entry_path dest name in
    let size = strtoul8 (size_field header) in
    let made = if byte_in b'/' name then tar_mkdirs mkdir (length path) path else some true in
    if leb 256 (length path) then out_of_bounds else elim made [
      | none ↦ out_of_bounds
      | some false ↦ stopped files
      | some true ↦ elim (read_data size size rest) [
        | none ↦ failed files
        | some (content, rest') ↦ next rest' (add_file path content files)
      ]
    ]

-- A round behind the read of the header.
unfoldable pub extract_round :
    (Bytes → Files → Extracted) → (CString → Bool) → CString → Bytes → Bytes → Files → Extracted
unfolding c_string extract_file test_checksum is_zero_record ends_in_slash
extract_round next mkdir dest header rest files =
    let name = c_string header in
    if is_zero_record header
    then finished files
    else if not (test_checksum header)
    then failed files
    else if not (is_set name)
    then out_of_bounds
    else if ends_in_slash name || linkflag header == b'1'
    then next rest files
    else extract_file next mkdir dest header rest files

-- Each round takes a header, so the length of the archive and one is fuel enough.
unfoldable pub extract_loop : (CString → Bool) → CString → ℕ → Bytes → Files → Extracted
unfolding extract_round
extract_loop mkdir dest zero bytes files = no_fuel
extract_loop mkdir dest (suc fuel) bytes files =
    if ltb (length bytes) header_size
    then failed files
    else extract_round (extract_loop mkdir dest fuel) mkdir dest (take header_size bytes)
        (drop header_size bytes) files

-- `kl_streq_end` in the order of the code, where lzma is built in or not
abbrev pub is_known : Bool → CString → Bool
is_known have_lzma name =
    kl_streq_end name (str ".tar")
    || (have_lzma && (kl_streq_end name (str ".tlz") || kl_streq_end name (str ".tar.lzma")))
    || kl_streq_end name (str ".tgz")
    || kl_streq_end name (str ".tar.gz")

-- `archive` is what the file has when it is decompressed, or none if it cannot be opened.
unfoldable pub extract_tar :
    Bool → (CString → Bool) → CString → CString → Option Bytes → Files → Extracted
unfolding extract_loop kl_streq_end
extract_tar have_lzma mkdir name dest none files = stopped files
extract_tar have_lzma mkdir name dest (some archive) files =
    if is_known have_lzma name
    then extract_loop mkdir dest (suc (length archive)) archive files
    else stopped files
