-- ===== src/Tar/Archive.antt =====
-- An archive of files is unpacked.
use kexec_loader.Tar.{
  Bytes, c_string, strtoul8, size_field, linkflag, test_checksum, is_zero_record, Files, check_file,
  add_file, ends_in_slash, Extracted, extract_file, extract_round, extract_loop, is_known,
  extract_tar, finished,
}
use kexec_loader.Misc.Strings.Equality.{kl_streq_iff}
use kexec_loader.Tar.Blocks.{read_data-blocks}
use kexec_loader.Base.{
  ltb, leb, ◌==◌, Bool-cases, length, take, drop, All, length-append, drop-append, take-append,
  CString, str, is_set, byte_in, ℕ, zero, suc, ◌+◌, ◌*◌, ◌≤◌, ◌<◌, ◌≡◌, refl, sym, ap₂, ◌∙◌, ◌↔◌,
  ◌⊎◌, inl, inr, Bool, true, false, some, List, [], ◌∷◌, ◌++◌, arith,
}

-- A header and the blocks of its file.
pub record Member : Type 0 where
  pub header : Bytes
  pub blocks : Bytes

abbrev pub member_size : Member → ℕ
member_size m = strtoul8 (size_field m.header)

abbrev pub member_path : CString → Member → CString
member_path dest m = dest ++ (str "/" ++ c_string m.header)

-- The header is valid and names a file that is no link and in no other directory, with a path that fits;
-- and the blocks are those that its size asks for.
pub record IsMember (dest : CString) (m : Member) : Type 0 where
  pub header_whole : length m.header ≡ 512
  pub not_zero : is_zero_record m.header ≡ false
  pub checksum : test_checksum m.header ≡ true
  pub named : is_set (c_string m.header) ≡ true
  pub no_slash : byte_in b'/' (c_string m.header) ≡ false
  pub no_link : (linkflag m.header == b'1') ≡ false
  pub path_fits : length (member_path dest m) < 256
  pub count : ℕ
  pub blocks_whole : length m.blocks ≡ count * 512
  pub blocks_enough : member_size m ≤ length m.blocks
  pub blocks_needed : length m.blocks < member_size m + 512

abbrev pub archive : List Member → Bytes → Bytes
archive [] end = end
archive (m ∷ members) end = m.header ++ (m.blocks ++ archive members end)

abbrev pub member_file : CString → Member → CString × Bytes
member_file dest m = (member_path dest m, take (member_size m) m.blocks)

-- a file has the path
abbrev pub IsThere : CString → Files → Type 0
IsThere path [] = ⊥
IsThere path ((name, content) ∷ files) = (name ≡ path) ⊎ IsThere path files

-- What unpacking members makes of the files: a member whose path no file has is added behind them,
-- and one whose path a file has changes nothing.
pub data Unpacks (dest : CString) : List Member → Files → Files → Type 0 where
  all_done : {files : Files} → Unpacks dest [] files files
  adds :
      {m : Member} {members : List Member} {files after : Files}
      → ¬ IsThere (member_path dest m) files
      → Unpacks dest members (files ++ member_file dest m ∷ []) after
      → Unpacks dest (m ∷ members) files after
  keeps :
      {m : Member} {members : List Member} {files after : Files}
      → IsThere (member_path dest m) files
      → Unpacks dest members files after
      → Unpacks dest (m ∷ members) files after

check_file_iff :
    (path : CString) (files : Files) → (check_file path files ≡ true) ↔ IsThere path files
unfolding check_file
check_file_iff path [] = ground arith
check_file_iff path ((name, content) ∷ files) =
    ground (arith, kl_streq_iff path name, check_file_iff path files)

no_slash_end : (name : CString) → byte_in b'/' name ≡ false → ends_in_slash name ≡ false
unfolding ends_in_slash
no_slash_end [] h = refl
no_slash_end (c ∷ []) h = ground arith
no_slash_end (c ∷ d ∷ s) h = no_slash_end (d ∷ s) (ground arith)

fits_path : (n : ℕ) → n < 256 → leb 256 n ≡ false
fits_path n h = ground arith

long_enough : (n : ℕ) → 512 ≤ n → ltb n 512 ≡ false
long_enough n h = ground arith

take_whole : (xs ys : Bytes) → length xs ≡ 512 → take 512 (xs ++ ys) ≡ xs
take_whole xs ys h = rw (sym h) (take-append xs ys)

drop_whole : (xs ys : Bytes) → length xs ≡ 512 → drop 512 (xs ++ ys) ≡ ys
drop_whole xs ys h = rw (sym h) (drop-append xs ys)

-- The files when every member has been added, as `add_file` adds it.
unpacked : CString → List Member → Files → Files
unpacked dest [] files = files
unpacked dest (m ∷ members) files =
    unpacked dest members (add_file (member_path dest m) (take (member_size m) m.blocks) files)

unpacked-Unpacks :
    (dest : CString) (members : List Member) (files : Files)
    → Unpacks dest members files (unpacked dest members files)
unfolding unpacked
unpacked-Unpacks dest [] files = all_done
unpacked-Unpacks dest (m ∷ members) files =
    let (there, back) = check_file_iff (member_path dest m) files in
    elim (Bool-cases (check_file (member_path dest m) files)) [
      | inl e ↦ rw e (keeps (there e) (unpacked-Unpacks dest members files))
      | inr e ↦ rw e (
          adds (λ x. cc (back x))
            (unpacked-Unpacks dest members (files ++ member_file dest m ∷ [])))
    ]

module _ (mkdir : CString → Bool) (dest : CString) where
  extract_file-member :
      (next : Bytes → Files → Extracted) (m : Member) (rest : Bytes) (files : Files)
      → IsMember dest m
      → extract_file next mkdir dest m.header (m.blocks ++ rest) files
        ≡ next rest (add_file (member_path dest m) (take (member_size m) m.blocks) files)
  unfolding extract_file
  extract_file-member next m rest files h =
      let read =
        read_data-blocks (member_size m) h.count (member_size m) m.blocks rest h.blocks_whole
          h.blocks_enough h.blocks_needed (omega arith) in
      let fits : leb 256 (length (member_path dest m)) ≡ false =
        fits_path (length (member_path dest m)) h.path_fits in
      rw (fits, h.no_slash, read) refl

  extract_round-member :
      (next : Bytes → Files → Extracted) (m : Member) (rest : Bytes) (files : Files)
      → IsMember dest m
      → extract_round next mkdir dest m.header (m.blocks ++ rest) files
        ≡ next rest (add_file (member_path dest m) (take (member_size m) m.blocks) files)
  unfolding extract_round
  extract_round-member next m rest files h =
      rw (h.not_zero, h.checksum, h.named, no_slash_end (c_string m.header) h.no_slash, h.no_link)
        (extract_file-member next m rest files h)

  extract_loop-round :
      (fuel : ℕ) (header rest : Bytes) (files : Files)
      → length header ≡ 512
      → extract_loop mkdir dest (suc fuel) (header ++ rest) files
        ≡ extract_round (extract_loop mkdir dest fuel) mkdir dest header rest files
  unfolding extract_loop
  extract_loop-round fuel header rest files h =
      let whole : ltb (length (header ++ rest)) 512 ≡ false =
        long_enough (length (header ++ rest)) (omega (arith, length-append header rest, h)) in
      rw whole (
        ap₂ (λ x y. extract_round (extract_loop mkdir dest fuel) mkdir dest x y files)
          (take_whole header rest h) (drop_whole header rest h))

  extract_loop-archive :
      (fuel : ℕ) (members : List Member) (end : Bytes) (files : Files)
      → All (IsMember dest) members
      → 512 ≤ length end
      → is_zero_record (take 512 end) ≡ true
      → length members < fuel
      → extract_loop mkdir dest fuel (archive members end) files
        ≡ finished (unpacked dest members files)
  unfolding extract_loop extract_round unpacked
  extract_loop-archive zero members end files h long zero_end enough = absurd (omega arith)
  extract_loop-archive (suc fuel) [] end files h long zero_end enough =
      rw (long_enough (length end) long, zero_end) refl
  extract_loop-archive (suc fuel) (m ∷ members) end files (h, hs) long zero_end enough =
      extract_loop-round fuel m.header (m.blocks ++ archive members end) files h.header_whole
      ∙ extract_round-member (extract_loop mkdir dest fuel) m (archive members end) files h
      ∙ extract_loop-archive fuel members end _ hs long zero_end (omega arith)

  archive_long :
      (members : List Member) (end : Bytes)
      → All (IsMember dest) members
      → length members ≤ length (archive members end)
  archive_long [] end h = omega arith
  archive_long (m ∷ members) end (h, hs) = omega (
    arith,
    archive_long members end hs,
    h.header_whole,
    length-append m.header (m.blocks ++ archive members end),
    length-append m.blocks (archive members end),
  )

  -- An archive with a known extension, of members whose headers are valid, that are no links and in no
  -- directory of their own, with a zero record behind them, is unpacked to the end: each member in
  -- turn is added behind the files, with its path below `dest` and the bytes that its size tells of
  -- its blocks, if no file has that path, and changes nothing if a file has it.
  pub extract_tar-archive :
      (have_lzma : Bool) (name : CString) (members : List Member) (end : Bytes) (files : Files)
      → is_known have_lzma name ≡ true
      → All (IsMember dest) members
      → 512 ≤ length end
      → is_zero_record (take 512 end) ≡ true
      → (after : Files) × Unpacks dest members files after
        × (extract_tar have_lzma mkdir name dest (some (archive members end)) files
            ≡ finished after)
  unfolding extract_tar
  extract_tar-archive have_lzma name members end files known h long zero_end = (
    unpacked dest members files,
    unpacked-Unpacks dest members files,
    rw known (
        extract_loop-archive (suc (length (archive members end))) members end files h long zero_end
          (omega (arith, archive_long members end h))),
  )
