-- ===== src/Tests/Archives.antt =====
-- An archive of one file.
use kexec_loader.Misc.Strings.{kl_streq_end}
use kexec_loader.Tar.{
  Bytes, c_string, octal_digits, bounded_octal, strtoul8, sum_bytes, test_checksum, is_zero_record,
  Files, is_known, extract_tar, finished,
}
use kexec_loader.Tar.Archive.{Member, IsMember, archive, Unpacks, extract_tar-archive}
use kexec_loader.Base.{
  take, str, ℕ, zero, suc, ◌≡◌, refl, true, false, some, List, [], ◌∷◌, ◌++◌, arith,
}

-- a run of zero bytes
abbrev zeros : ℕ → Bytes
zeros zero = []
zeros (suc n) = 0 ∷ zeros n

abbrev module_file : Member
module_file = record {
  header =
      str "a.ko"
      ++ (zeros 120
          ++ (str "00000000005" ++ (zeros 13 ++ (str "002256" ++ (0 ∷ (str " 0" ++ zeros 355))))));
  blocks = str "hello" ++ zeros 507;
}

module_file-IsMember : IsMember (str "/modules") module_file
unfolding test_checksum c_string strtoul8 is_zero_record sum_bytes bounded_octal octal_digits
module_file-IsMember = record {
  header_whole = refl;
  not_zero = refl;
  checksum = refl;
  named = refl;
  no_slash = refl;
  no_link = refl;
  path_fits = omega arith;
  count = 1;
  blocks_whole = refl;
  blocks_enough = omega arith;
  blocks_needed = omega arith;
}

known : is_known false (str "m.tar") ≡ true
unfolding kl_streq_end
known = refl

zero_end : is_zero_record (take 512 (zeros 512)) ≡ true
unfolding is_zero_record
zero_end = refl

-- a file that is there, in front of one that the archive has twice
abbrev there_before : Files
there_before = (str "/modules/b.ko", str "old") ∷ []

abbrev twice : List Member
twice = module_file ∷ module_file ∷ []

extract_tar-archive_example :
    (after : Files) × Unpacks (str "/modules") twice there_before after
    × (extract_tar false
          (λ path. true)
          (str "m.tar")
          (str "/modules")
          (some (archive twice (zeros 512)))
          there_before
        ≡ finished after)
extract_tar-archive_example =
    extract_tar-archive (λ path. true) (str "/modules") false (str "m.tar") twice (zeros 512)
      there_before known (module_file-IsMember, (module_file-IsMember, tt)) (omega arith) zero_end
