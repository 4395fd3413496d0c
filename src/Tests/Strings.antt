-- ===== src/Tests/Strings.antt =====
-- The string functions of src/misc.c on concrete strings.
use kexec_loader.Misc.Strings.{next_value, kl_streq, kl_strins, kl_str_match_len}
use kexec_loader.Misc.Strings.Equality.{kl_streq_iff, kl_str_match_len_lem}
use kexec_loader.Misc.Strings.Splitting.{Splits, next_value-Splits, kl_strins-eq-take}
use kexec_loader.Base.{
  length, get_elem?, take, str, ◌≤◌, ◌<◌, ◌≡◌, refl, ◌≢◌, ◌↔◌, ◌⊎◌, true, ◌++◌, arith,
}

cut_directive : next_value (str "title  Debian GNU") ≡ (str "title", str "Debian GNU")
unfolding next_value
cut_directive = refl

next_value-Splits_example :
    Splits (str "root hda1") (next_value (str "root hda1")).0 (next_value (str "root hda1")).1
next_value-Splits_example = next_value-Splits (str "root hda1")

kl_streq_iff_example : (kl_streq (str "exit") (str "exits") ≡ true) ↔ (str "exit" ≡ str "exits")
kl_streq_iff_example = kl_streq_iff (str "exit") (str "exits")

match_len_runs : kl_str_match_len (str "vmlinuz") (str "vmlinux") ≡ 6
unfolding kl_str_match_len
match_len_runs = refl

inserted : kl_strins (str "ls /bt") (str "oo") 5 1024 ≡ (str "ls /boot", 4)
unfolding kl_strins
inserted = refl

kl_strins-eq-take_example :
    ((kl_strins (str "sda1") (str "LABEL=") 0 8).0
      ≡ take 0 (str "sda1") ++ take 7 (str "LABEL=" ++ str "sda1"))
    × (length (kl_strins (str "sda1") (str "LABEL=") 0 8).0 < 8)
kl_strins-eq-take_example =
    kl_strins-eq-take (str "sda1") (str "LABEL=") 0 8 (omega arith) (omega arith)

kl_str_match_len_example :
    let n = kl_str_match_len (str "ab") (str "ac") in
    (take n (str "ab") ≡ take n (str "ac"))
    × ((get_elem? (str "ab") n ≢ get_elem? (str "ac") n) ⊎ (str "ab" ≡ str "ac"))
    × (n ≤ length (str "ab"))
    × (n ≤ length (str "ac"))
kl_str_match_len_example = kl_str_match_len_lem (str "ab") (str "ac")
