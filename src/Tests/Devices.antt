-- ===== src/Tests/Devices.antt =====
-- GRUB device names on concrete names.
use kexec_loader.Misc.Strings.{kl_streq}
use kexec_loader.Misc.Strings.Equality.{kl_streq_iff}
use kexec_loader.Grub.Device.{Gdev, gdev, parse_gdev, lookup_gdev, add_gdev}
use kexec_loader.Grub.Device.Names.{IsNumber, IsGdev, parse_gdev-IsGdev}
use kexec_loader.Grub.Device.Printed.{printed, parse_gdev-printed, parse_gdev-msdos}
use kexec_loader.Grub.Device.Lookup.{Covers, lookup_gdev-add_gdev}
use kexec_loader.Base.{
  take, CString, str, ◌≡◌, refl, inl, inr, none, some, List, [], ◌∷◌, ◌++◌, arith,
}

abbrev zero_digit : CString
zero_digit = str "0"

zero_digit-IsNumber : IsNumber zero_digit
zero_digit-IsNumber = record { set = refl; digits = (refl, tt); fits = omega arith }

abbrev second_partition : Gdev
second_partition = gdev (str "hd") zero_digit (str "0") []

second_partition-IsGdev : IsGdev second_partition
second_partition-IsGdev = record {
  type_is = inr refl;
  p1_is = zero_digit-IsNumber;
  p2_is = inr (inl zero_digit-IsNumber);
  p3_is = inl refl;
  in_order = λ e. refl;
  no_device = refl;
}

parsed : parse_gdev (str "(hd0,0)/boot") ≡ some second_partition
unfolding parse_gdev
parsed = refl

parse_gdev-IsGdev_example : IsGdev second_partition
parse_gdev-IsGdev_example = parse_gdev-IsGdev (str "(hd0,0)/boot") parsed

parse_gdev-printed_example :
    (parse_gdev (printed second_partition []) ≡ some second_partition)
    × (parse_gdev (b'(' ∷ printed second_partition (b')' ∷ str "/boot")) ≡ some second_partition)
parse_gdev-printed_example =
    parse_gdev-printed second_partition (str "/boot") second_partition-IsGdev

parse_gdev-msdos_example :
    (parse_gdev (str "hd" ++ (zero_digit ++ (b',' ∷ (str "msdos" ++ str "1")))) ≡ none)
    × (parse_gdev (str "(hd" ++ (zero_digit ++ (b',' ∷ (str "msdos" ++ str "1")))) ≡ none)
parse_gdev-msdos_example = parse_gdev-msdos zero_digit (str "1") zero_digit-IsNumber

-- a map that has the first partition of the disk
abbrev first_mapped : List Gdev
first_mapped = add_gdev [] (gdev (str "hd") zero_digit (str "1") []) (str "sda2")

not_covered :
    ¬ Covers second_partition
      (record (gdev (str "hd") zero_digit (str "1") []) { device = str "sda2" })
unfolding kl_streq
not_covered c = elim (c.same_part) [
  | inl e ↦ cc
  | inr e ↦ cc ((kl_streq_iff (str "0") (str "1")).1 e)
]

lookup_gdev-add_gdev_example :
    (lookup_gdev
        (add_gdev first_mapped second_partition (str "sda1") ++ [])
        (printed second_partition [])
      ≡ some (take 15 (str "sda1")))
    × (lookup_gdev
          (add_gdev first_mapped second_partition (str "sda1") ++ [])
          (b'(' ∷ printed second_partition (b')' ∷ str "/boot"))
        ≡ some (take 15 (str "sda1")))
unfolding add_gdev
lookup_gdev-add_gdev_example =
    lookup_gdev-add_gdev first_mapped [] second_partition (str "sda1") (str "/boot")
      second_partition-IsGdev (not_covered, tt)
