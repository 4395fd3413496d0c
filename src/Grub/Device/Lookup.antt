-- ===== src/Grub/Device/Lookup.antt =====
-- What `lookup_gdev` finds in a device map.
use kexec_loader.Grub.Device.{
  Gdev, parse_gdev, maps, first_device, lookup_parsed, lookup_gdev, add_gdev,
}
use kexec_loader.Grub.Device.Names.{IsGdev}
use kexec_loader.Grub.Device.Printed.{printed, parse_gdev-printed}
use kexec_loader.Misc.Strings.{kl_streq}
use kexec_loader.Misc.Strings.Equality.{kl_streq_iff, kl_streq_refl}
use kexec_loader.Base.{
  Bool-cases, take, All, CString, is_set, ◌≡◌, refl, ◌∙◌, ◌↔◌, ◌⊎◌, inl, inr, Bool, true, not, ◌&&◌,
  ◌||◌, some, List, [], ◌∷◌, ◌++◌, append_assoc, arith,
}

-- An entry of the map is for the disk of a device and for the parts that the device names; a device
-- that names no part is covered by an entry for any part of its disk.
pub record Covers (g entry : Gdev) : Type 0 where
  pub same_type : g.type ≡ entry.type
  pub same_disk : g.p1 ≡ entry.p1
  pub same_part : (g.p2 ≡ []) ⊎ (g.p2 ≡ entry.p2)
  pub same_subpart : (g.p3 ≡ []) ⊎ (g.p3 ≡ entry.p3)

part_iff : (p q : CString) → ((not (is_set p) || kl_streq p q) ≡ true) ↔ ((p ≡ []) ⊎ (p ≡ q))
part_iff [] q = (λ h. inl refl, λ h. refl)
part_iff (c ∷ p) q = (
  λ h. inr ((kl_streq_iff (c ∷ p) q).0 h),
  λ h. elim h [ inl e ↦ cc | inr e ↦ (kl_streq_iff (c ∷ p) q).1 e ],
)

maps-Covers : (g entry : Gdev) → maps g entry ≡ true → Covers g entry
unfolding maps
maps-Covers g entry h =
    let (kinds, disks, second, third) =
      all_four (kl_streq g.type entry.type) (kl_streq g.p1 entry.p1)
        (not (is_set g.p2) || kl_streq g.p2 entry.p2) (not (is_set g.p3) || kl_streq g.p3 entry.p3)
        h in
    record {
      same_type = (kl_streq_iff g.type entry.type).0 kinds;
      same_disk = (kl_streq_iff g.p1 entry.p1).0 disks;
      same_part = (part_iff g.p2 entry.p2).0 second;
      same_subpart = (part_iff g.p3 entry.p3).0 third;
    }
  where
    all_four :
        (a b c d : Bool)
        → (a && b && c && d) ≡ true
        → (a ≡ true) × (b ≡ true) × (c ≡ true) × (d ≡ true)
    all_four a b c d e = ground arith

first_device-skip :
    (g : Gdev) (devmap rest : List Gdev)
    → All (λ entry. ¬ Covers g entry) devmap
    → first_device (maps g) (devmap ++ rest) ≡ first_device (maps g) rest
unfolding first_device
first_device-skip g [] rest h = refl
first_device-skip g (entry ∷ devmap) rest h = elim (Bool-cases (maps g entry)) [
  | inl e ↦ absurd (h.0 (maps-Covers g entry e))
  | inr e ↦ rw e (first_device-skip g devmap rest h.1)
]

maps_self : (g : Gdev) (device : CString) → maps g (record g { device = device }) ≡ true
unfolding maps
maps_self g device =
    ground (arith, kl_streq_refl g.type, kl_streq_refl g.p1, kl_streq_refl g.p2, kl_streq_refl g.p3)

first_device-added :
    (devmap later : List Gdev) (g : Gdev) (val : CString)
    → All (λ entry. ¬ Covers g entry) devmap
    → first_device (maps g) (add_gdev devmap g val ++ later) ≡ some (take 15 val)
unfolding add_gdev
first_device-added devmap later g val h =
    let entry = record g { device = take 15 val } in
    rw (append_assoc devmap (entry ∷ []) later) (
      first_device-skip g devmap (entry ∷ later) h
      ∙ unfold first_device in rw (maps_self g (take 15 val)) refl)

lookup_parsed-found :
    (devmap : List Gdev) (g : Gdev) (d : CString)
    → first_device (maps g) devmap ≡ some d
    → lookup_parsed devmap g ≡ some d
unfolding lookup_parsed
lookup_parsed-found devmap g d h = rw h refl

lookup_gdev-parsed :
    (devmap : List Gdev) (dev : CString) (g : Gdev)
    → parse_gdev dev ≡ some g
    → lookup_gdev devmap dev ≡ lookup_parsed devmap g
unfolding lookup_gdev
lookup_gdev-parsed devmap dev g h = rw (h, lookup_gdev) refl

-- When no entry of the map is for the disk of a well-formed device and for the parts that it names,
-- the device is found, once it is added, under its name and under its name in brackets in front of
-- a path: with the first 15 bytes of what it was mapped to, whatever is added behind it.
pub lookup_gdev-add_gdev :
    (devmap later : List Gdev) (g : Gdev) (val path : CString)
    → IsGdev g
    → All (λ entry. ¬ Covers g entry) devmap
    → (lookup_gdev (add_gdev devmap g val ++ later) (printed g []) ≡ some (take 15 val))
      × (lookup_gdev (add_gdev devmap g val ++ later) (b'(' ∷ printed g (b')' ∷ path))
          ≡ some (take 15 val))
lookup_gdev-add_gdev devmap later g val path w h =
    let (plain, bracketed) = parse_gdev-printed g path w in
    let devmap' = add_gdev devmap g val ++ later in
    let found =
      lookup_parsed-found devmap' g (take 15 val) (first_device-added devmap later g val h) in
    (
      lookup_gdev-parsed devmap' (printed g []) g plain ∙ found,
      lookup_gdev-parsed devmap' (b'(' ∷ printed g (b')' ∷ path)) g bracketed ∙ found,
    )
