-- ===== src/Tests/Patterns.antt =====
-- Glob matching on concrete names.
use kexec_loader.Glob.{Flags, globcmp}
use kexec_loader.Glob.Relation.{Glob, Early, done, byte}
use kexec_loader.Glob.Decides.{globcmp_lem, globcmp_no_star_iff, globcmp_star_at_end}
use kexec_loader.Base.{str, ◌≡◌, refl, ◌↔◌, ◌⊎◌, Bool, true, false, some, ◌∷◌, ◌++◌}

-- The flags that the shell's `find` passes.
abbrev find_flags : Flags
find_flags = record { ignore_case = true; star = true; single = true; hash = false }

found : globcmp (str "vmlinuz-2.6.20") (str "*LINUZ*2?") find_flags ≡ some true
unfolding globcmp
found = refl

not_found : globcmp (str "initrd.img") (str "*linu*") find_flags ≡ some false
unfolding globcmp
not_found = refl

globcmp_lem_example :
    ((b : Bool) × (globcmp (str "a.img") (str "*.img") find_flags ≡ some b))
    × (Glob find_flags (str "*.img") (str "a.img")
        → globcmp (str "a.img") (str "*.img") find_flags ≡ some true)
    × (globcmp (str "a.img") (str "*.img") find_flags ≡ some true
        → Glob find_flags (str "*.img") (str "a.img")
          ⊎ Early find_flags (str "*.img") (str "a.img"))
globcmp_lem_example = globcmp_lem (str "a.img") (str "*.img") find_flags

globcmp_no_star_iff_example :
    (globcmp (str "ab") (str "A?") find_flags ≡ some true) ↔ Glob find_flags (str "A?") (str "ab")
globcmp_no_star_iff_example =
    globcmp_no_star_iff (str "ab") (str "A?") find_flags (refl, (refl, tt))

-- `find vmlinuz*.old` lists `vmlinuz`.
globcmp_star_at_end_example :
    globcmp (str "vm") (str "vm" ++ b'*' ∷ str ".old") find_flags ≡ some true
globcmp_star_at_end_example =
    globcmp_star_at_end (str "vm") (str "vm") (str ".old") b'*' find_flags refl (refl, (refl, tt))
      (byte refl refl (byte refl refl done))
