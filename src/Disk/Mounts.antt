-- ===== src/Disk/Mounts.antt =====
-- What `mount_disk` does to the list of mounts.
use kexec_loader.Misc.Strings.{kl_streq}
use kexec_loader.Misc.Strings.Equality.{kl_streq_iff, kl_streq_refl}
use kexec_loader.Vfs.{Errno, ok}
use kexec_loader.Disk.{KlDisk, is_mounted, MountCall, mounted, mount_disk}
use kexec_loader.Base.{
  Bool-cases, CString, str, ◌≡◌, refl, sym, inl, inr, true, false, ◌||◌, Option, none, some, List,
  [], ◌∷◌, ◌++◌, append-nil, arith,
}

-- no disk stands in the list twice
abbrev pub NoneTwice : List KlDisk → Type 0
NoneTwice [] = Unit
NoneTwice (disk ∷ mounts) = (is_mounted disk.name mounts ≡ false) × NoneTwice mounts

is_mounted-append :
    (name : CString) (mounts : List KlDisk) (disk : KlDisk)
    → is_mounted name (mounts ++ disk ∷ []) ≡ is_mounted name mounts || kl_streq name disk.name
unfolding is_mounted
is_mounted-append name [] disk = ground arith
is_mounted-append name (d ∷ mounts) disk = ground (arith, is_mounted-append name mounts disk)

streq_swap : (s t : CString) → kl_streq s t ≡ false → kl_streq t s ≡ false
streq_swap s t h = ground (arith, kl_streq_iff s t, kl_streq_iff t s)

NoneTwice-append :
    (mounts : List KlDisk) (disk : KlDisk)
    → is_mounted disk.name mounts ≡ false
    → NoneTwice mounts
    → NoneTwice (mounts ++ disk ∷ [])
unfolding is_mounted
NoneTwice-append [] disk new h = (refl, tt)
NoneTwice-append (d ∷ mounts) disk new h =
    let other : kl_streq disk.name d.name ≡ false = ground arith in
    let later : is_mounted disk.name mounts ≡ false = ground arith in
    (
      rw (is_mounted-append d.name mounts disk, h.0, streq_swap disk.name d.name other) refl,
      NoneTwice-append mounts disk later h.1,
    )

-- What a call of `mount_disk` that succeeds leaves.
pub record HoldsDisk (mounts : List KlDisk) (disk : KlDisk) (after : List KlDisk) : Type 0 where
  pub none_twice : NoneTwice after
  pub holds : is_mounted disk.name after ≡ true
  pub kept : (new : List KlDisk) × (after ≡ mounts ++ new)

mounted-HoldsDisk :
    (mounts : List KlDisk) (disk : KlDisk) (after : List KlDisk) (o : Option Errno)
    → is_mounted disk.name mounts ≡ false
    → NoneTwice mounts
    → mounted mounts disk o ≡ ok after
    → HoldsDisk mounts disk after
mounted-HoldsDisk mounts disk after none new h e =
    let same : mounts ++ disk ∷ [] ≡ after = cc e in
    rw (← same) (record {
      none_twice = NoneTwice-append mounts disk new h;
      holds = rw (is_mounted-append disk.name mounts disk, kl_streq_refl disk.name, new) refl;
      kept = (disk ∷ [], refl);
    })
mounted-HoldsDisk mounts disk after (some x) new h e = absurd (cc e)

-- A call of `mount_disk` that succeeds leaves the disk in the list of mounts, keeps those that are
-- there, and never enters a disk twice.
pub mount_disk-HoldsDisk :
    (mount : MountCall) (mounts : List KlDisk) (disk : KlDisk) (after : List KlDisk)
    → NoneTwice mounts
    → mount_disk mount mounts disk ≡ ok after
    → HoldsDisk mounts disk after
unfolding mount_disk
mount_disk-HoldsDisk mount mounts disk after h e = elim (Bool-cases (is_mounted disk.name mounts)) [
  | inl there ↦
      let found : ok mounts ≡ ok after = rw there at e in
      let same : mounts ≡ after = cc found in
      rw (← same) (record { none_twice = h; holds = there; kept = ([], sym (append-nil mounts)) })
  | inr new ↦
      let called = mount (str "/dev/" ++ disk.name) (str "/mnt/" ++ disk.name) disk.fstype in
      let found : mounted mounts disk called ≡ ok after = rw new at e in
      mounted-HoldsDisk mounts disk after called new h found
]
