-- ===== src/Disk.antt =====
-- src/disk.c: which disk an id means, and the list of the disks that are mounted.
pub mod Ids
pub mod Searches
pub mod Mounts
pub mod Returned
use kexec_loader.Misc.Strings.{kl_strndup, kl_streq, kl_strneq, kl_strceq, kl_strnceq}
use kexec_loader.Vfs.{Errno, system, Outcome, ok, err, crash}
use kexec_loader.Base.{
  ◌==◌, if◌then◌else◌, length, drop, CString, str, is_set, strcspn, ℕ, zero, suc, ◌+◌, Bool, true,
  false, not, ◌&&◌, ◌||◌, Option, none, some, List, [], ◌∷◌, ◌++◌,
}

-- The fields of `kl_disk` that the code reads back; `fstype` is handed to mount(2).
pub record KlDisk : Type 0 where
  pub name : CString
  pub label : CString
  pub uuid : CString
  pub fstype : CString

abbrev pub label_prefix : CString
label_prefix = str "LABEL="

abbrev pub uuid_prefix : CString
uuid_prefix = str "UUID="

abbrev pub dev_prefix : CString
dev_prefix = str "/dev/"

-- `if(kl_strneq(id, "/dev/", 5)) { id += 5; }`
unfoldable pub skip_dev : CString → CString
unfolding kl_strneq
skip_dev id = if kl_strneq id dev_prefix 5 then drop 5 id else id

unfoldable pub compare_disk_id : KlDisk → CString → Bool
unfolding kl_strnceq kl_strceq kl_streq skip_dev
compare_disk_id disk id =
    if kl_strnceq id label_prefix 6 && is_set disk.label && kl_strceq disk.label (drop 6 id)
    then true
    else if kl_strnceq id uuid_prefix 5 && is_set disk.uuid && kl_strceq disk.uuid (drop 5 id)
    then true
    else kl_streq disk.name (skip_dev id)

unfoldable pub get_diskid : CString → CString → CString
unfolding kl_strndup
get_diskid root [] = kl_strndup root (length root)
get_diskid root (c ∷ vpath) =
    if c == b'(' then kl_strndup vpath (strcspn vpath (str ")")) else kl_strndup root (length root)

-- The scan of `mounts` for a name.
unfoldable pub is_mounted : CString → List KlDisk → Bool
unfolding kl_streq
is_mounted name [] = false
is_mounted name (disk ∷ mounts) = kl_streq name disk.name || is_mounted name mounts

-- mount(2) on a device, its mount point and a type: `none` is success, or EBUSY.
abbrev pub MountCall : Type 0
MountCall = CString → CString → CString → Option Errno

abbrev pub mounted : List KlDisk → KlDisk → Option Errno → Outcome (List KlDisk)
mounted mounts disk none = ok (mounts ++ disk ∷ [])
mounted mounts disk (some e) = err e

-- The list that `mounts` becomes. `disk->fstype` is an array, so the test of it is never met.
unfoldable pub mount_disk : MountCall → List KlDisk → KlDisk → Outcome (List KlDisk)
unfolding is_mounted
mount_disk mount mounts disk =
    if is_mounted disk.name mounts
    then ok mounts
    else mounted mounts disk
        (mount (str "/dev/" ++ disk.name) (str "/mnt/" ++ disk.name) disk.fstype)

-- The loops over `mounts` for an id.
unfoldable pub find_mount : List KlDisk → CString → Option KlDisk
unfolding compare_disk_id
find_mount [] id = none
find_mount (disk ∷ mounts) id =
    let later = find_mount mounts id in if compare_disk_id disk id then some disk else later

-- The loop that waits: whether a key was pressed in a round, and what `get_disks` finds in it.
unfoldable pub wait_disk : (ℕ → Bool) → (ℕ → Option KlDisk) → ℕ → ℕ → Option KlDisk
wait_disk key disks round zero = none
wait_disk key disks round (suc timeout) =
    let later = wait_disk key disks (round + 1) timeout in
    if key round then none else elim (disks round) [ none ↦ later | some disk ↦ some disk ]

-- `get_disks(disk_id)`, and the wait if that finds none
unfoldable pub search_disk : (ℕ → Bool) → (ℕ → Option KlDisk) → ℕ → Option KlDisk
unfolding wait_disk
search_disk key disks timeout = elim (disks 0) [
  | none ↦ wait_disk key disks 1 timeout
  | some disk ↦ some disk
]

-- The last loop, which runs off the end of the list when no disk has the id.
abbrev pub found_mount : List KlDisk → Option KlDisk → List KlDisk × Outcome KlDisk
found_mount mounts none = (mounts, crash)
found_mount mounts (some disk) = (mounts, ok disk)

abbrev pub after_mount :
    CString → List KlDisk → Outcome (List KlDisk) → List KlDisk × Outcome KlDisk
after_mount id mounts (ok after) = found_mount after (find_mount after id)
after_mount id mounts (err e) = (mounts, err e)
after_mount id mounts crash = (mounts, crash)

-- ENODEV
abbrev pub enodev : Errno
enodev = system 19

abbrev pub mount_found :
    MountCall → List KlDisk → CString → Option KlDisk → List KlDisk × Outcome KlDisk
mount_found mount mounts id none = (mounts, err enodev)
mount_found mount mounts id (some disk) = after_mount id mounts (mount_disk mount mounts disk)

abbrev pub mount_unless :
    List KlDisk × Outcome KlDisk → List KlDisk → Option KlDisk → List KlDisk × Outcome KlDisk
mount_unless otherwise mounts none = otherwise
mount_unless otherwise mounts (some disk) = (mounts, ok disk)

-- `mounts` afterwards, and the result. `timeout` is not negative.
unfoldable pub mount_by_id :
    MountCall
    → (ℕ → Bool)
    → (ℕ → Option KlDisk)
    → List KlDisk
    → CString
    → ℕ
    → List KlDisk × Outcome KlDisk
unfolding find_mount mount_disk search_disk
mount_by_id mount key disks mounts id timeout =
    mount_unless (mount_found mount mounts id (search_disk key disks timeout)) mounts
      (find_mount mounts id)
