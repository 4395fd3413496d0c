-- ===== src/Tests/Disks.antt =====
-- Disks on concrete ids and mounts.
use kexec_loader.Vfs.{ok, crash}
use kexec_loader.Disk.{KlDisk, compare_disk_id, MountCall, mount_disk, mount_by_id}
use kexec_loader.Disk.Ids.{HasId, compare_disk_id_iff}
use kexec_loader.Disk.Returned.{Returns, mount_by_id-Returns}
use kexec_loader.Disk.Mounts.{HoldsDisk, mount_disk-HoldsDisk}
use kexec_loader.Base.{
  ◌==◌, if◌then◌else◌, CString, str, ℕ, ◌≡◌, refl, ◌↔◌, true, false, Option, none, some, [], ◌∷◌,
}

abbrev boot_disk : KlDisk
boot_disk = record { name = str "sda1"; label = str "BOOT"; uuid = []; fstype = str "ext3" }

labelled : compare_disk_id boot_disk (str "label=boot") ≡ true
unfolding compare_disk_id
labelled = refl

compare_disk_id_iff_example :
    (compare_disk_id boot_disk (str "/dev/sda1") ≡ true) ↔ HasId boot_disk (str "/dev/sda1")
compare_disk_id_iff_example = compare_disk_id_iff boot_disk (str "/dev/sda1")

abbrev mounts_all : MountCall
mounts_all = λ dev mpoint fstype. none

added : mount_disk mounts_all [] boot_disk ≡ ok (boot_disk ∷ [])
unfolding mount_disk
added = refl

mount_disk-HoldsDisk_example : HoldsDisk [] boot_disk (boot_disk ∷ [])
mount_disk-HoldsDisk_example =
    mount_disk-HoldsDisk mounts_all [] boot_disk (boot_disk ∷ []) tt added

-- An id with a file system in front: `get_disks` takes that off, `compare_disk_id` does not.
abbrev typed_id : CString
typed_id = str "ext3:sda1"

runs_off :
    mount_by_id mounts_all (λ k. false) (λ k. some boot_disk) [] typed_id 0
    ≡ (boot_disk ∷ [], crash)
unfolding mount_by_id
runs_off = refl

-- the disk turns up in the third round
abbrev late_disk : ℕ → Option KlDisk
late_disk n = if n == 2 then some boot_disk else none

waited_for :
    mount_by_id mounts_all (λ k. false) late_disk [] (str "/dev/sda1") 3
    ≡ (boot_disk ∷ [], ok boot_disk)
unfolding mount_by_id
waited_for = refl

mount_by_id-Returns_example :
    Returns mounts_all
      (λ k. false)
      late_disk
      []
      (str "/dev/sda1")
      3
      (mount_by_id mounts_all (λ k. false) late_disk [] (str "/dev/sda1") 3)
mount_by_id-Returns_example =
    mount_by_id-Returns mounts_all (λ k. false) late_disk [] (str "/dev/sda1") 3
