-- ===== src/Disk/Returned.antt =====
-- What `mount_by_id` returns, and the list of mounts that it leaves.
use kexec_loader.Misc.Strings.Equality.{kl_streq_iff}
use kexec_loader.Vfs.{Errno, Outcome, system, ok, err, crash}
use kexec_loader.Disk.{
  KlDisk, compare_disk_id, is_mounted, MountCall, mounted, mount_disk, find_mount, search_disk,
  found_mount, after_mount, mount_found, mount_unless, mount_by_id,
}
use kexec_loader.Disk.Ids.{HasId, compare_disk_id_iff}
use kexec_loader.Disk.Searches.{FoundIn, search_disk-FoundIn, search_disk-none}
use kexec_loader.Base.{
  Bool-cases, All, CString, str, ℕ, ◌≡◌, refl, sym, ap, ◌∙◌, ◌↔◌, ◌⊎◌, inl, inr, Bool, true, Option,
  none, some, List, [], ◌∷◌, ◌++◌, arith,
}

abbrev pub NoneHasId : CString → List KlDisk → Type 0
NoneHasId id mounts = All (λ disk. ¬ HasId disk id) mounts

-- The first disk of the list that has the id.
pub record FirstWithId (id : CString) (mounts : List KlDisk) (disk : KlDisk) : Type 0 where
  pub before : List KlDisk
  pub behind : List KlDisk
  pub split : mounts ≡ before ++ disk ∷ behind
  pub none_before : NoneHasId id before
  pub has_id : HasId disk id

find_mount-FirstWithId :
    (mounts : List KlDisk) (id : CString) (disk : KlDisk)
    → find_mount mounts id ≡ some disk
    → FirstWithId id mounts disk
unfolding find_mount
find_mount-FirstWithId [] id disk h = absurd (cc h)
find_mount-FirstWithId (d ∷ mounts) id disk h = elim (Bool-cases (compare_disk_id d id)) [
  | inl e ↦
      let found : some d ≡ some disk = rw e at h in
      let same : d ≡ disk = cc found in
      record {
        before = [];
        behind = mounts;
        split = ap (λ x. x ∷ mounts) same;
        none_before = tt;
        has_id = rw same at ((compare_disk_id_iff d id).0 e);
      }
  | inr e ↦
      let later = find_mount-FirstWithId mounts id disk (rw e at h) in
      record {
        before = d ∷ later.before;
        behind = later.behind;
        split = ap (◌∷◌ d) later.split;
        none_before = (λ x. cc (sym e ∙ (compare_disk_id_iff d id).1 x), later.none_before);
        has_id = later.has_id;
      }
]

find_mount-NoneHasId :
    (mounts : List KlDisk) (id : CString) → find_mount mounts id ≡ none → NoneHasId id mounts
unfolding find_mount
find_mount-NoneHasId [] id h = tt
find_mount-NoneHasId (d ∷ mounts) id h = elim (Bool-cases (compare_disk_id d id)) [
  | inl e ↦ absurd (cc (rw e at h))
  | inr e ↦
      (λ x. cc (sym e ∙ (compare_disk_id_iff d id).1 x), find_mount-NoneHasId mounts id (rw e at h))
]

-- a disk of the list has the name
abbrev pub HasName : CString → List KlDisk → Type 0
HasName name [] = ⊥
HasName name (d ∷ mounts) = (name ≡ d.name) ⊎ HasName name mounts

is_mounted_iff :
    (name : CString) (mounts : List KlDisk) → (is_mounted name mounts ≡ true) ↔ HasName name mounts
unfolding is_mounted
is_mounted_iff name [] = ground arith
is_mounted_iff name (d ∷ mounts) =
    ground (arith, kl_streq_iff name d.name, is_mounted_iff name mounts)

-- The mounts are as before, or the disk was not among them and is entered behind them.
abbrev pub Entered : List KlDisk → KlDisk → List KlDisk → Type 0
Entered mounts disk after =
    (HasName disk.name mounts × (after ≡ mounts))
    ⊎ ((¬ HasName disk.name mounts) × (after ≡ mounts ++ disk ∷ []))

-- What `mount_disk` comes to.
abbrev MountedOr : MountCall → List KlDisk → KlDisk → Outcome (List KlDisk) → Type 0
MountedOr mount mounts disk (ok after) = Entered mounts disk after
MountedOr mount mounts disk (err e) =
    (¬ HasName disk.name mounts)
    × (mount (str "/dev/" ++ disk.name) (str "/mnt/" ++ disk.name) disk.fstype ≡ some e)
MountedOr mount mounts disk crash = ⊥

mount_disk-MountedOr :
    (mount : MountCall) (mounts : List KlDisk) (disk : KlDisk)
    → MountedOr mount mounts disk (mount_disk mount mounts disk)
unfolding mount_disk
mount_disk-MountedOr mount mounts disk = elim (Bool-cases (is_mounted disk.name mounts)) [
  | inl there ↦ rw there (inl ((is_mounted_iff disk.name mounts).0 there, refl))
  | inr new ↦ rw new (
      called (λ x. cc (sym new ∙ (is_mounted_iff disk.name mounts).1 x))
        (mount (str "/dev/" ++ disk.name) (str "/mnt/" ++ disk.name) disk.fstype) refl)
]
  where
    called :
        ¬ HasName disk.name mounts
        → (o : Option Errno)
        → mount (str "/dev/" ++ disk.name) (str "/mnt/" ++ disk.name) disk.fstype ≡ o
        → MountedOr mount mounts disk (mounted mounts disk o)
    called new none e = inr (new, refl)
    called new (some x) e = (new, e)

module _ (mount : MountCall) (key : ℕ → Bool) (disks : ℕ → Option KlDisk) (mounts : List KlDisk)
    (id : CString) (timeout : ℕ) where
  -- The cases of what `mount_by_id` leaves and returns.
  abbrev pub Returns : List KlDisk × Outcome KlDisk → Type 0
  Returns (after, ok disk) =
      FirstWithId id after disk
      × ((after ≡ mounts)
          ⊎ (NoneHasId id mounts
              × ((d : KlDisk) × FoundIn key disks timeout d × Entered mounts d after)))
  Returns (after, err e) =
      NoneHasId id mounts
      × (after ≡ mounts)
      × (((¬ ((d : KlDisk) × FoundIn key disks timeout d)) × (e ≡ system 19))
          ⊎ ((d : KlDisk) × FoundIn key disks timeout d
              × (mount (str "/dev/" ++ d.name) (str "/mnt/" ++ d.name) d.fstype ≡ some e)))
  Returns (after, crash) =
      NoneHasId id mounts
      × NoneHasId id after
      × ((d : KlDisk) × FoundIn key disks timeout d × Entered mounts d after)

  found_mount-Returns :
      (disk : KlDisk) (after : List KlDisk) (o : Option KlDisk)
      → NoneHasId id mounts
      → FoundIn key disks timeout disk
      → Entered mounts disk after
      → find_mount after id ≡ o
      → Returns (found_mount after o)
  found_mount-Returns disk after none h f k e = (h, find_mount-NoneHasId after id e, (disk, f, k))
  found_mount-Returns disk after (some d) h f k e =
      (find_mount-FirstWithId after id d e, inr (h, (disk, f, k)))

  after_mount-Returns :
      (disk : KlDisk) (r : Outcome (List KlDisk))
      → NoneHasId id mounts
      → FoundIn key disks timeout disk
      → MountedOr mount mounts disk r
      → Returns (after_mount id mounts r)
  after_mount-Returns disk (ok after) h f k =
      found_mount-Returns disk after (find_mount after id) h f k refl
  after_mount-Returns disk (err x) h f k = (h, refl, inr (disk, f, k.1))
  after_mount-Returns disk crash h f k = absurd k

  mount_found-Returns :
      (o : Option KlDisk)
      → NoneHasId id mounts
      → search_disk key disks timeout ≡ o
      → Returns (mount_found mount mounts id o)
  mount_found-Returns none h e =
      (h, refl, inl (λ (d, f). search_disk-none key disks timeout d e f, refl))
  mount_found-Returns (some disk) h e =
      after_mount-Returns disk (mount_disk mount mounts disk) h
        (search_disk-FoundIn key disks timeout disk e) (mount_disk-MountedOr mount mounts disk)

  mount_unless-Returns :
      (o : Option KlDisk)
      → find_mount mounts id ≡ o
      → Returns
          (mount_unless (mount_found mount mounts id (search_disk key disks timeout)) mounts o)
  mount_unless-Returns none e =
      mount_found-Returns (search_disk key disks timeout) (find_mount-NoneHasId mounts id e) refl
  mount_unless-Returns (some disk) e = (find_mount-FirstWithId mounts id disk e, inl refl)

  -- With a timeout that is not negative, `mount_by_id` returns the first of the mounts that has the
  -- id, when there is one, with the mounts unchanged. Else it takes the disk that `get_disks` finds
  -- in the first round in which it finds one, if there is such a round within the timeout and no key
  -- is pressed in the rounds of the wait up to it, and enters it behind the mounts if its name is not
  -- among them: it then returns the first of the mounts that has the id, and runs off the end of the
  -- list if still none has it. With no disk found it fails with ENODEV, and where mount(2) fails,
  -- with its error; the mounts are then unchanged.
  pub mount_by_id-Returns : Returns (mount_by_id mount key disks mounts id timeout)
  unfolding mount_by_id
  mount_by_id-Returns = mount_unless-Returns (find_mount mounts id) refl
