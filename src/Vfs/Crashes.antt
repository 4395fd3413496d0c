-- ===== src/Vfs/Crashes.antt =====
-- When `vfs_translate_path` reads or writes where it must not: in `disk_buf`, or in `mount_by_id`.
use kexec_loader.Misc.Strings.{kl_streq, kl_strneq}
use kexec_loader.Misc.Strings.Equality.{kl_streq_iff, kl_strneq_iff}
use kexec_loader.Vfs.{
  Vfs, Outcome, Mount, ◌>>=!◌, disk_root, device_part, real_path, nojail, jail_string, on_disk,
  on_device, vfs_translate_path, ok, err, crash,
}
use kexec_loader.Base.{
  ltb, Bool-cases, length, take, drop, take-append-drop, CString, str, is_set, ◌≡◌, refl, sym, ap,
  ◌∙◌, ◌≢◌, ◌↔◌, ◌⊎◌, inl, inr, true, false, Option, none, some, [], ◌∷◌, ◌++◌, arith,
}
use kexec_loader.Vfs.Translate.{real_path-eq-normal, kl_streq-ne}
use kexec_loader.Vfs.Devices.{
  LongDevice, DeviceOf, device_part-split, device_part-cases, device_part-DeviceOf,
}

-- The name that is left of a device without its `nojail,`.
abbrev pub NameOf : CString → CString → Type 0
NameOf dev name =
    (dev ≡ str "nojail," ++ name)
    ⊎ ((take 7 dev ≢ str "nojail,") × (is_set dev ≡ true) × (dev ≡ name))

-- The device of the path is one to be mounted, and `mount_by_id` on it reads out of bounds.
pub record MountCrashes (mount : Mount) (v : Vfs) (path_in : CString) : Type 0 where
  pub dev : CString
  pub name : CString
  pub device : DeviceOf v.vfs_root path_in dev
  pub named : NameOf dev name
  pub not_debug : name ≢ str "debug"
  pub not_rootfs : name ≢ str "rootfs"
  pub crashes : mount name ≡ crash

bind_crash {ℓ κ} :
    {A : Type ℓ} {B : Type κ} (r : Outcome A) (f : A → B)
    → (r >>=! λ a. ok (f a)) ≡ crash
    → r ≡ crash
bind_crash (ok a) f e = absurd (cc e)
bind_crash (err x) f e = absurd (cc e)
bind_crash crash f e = refl

streq_ne : (s t : CString) → kl_streq s t ≡ false → s ≢ t
streq_ne s t h e = cc ((kl_streq_iff s t).1 e)

-- a device that is mounted, by a call that reads out of bounds
abbrev CallCrashes : Mount → CString → Type 0
CallCrashes mount name = (name ≢ str "debug") × (name ≢ str "rootfs") × (mount name ≡ crash)

disk_root-crash :
    (mount : Mount) (name : CString)
    → disk_root mount name ≡ crash
    → (name ≢ str "rootfs") × (mount name ≡ crash)
unfolding disk_root
disk_root-crash mount name h = elim (Bool-cases (kl_streq name (str "rootfs"))) [
  | inl e ↦ absurd (cc (rw e at h))
  | inr e ↦ (streq_ne name (str "rootfs") e, bind_crash (mount name) _ (rw e at h))
]

on_disk-crash :
    (mount : Mount) (name jail p : CString)
    → on_disk mount name jail p ≡ crash
    → CallCrashes mount name
unfolding on_disk
on_disk-crash mount name jail p h = elim (Bool-cases (kl_streq name (str "debug"))) [
  | inl e ↦ absurd (cc (rw e at h))
  | inr e ↦
      let at_root : real_path mount name jail p ≡ crash = rw e at h in
      let called =
        bind_crash (disk_root mount name) _
          (sym (real_path-eq-normal mount name jail p) ∙ at_root) in
      let (other, crashes) = disk_root-crash mount name called in
      (streq_ne name (str "debug") e, other, crashes)
]

on_disk-CallCrashes :
    (mount : Mount) (name jail p : CString)
    → CallCrashes mount name
    → on_disk mount name jail p ≡ crash
unfolding on_disk disk_root
on_disk-CallCrashes mount name jail p (real, disk, crashes) =
    rw (kl_streq-ne name (str "debug") real) (
      real_path-eq-normal mount name jail p
      ∙ rw (kl_streq-ne name (str "rootfs") disk) (rw crashes refl))

on_device-crash :
    (mount : Mount) (jail dev p : CString)
    → on_device mount jail (some dev) p ≡ crash
    → (name : CString) × NameOf dev name × CallCrashes mount name
unfolding on_device
on_device-crash mount jail [] p h = absurd (cc h)
on_device-crash mount jail (c ∷ dev) p h = elim (Bool-cases (kl_strneq (c ∷ dev) nojail 7)) [
  | inl e ↦
      let starts = (kl_strneq_iff (c ∷ dev) nojail 7).0 e in
      (
        drop 7 (c ∷ dev),
        inl (sym (take-append-drop 7 (c ∷ dev)) ∙ ap (λ t. t ++ drop 7 (c ∷ dev)) starts),
        on_disk-crash mount (drop 7 (c ∷ dev)) [] p (rw e at h),
      )
  | inr e ↦
      let other : take 7 (c ∷ dev) ≢ str "nojail," =
        λ x. cc ((kl_strneq_iff (c ∷ dev) nojail 7).1 x) in
      (c ∷ dev, inr (other, refl, refl), on_disk-crash mount (c ∷ dev) jail p (rw e at h))
]

on_device-none : (mount : Mount) (jail p : CString) → on_device mount jail none p ≢ crash
unfolding on_device
on_device-none mount jail p h = cc h

on_device-NameOf :
    (mount : Mount) (jail dev name p : CString)
    → NameOf dev name
    → CallCrashes mount name
    → on_device mount jail (some dev) p ≡ crash
unfolding on_device kl_strneq
on_device-NameOf mount jail dev name p (inl e) k = rw e (on_disk-CallCrashes mount name [] p k)
on_device-NameOf mount jail [] name p (inr (other, set, e)) k = absurd (cc set)
on_device-NameOf mount jail (c ∷ dev) name p (inr (other, set, e)) k =
    elim (Bool-cases (kl_strneq (c ∷ dev) nojail 7)) [
      | inl x ↦ absurd (other ((kl_strneq_iff (c ∷ dev) nojail 7).0 x))
      | inr x ↦ rw x (on_disk-CallCrashes mount (c ∷ dev) jail p (rw (← e) at k))
    ]

-- The translation reads or writes out of bounds exactly on the paths that have a device of 32 bytes
-- or more in front, where it overruns `disk_buf` (a `(UUID=…)` device is such), and on those whose
-- device is looked for among the disks in a call of `mount_by_id` that itself reads out of bounds:
-- the one in the path, or else the root, without its `nojail,`, when it is neither `debug` nor
-- `rootfs`.
pub vfs_translate_path-crash_iff :
    (mount : Mount) (v : Vfs) (path_in : CString)
    → (vfs_translate_path mount v path_in ≡ crash)
      ↔ (LongDevice path_in ⊎ MountCrashes mount v path_in)
unfolding vfs_translate_path
vfs_translate_path-crash_iff mount v path_in = (to (device_part v.vfs_root path_in) refl, from)
  where
    to :
        (r : Outcome (Option CString × CString))
        → device_part v.vfs_root path_in ≡ r
        → (r >>=! λ (disk, path). on_device mount (jail_string v.vfs_jail) disk path) ≡ crash
        → LongDevice path_in ⊎ MountCrashes mount v path_in
    to crash e h = inl ((device_part-cases v.vfs_root path_in crash e).0 refl)
    to (err x) e h = absurd (cc h)
    to (ok (none, path)) e h = absurd (on_device-none mount (jail_string v.vfs_jail) path h)
    to (ok (some dev, path)) e h =
        let (name, named, (debug, rootfs, crashes)) =
          on_device-crash mount (jail_string v.vfs_jail) dev path h in
        inr (record {
          dev = dev;
          name = name;
          device = (device_part-cases v.vfs_root path_in _ e).1 dev path refl;
          named = named;
          not_debug = debug;
          not_rootfs = rootfs;
          crashes = crashes;
        })

    from :
        LongDevice path_in ⊎ MountCrashes mount v path_in
        → vfs_translate_path mount v path_in ≡ crash
    from (inl l) =
        let long : ltb (length l.dev) 32 ≡ false = ground (arith, l.long) in
        let part : device_part v.vfs_root path_in ≡ crash =
          ap (device_part v.vfs_root) l.split
          ∙ device_part-split v.vfs_root l.dev l.path l.no_close
          ∙ rw long refl in
        rw part refl
    from (inr m) =
        let (path, part) = device_part-DeviceOf v.vfs_root path_in m.dev m.device in
        rw part (
          on_device-NameOf mount (jail_string v.vfs_jail) m.dev m.name path m.named
            (m.not_debug, m.not_rootfs, m.crashes))
