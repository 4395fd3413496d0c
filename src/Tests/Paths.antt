-- ===== src/Tests/Paths.antt =====
-- Path translation on concrete paths.
use kexec_loader.Vfs.{
  Vfs, append_path, Mount, disk_root, device_part, vfs_translate_path, ok, crash,
}
use kexec_loader.Vfs.Nodes.{nodes, normalize, render, IsNode}
use kexec_loader.Vfs.AppendPath.{append_path-eq-render}
use kexec_loader.Misc.Strings.{kl_streq, kl_strneq}
use kexec_loader.Misc.Strings.Equality.{kl_streq_iff}
use kexec_loader.Vfs.Devices.{LongDevice, in_path}
use kexec_loader.Vfs.Crashes.{MountCrashes, vfs_translate_path-crash_iff}
use kexec_loader.Vfs.Translate.{normal, vfs_translate_path-jailed}
use kexec_loader.Misc.Strings.{kl_streq, kl_strneq}
use kexec_loader.Base.{
  All, CString, str, ◌≡◌, refl, ◌↔◌, ◌⊎◌, inl, inr, some, List, [], ◌++◌, arith,
}

-- Every disk mounts, under the name that it is asked for by.
abbrev all_mount : Mount
all_mount = λ name. ok name

abbrev jailed : Vfs
jailed = record { vfs_root = some (str "hda1"); vfs_jail = some (str "/kl") }

translated :
    vfs_translate_path all_mount jailed (str "/boot/../../../vmlinuz")
    ≡ ok (str "/mnt/hda1/kl/vmlinuz")
unfolding vfs_translate_path
translated = refl

not_jailed :
    vfs_translate_path all_mount jailed (str "(nojail,rootfs)/modules/") ≡ ok (str "//modules")
unfolding vfs_translate_path
not_jailed = refl

append_path-eq-render_example :
    append_path 32 (str "/mnt/hda1") (str "a/../b")
    ≡ some (str "/mnt/hda1" ++ render (normalize [] (nodes (str "a/../b"))))
append_path-eq-render_example =
    append_path-eq-render 32 (str "/mnt/hda1") (str "a/../b") (omega arith)

device_of :
    device_part (some (str "hda1")) (str "/../../etc") ≡ ok (some (str "hda1"), str "/../../etc")
unfolding device_part
device_of = refl

root_of : disk_root all_mount (str "hda1") ≡ ok (str "/mnt/hda1")
unfolding disk_root
root_of = refl

vfs_translate_path-jailed_example :
    (stack : List CString) × (vfs_translate_path all_mount jailed (str "/../../etc")
      ≡ ok ((str "/mnt/hda1" ++ normal (str "/kl")) ++ render stack))
    × All IsNode stack
unfolding kl_strneq
vfs_translate_path-jailed_example =
    vfs_translate_path-jailed all_mount jailed (str "/../../etc") device_of refl refl (λ e. cc)
      root_of

-- The device form that the manual gives for paths: a UUID does not fit in `disk_buf`.
abbrev uuid_path : CString
uuid_path = str "(UUID=75ac0d6c-5dc0-402f-9f0f-9ab313816439)/boot/vmlinuz"

abbrev uuid_device : CString
uuid_device = str "UUID=75ac0d6c-5dc0-402f-9f0f-9ab313816439"

uuid_path-LongDevice : LongDevice uuid_path
uuid_path-LongDevice = record {
  dev = uuid_device;
  path = str "/boot/vmlinuz";
  split = refl;
  no_close = (
    refl,
    (
      refl,
      (
        refl,
        (
          refl,
          (
            refl,
            (
              refl,
              (
                refl,
                (
                  refl,
                  (
                    refl,
                    (
                      refl,
                      (
                        refl,
                        (
                          refl,
                          (
                            refl,
                            (
                              refl,
                              (
                                refl,
                                (
                                  refl,
                                  (
                                    refl,
                                    (
                                      refl,
                                      (
                                        refl,
                                        (
                                          refl,
                                          (
                                            refl,
                                            (
                                              refl,
                                              (
                                                refl,
                                                (
                                                  refl,
                                                  (
                                                    refl,
                                                    (
                                                      refl,
                                                      (
                                                        refl,
                                                        (
                                                          refl,
                                                          (
                                                            refl,
                                                            (
                                                            refl,
                                                            (
                                                            refl,
                                                            (
                                                            refl,
                                                            (
                                                            refl,
                                                            (
                                                            refl,
                                                            (
                                                            refl,
                                                            (
                                                            refl,
                                                            (
                                                            refl,
                                                            (refl, (refl, (refl, (refl, tt)))),
                                                            ),
                                                            ),
                                                            ),
                                                            ),
                                                            ),
                                                            ),
                                                            ),
                                                            ),
                                                          ),
                                                        ),
                                                      ),
                                                    ),
                                                  ),
                                                ),
                                              ),
                                            ),
                                          ),
                                        ),
                                      ),
                                    ),
                                  ),
                                ),
                              ),
                            ),
                          ),
                        ),
                      ),
                    ),
                  ),
                ),
              ),
            ),
          ),
        ),
      ),
    ),
  );
  long = omega arith;
}

uuid_crashes : vfs_translate_path all_mount jailed uuid_path ≡ crash
uuid_crashes =
    (vfs_translate_path-crash_iff all_mount jailed uuid_path).1 (inl uuid_path-LongDevice)

-- a device with a file system in front, on which `mount_by_id` runs off the end of its list
abbrev typed_path : CString
typed_path = str "(ext3:sda1)/x"

abbrev never_found : Mount
never_found = λ dev. crash

typed_crashes : MountCrashes never_found jailed typed_path
unfolding kl_streq
typed_crashes = record {
  dev = str "ext3:sda1";
  name = str "ext3:sda1";
  device =
      in_path (str "ext3:sda1") (str "/x") refl
        (refl, (refl, (refl, (refl, (refl, (refl, (refl, (refl, (refl, tt))))))))) (omega arith);
  named = inr (λ e. cc ((kl_streq_iff (str "ext3:sd") (str "nojail,")).1 e), refl, refl);
  not_debug = λ e. cc ((kl_streq_iff (str "ext3:sda1") (str "debug")).1 e);
  not_rootfs = λ e. cc ((kl_streq_iff (str "ext3:sda1") (str "rootfs")).1 e);
  crashes = refl;
}

typed_overruns : vfs_translate_path never_found jailed typed_path ≡ crash
typed_overruns = (vfs_translate_path-crash_iff never_found jailed typed_path).1 (inr typed_crashes)

vfs_translate_path-crash_iff_example :
    (vfs_translate_path never_found jailed typed_path ≡ crash)
    ↔ (LongDevice typed_path ⊎ MountCrashes never_found jailed typed_path)
vfs_translate_path-crash_iff_example = vfs_translate_path-crash_iff never_found jailed typed_path
