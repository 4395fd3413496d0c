-- ===== src/Vfs.antt =====
-- src/vfs.c: translation of VFS paths to real paths, below a device and a jail directory.
-- `mount_by_id` of src/disk.c, which the translation calls, and the system calls that the wrappers
-- make, are parameters. `strcat` is checked against the size of the allocated buffer: a write past
-- its end, and a read past the end of `disk_buf`, make the call end in `crash`.
pub mod Walks
pub mod Nodes
pub mod AppendPath
pub mod Translate
pub mod Devices
pub mod Crashes
use kexec_loader.Misc.Strings.{kl_strndup, kl_streq, kl_strneq}
use kexec_loader.Base.{
  ◌>>=◌, ltb, leb, ◌==◌, if◌then◌else◌, length, take, drop, CString, str, byte_in, strcspn, strspn,
  ℕ, zero, suc, ◌+◌, ◌-◌, ◌/◌, Option, none, some, [], ◌∷◌, ◌++◌,
}

pub record Vfs : Type 0 where
  pub vfs_root : Option CString
  pub vfs_jail : Option CString

abbrev pub slash : CString
slash = b'/' ∷ []

-- `strcat` into a buffer of `cap` bytes; `none` is a write past its end.
unfoldable pub strcat : ℕ → CString → CString → Option CString
strcat cap dest src = if leb (length dest + length src + 1) cap then some (dest ++ src) else none

-- `strrchr(path, '/')[0] = '\0'`; `none` is a write through NULL.
unfoldable pub cut_last_slash : CString → Option CString
cut_last_slash [] = none
cut_last_slash (c ∷ s) = elim (cut_last_slash s) [
  | some t ↦ some (c ∷ t)
  | none ↦ if c == b'/' then some [] else none
]

-- `path` and `path_nodes`
pub record Walk : Type 0 where
  pub path : CString
  pub path_nodes : ℕ

abbrev pub dotdot : CString
dotdot = str ".."

-- the two branches of `if(len)`
unfoldable pub push_node : ℕ → Walk → CString → Option Walk
push_node cap w node = do
  p ← strcat cap w.path slash
  q ← strcat cap p node
  some (record { path = q; path_nodes = w.path_nodes + 1 })

unfoldable pub pop_node : Walk → Option Walk
pop_node w =
    if w.path_nodes == 0
    then some w
    else (do p ← cut_last_slash w.path; some (record { path = p; path_nodes = w.path_nodes - 1 }))

unfoldable pub visit : ℕ → Walk → CString → Option Walk
unfolding push_node pop_node strcat cut_last_slash kl_streq
visit cap w [] = some w
visit cap w (c ∷ node) =
    if kl_streq (c ∷ node) dotdot then pop_node w else push_node cap w (c ∷ node)

-- `append_path`'s loop; each round takes a byte at least, so the length of the path is fuel enough.
unfoldable pub append_loop : ℕ → ℕ → Walk → CString → Option Walk
unfolding visit kl_strndup
append_loop f cap w [] = some w
append_loop zero cap w (c ∷ s) = none
append_loop (suc f) cap w (c ∷ s) =
    let len = strcspn (c ∷ s) slash in
    let rest = drop len (c ∷ s) in
    do
      w' ← visit cap w (kl_strndup (c ∷ s) len)
      append_loop f cap w' (drop (strspn rest slash) rest)

unfoldable pub append_path : ℕ → CString → CString → Option CString
unfolding append_loop
append_path cap path path_in = do
  w ← append_loop (length path_in) cap (record { path = path; path_nodes = 0 }) path_in
  some w.path

-- The error codes of src/misc.h, and those of the system.
pub data Errno : Type 0 where
  einfile ebadfs endisk : Errno
  system : ℕ → Errno

pub data Outcome {ℓ} (A : Type ℓ) : Type ℓ where
  ok : A → Outcome A
  err : Errno → Outcome A
  crash : Outcome A

-- `mount_by_id(name, 0)`: the name of the mounted disk, or the `errno` that it leaves.
abbrev pub Mount : Type 0
Mount = CString → Outcome CString

infixl 5 ◌>>=!◌
abbrev pub ◌>>=!◌ {ℓ κ} : {A : Type ℓ} {B : Type κ} → Outcome A → (A → Outcome B) → Outcome B
ok a >>=! f = f a
err e >>=! f = err e
crash >>=! f = crash

unfoldable pub disk_root : Mount → CString → Outcome CString
unfolding kl_streq
disk_root mount name =
    if kl_streq name (str "rootfs")
    then ok (str "/")
    else mount name >>=! λ disk. ok (str "/mnt/" ++ disk)

-- The size of `disk_buf`.
abbrev pub disk_buf_size : ℕ
disk_buf_size = 32

-- The device in front of the path and the path behind it. When the `)` lies behind the first
-- `disk_buf_size` bytes, `strncpy` leaves no NUL in `disk_buf` and the scan for `)` overruns it.
unfoldable pub device_part : Option CString → CString → Outcome (Option CString × CString)
device_part root [] = ok (root, [])
device_part root (c ∷ s) =
    if c == b'('
    then if byte_in b')' s
      then if ltb (strcspn s (str ")")) disk_buf_size
        then ok (some (take (strcspn s (str ")")) s), drop (strcspn s (str ")") + 1) s)
        else crash
      else err einfile
    else ok (root, c ∷ s)

abbrev pub of_option {ℓ} : {A : Type ℓ} → Option A → Outcome A
of_option (some a) = ok a
of_option none = crash

-- `if(jail_len) { append_path(path, vfs_jail); }`
unfoldable pub append_jail : ℕ → CString → CString → Option CString
unfolding append_path
append_jail cap path [] = some path
append_jail cap path (c ∷ jail) = append_path cap path (c ∷ jail)

-- The end of `vfs_translate_path`, from the call of `disk_root` on, with the jail that is in force.
unfoldable pub real_path : Mount → CString → CString → CString → Outcome CString
unfolding disk_root append_jail append_path
real_path mount disk jail path_in = disk_root mount disk >>=! λ root.
    let cap = length root + length path_in + length jail + 3 in
    of_option (do p ← append_jail cap root jail; append_path cap p path_in)

abbrev pub nojail : CString
nojail = str "nojail,"

abbrev pub jail_string : Option CString → CString
jail_string none = []
jail_string (some j) = j

-- from `kl_streq(disk, "debug")` on
unfoldable pub on_disk : Mount → CString → CString → CString → Outcome CString
unfolding real_path kl_streq
on_disk mount disk jail path_in =
    if kl_streq disk (str "debug") then ok path_in else real_path mount disk jail path_in

unfoldable pub on_device : Mount → CString → Option CString → CString → Outcome CString
unfolding on_disk kl_strneq
on_device mount jail none path_in = err endisk
on_device mount jail (some []) path_in = err endisk
on_device mount jail (some (c ∷ disk)) path_in =
    if kl_strneq (c ∷ disk) nojail 7
    then on_disk mount (drop 7 (c ∷ disk)) [] path_in
    else on_disk mount (c ∷ disk) jail path_in

unfoldable pub vfs_translate_path : Mount → Vfs → CString → Outcome CString
unfolding device_part on_device
vfs_translate_path mount v path_in = device_part v.vfs_root path_in >>=! λ (disk, path).
    on_device mount (jail_string v.vfs_jail) disk path

unfoldable pub vfs_set_root : Option CString → Vfs → Vfs
vfs_set_root root v = record v { vfs_root = root }

unfoldable pub vfs_set_jail : Option CString → Vfs → Vfs
vfs_set_jail jail v = record v { vfs_jail = jail }
