-- ===== src/Vfs/Translate.antt =====
-- What `vfs_translate_path` returns: confinement to the device and the jail.
use mathlib.Core.List.{append-nil}
use kexec_loader.Misc.Strings.{kl_streq, kl_strneq}
use kexec_loader.Misc.Strings.Equality.{kl_streq_iff}
use kexec_loader.Vfs.{
  Vfs, dotdot, append_path, Outcome, Mount, ◌>>=!◌, disk_root, device_part, of_option, append_jail,
  real_path, nojail, jail_string, on_disk, on_device, vfs_translate_path, ok, err, crash,
}
use kexec_loader.Vfs.Nodes.{emit, nodes_from, nodes, take_node, normalize, render, IsNode}
use kexec_loader.Vfs.AppendPath.{total-nodes_from, length-render_le, append_path-eq-render}
use kexec_loader.Base.{
  ◌==◌, Bool-cases, ◌>>=◌, length, drop, All, length-append, All-append, CString, str, is_set,
  byte_in, ℕ, ◌+◌, ◌≤◌, ◌≡◌, refl, ap, ◌∙◌, ◌≢◌, inl, inr, true, false, ◌||◌, some, List, [], ◌∷◌,
  ◌++◌, append-nil, arith,
}

-- The path that a VFS path stands for below a directory.
abbrev pub normal : CString → CString
normal p = render (normalize [] (nodes p))

length-normal : (p : CString) → length (normal p) ≤ length p + 1
length-normal p = omega (arith, length-render_le [] (nodes p), total-nodes_from [] p)

-- With the size that `vfs_translate_path` allocates, both calls of `append_path` stay in it.
append_both :
    (root jail p : CString)
    → (append_jail (length root + length p + length jail + 3) root jail >>= λ q.
        append_path (length root + length p + length jail + 3) q p)
      ≡ some ((root ++ normal jail) ++ normal p)
unfolding append_jail
append_both root [] p = rw append-nil (append_path-eq-render _ root p (omega arith))
append_both root (c ∷ jail) p =
    let j = c ∷ jail in
    rw (append_path-eq-render (length root + length p + length j + 3) root j (omega arith)) (
      append_path-eq-render _ (root ++ normal j) p
        (omega (arith, length-append root (normal j), length-normal j)))

-- Past the choice of the device, the path never overruns, and is the device's root, then the jail's
-- normal form, then the path's.
pub real_path-eq-normal :
    (mount : Mount) (disk jail p : CString)
    → real_path mount disk jail p
      ≡ (disk_root mount disk >>=! λ root. ok ((root ++ normal jail) ++ normal p))
unfolding real_path
real_path-eq-normal mount disk jail p = go (disk_root mount disk)
  where
    go :
        (r : Outcome CString)
        → (r >>=! λ root. of_option (
            append_jail (length root + length p + length jail + 3) root jail >>= λ q.
            append_path (length root + length p + length jail + 3) q p))
          ≡ (r >>=! λ root. ok ((root ++ normal jail) ++ normal p))
    go (ok root) = ap of_option (append_both root jail p)
    go (err e) = refl
    go crash = refl

record IsPiece (n : CString) : Type 0 where
  set : is_set n ≡ true
  no_slash : byte_in b'/' n ≡ false

byte_in-append : (c : ℕ) (s t : CString) → byte_in c (s ++ t) ≡ (byte_in c s || byte_in c t)
byte_in-append c [] t = refl
byte_in-append c (d ∷ s) t = ground (arith, byte_in-append c s t)

emit-IsPiece : (n : CString) → byte_in b'/' n ≡ false → All IsPiece (emit n)
emit-IsPiece [] h = tt
emit-IsPiece (c ∷ n) h = (record { set = refl; no_slash = h }, tt)

nodes_from-IsPiece : (cur p : CString) → byte_in b'/' cur ≡ false → All IsPiece (nodes_from cur p)
nodes_from-IsPiece cur [] h = emit-IsPiece cur h
nodes_from-IsPiece cur (c ∷ p) h = elim (Bool-cases (c == b'/')) [
  | inl s ↦
      rw s (
        All-append IsPiece (emit cur) (nodes p) (emit-IsPiece cur h) (nodes_from-IsPiece [] p refl))
  | inr s ↦
      rw s (nodes_from-IsPiece (cur ++ c ∷ []) p (ground (arith, byte_in-append b'/' cur (c ∷ []))))
]

All-drop_one : (P : CString → Type 0) (ns : List CString) → All P ns → All P (drop 1 ns)
All-drop_one P [] h = tt
All-drop_one P (n ∷ ns) h = h.1

take_node-IsNode :
    (stack : List CString) (n : CString)
    → All IsNode stack
    → IsPiece n
    → All IsNode (take_node stack n)
take_node-IsNode stack n h k = elim (Bool-cases (kl_streq n dotdot)) [
  | inl up ↦ rw up (All-drop_one IsNode stack h)
  | inr down ↦ rw down (
    record {
      set = k.set;
      no_slash = k.no_slash;
      not_dotdot = λ e. cc ((kl_streq_iff n dotdot).1 e);
    },
    h,
  )
]

normalize-IsNode :
    (stack ns : List CString) → All IsNode stack → All IsPiece ns → All IsNode (normalize stack ns)
normalize-IsNode stack [] h k = h
normalize-IsNode stack (n ∷ ns) h k =
    normalize-IsNode (take_node stack n) ns (take_node-IsNode stack n h k.0) k.1

pub kl_streq-ne : (s t : CString) → s ≢ t → kl_streq s t ≡ false
kl_streq-ne s t ne = elim (Bool-cases (kl_streq s t)) [
  | inl e ↦ absurd (ne ((kl_streq_iff s t).0 e))
  | inr e ↦ e
]

on_device-jailed :
    (mount : Mount) (jail disk p : CString)
    → is_set disk ≡ true
    → kl_strneq disk nojail 7 ≡ false
    → disk ≢ str "debug"
    → on_device mount jail (some disk) p ≡ real_path mount disk jail p
unfolding on_device on_disk
on_device-jailed mount jail [] p set jailed real = cc
on_device-jailed mount jail (c ∷ disk) p set jailed real =
    rw jailed (rw (kl_streq-ne (c ∷ disk) (str "debug") real) refl)

-- A VFS path on a device other than `debug`, with no `nojail,` in front, is translated to a path
-- that begins with the device's root and the jail directory, and goes on down through nodes none
-- of which is empty, is `..`, or holds a slash. It cannot leave the jail, whatever the path is.
pub vfs_translate_path-jailed :
    (mount : Mount) (v : Vfs) (path_in : CString) {disk p root : CString}
    → device_part v.vfs_root path_in ≡ ok (some disk, p)
    → is_set disk ≡ true
    → kl_strneq disk nojail 7 ≡ false
    → disk ≢ str "debug"
    → disk_root mount disk ≡ ok root
    → (stack : List CString) × (vfs_translate_path mount v path_in
        ≡ ok ((root ++ normal (jail_string v.vfs_jail)) ++ render stack))
      × All IsNode stack
unfolding vfs_translate_path
vfs_translate_path-jailed mount v path_in {disk} {p} {root} dev set jailed real mounted = (
  normalize [] (nodes p),
  rw dev (
      on_device-jailed mount (jail_string v.vfs_jail) disk p set jailed real
      ∙ real_path-eq-normal mount disk (jail_string v.vfs_jail) p
      ∙ rw mounted refl),
  normalize-IsNode [] (nodes p) tt (nodes_from-IsPiece [] p refl),
)
