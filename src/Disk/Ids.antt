-- ===== src/Disk/Ids.antt =====
-- Which disks an id means, and the id that stands in a path.
use kexec_loader.Misc.Strings.{kl_streq, kl_strneq, kl_strceq, kl_strnceq}
use kexec_loader.Misc.Strings.Equality.{
  kl_streq_iff, kl_strneq_iff, kl_strceq_iff, kl_strnceq_iff, kl_strndup-eq-take,
}
use kexec_loader.Disk.{KlDisk, label_prefix, uuid_prefix, skip_dev, compare_disk_id, get_diskid}
use kexec_loader.Base.{
  ◌==◌, if◌then◌else◌, Bool-cases, length, take, drop, All, take-append-drop, take_all, CString,
  str, head_byte, is_set, strcspn, to_lower, IsOut, take-strcspn, ℕ, ◌≡◌, refl, sym, ap, ◌∙◌, ◌≢◌,
  ◌↔◌, ◌⊎◌, inl, inr, Bool, true, false, ◌&&◌, [], ◌∷◌, ◌++◌, map, arith,
}

-- the same but for the case of letters
abbrev pub SameText : CString → CString → Type 0
SameText s t = map to_lower s ≡ map to_lower t

-- The tag that is set has the value behind the prefix.
abbrev pub HasTag : CString → ℕ → CString → CString → Type 0
HasTag prefix n value id =
    SameText (take n id) (take n prefix) × (is_set value ≡ true) × SameText value (drop n id)

-- The name, with `/dev/` in front, or on its own; an id that begins with `/dev/` is never a name on
-- its own.
abbrev pub IsNamed : CString → CString → Type 0
IsNamed name id = (id ≡ str "/dev/" ++ name) ⊎ ((take 5 id ≢ str "/dev/") × (id ≡ name))

abbrev pub HasId : KlDisk → CString → Type 0
HasId disk id =
    HasTag (str "LABEL=") 6 disk.label id
    ⊎ (HasTag (str "UUID=") 5 disk.uuid id ⊎ IsNamed disk.name id)

split_five : (id : CString) → take 5 id ≡ str "/dev/" → id ≡ str "/dev/" ++ drop 5 id
split_five id h = sym (take-append-drop 5 id) ∙ ap (λ t. t ++ drop 5 id) h

skip_dev_iff : (name id : CString) → (kl_streq name (skip_dev id) ≡ true) ↔ IsNamed name id
unfolding skip_dev
skip_dev_iff name id = elim (Bool-cases (kl_strneq id (str "/dev/") 5)) [
  | inl e ↦
      let starts : take 5 id ≡ str "/dev/" = (kl_strneq_iff id (str "/dev/") 5).0 e in
      rw e (
        λ h. inl (
            split_five id starts
            ∙ ap (◌++◌ (str "/dev/")) (sym ((kl_streq_iff name (drop 5 id)).0 h))),
        λ h. elim h [
          | inl same ↦ (kl_streq_iff name (drop 5 id)).1 (sym (ap (drop 5) same))
          | inr other ↦ absurd (other.0 starts)
        ],
      )
  | inr e ↦
      let other : take 5 id ≢ str "/dev/" =
        λ starts. cc ((kl_strneq_iff id (str "/dev/") 5).1 starts) in
      rw e (
        λ h. inr (other, sym ((kl_streq_iff name id).0 h)),
        λ h. elim h [
          | inl same ↦ absurd (other (ap (take 5) same))
          | inr alone ↦ (kl_streq_iff name id).1 (sym alone.1)
        ],
      )
]

tag_iff :
    (prefix : CString) (n : ℕ) (value id : CString)
    → ((kl_strnceq id prefix n && is_set value && kl_strceq value (drop n id)) ≡ true)
      ↔ HasTag prefix n value id
tag_iff prefix n value id =
    ground (arith, kl_strnceq_iff id prefix n, kl_strceq_iff value (drop n id))

first_of_three :
    (a b c : Bool) (P Q R : Type 0)
    → (a ≡ true) ↔ P
    → (b ≡ true) ↔ Q
    → (c ≡ true) ↔ R
    → ((if a then true else if b then true else c) ≡ true) ↔ (P ⊎ (Q ⊎ R))
first_of_three true b c P Q R p q r = (λ h. inl (p.0 refl), λ h. refl)
first_of_three false true c P Q R p q r = (λ h. inr (inl (q.0 refl)), λ h. refl)
first_of_three false false c P Q R p q r = (
  λ h. inr (inr (r.0 h)),
  λ h. elim h [
    | inl x ↦ absurd (cc (p.1 x))
    | inr y ↦ elim y [ inl z ↦ absurd (cc (q.1 z)) | inr z ↦ r.1 z ]
  ],
)

-- `compare_disk_id` answers 1 exactly for the ids of a disk: its label or its UUID behind their
-- prefix, in any case of letters, if it has one, and its name, with `/dev/` in front or, where the
-- name does not itself begin so, on its own.
pub compare_disk_id_iff :
    (disk : KlDisk) (id : CString) → (compare_disk_id disk id ≡ true) ↔ HasId disk id
unfolding compare_disk_id
compare_disk_id_iff disk id =
    first_of_three _ _ _ _ _ _ (tag_iff label_prefix 6 disk.label id)
      (tag_iff uuid_prefix 5 disk.uuid id) (skip_dev_iff disk.name id)

get_diskid_root :
    (root path : CString) → (head_byte path == b'(') ≡ false → get_diskid root path ≡ root
unfolding get_diskid
get_diskid_root root [] h =
    kl_strndup-eq-take root (length root) ∙ take_all (length root) root (omega arith)
get_diskid_root root (c ∷ path) h =
    rw h (kl_strndup-eq-take root (length root) ∙ take_all (length root) root (omega arith))

-- The id in front of a path is what stands in its brackets, and the root's where it has none.
pub get_diskid_lem :
    (root dev path : CString)
    → All (IsOut (str ")")) dev
    → (get_diskid root (b'(' ∷ (dev ++ (b')' ∷ path))) ≡ dev)
      × ((head_byte path == b'(') ≡ false → get_diskid root path ≡ root)
unfolding get_diskid
get_diskid_lem root dev path h = (
  kl_strndup-eq-take (dev ++ (b')' ∷ path)) (strcspn (dev ++ (b')' ∷ path)) (str ")"))
      ∙ take-strcspn (str ")") dev (b')' ∷ path) h refl,
  get_diskid_root root path,
)
