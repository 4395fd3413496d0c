-- ===== src/Vfs/Devices.antt =====
-- The device that `vfs_translate_path` takes from a path, or from the root.
use kexec_loader.Misc.Strings.{}
use kexec_loader.Misc.Strings.Equality.{}
use kexec_loader.Vfs.{Outcome, device_part, einfile, ok, err, crash}
use kexec_loader.Base.{
  ltb, ◌==◌, if◌then◌else◌, ==_iff, Bool-cases, length, drop, All, take-append, CString, str,
  head_byte, byte_in, strcspn, IsOut, ℕ, suc, ◌+◌, ◌≤◌, ◌<◌, ◌≡◌, refl, sym, ap, ap₂, ◌∙◌, inl, inr,
  true, false, Option, some, [], ◌∷◌, ◌++◌, arith,
}
use kexec_loader.Vfs.Translate.{}

abbrev pub NoClose : CString → Type 0
NoClose dev = All (λ c. (c == b')') ≡ false) dev

-- The path has a device of 32 bytes or more in front.
pub record LongDevice (path_in : CString) : Type 0 where
  pub dev : CString
  pub path : CString
  pub split : path_in ≡ b'(' ∷ (dev ++ b')' ∷ path)
  pub no_close : NoClose dev
  pub long : 32 ≤ length dev

-- The device of a path: the one in front of it, which fits in `disk_buf`, or the root.
pub data DeviceOf (root : Option CString) : CString → CString → Type 0 where
  in_path :
      {path_in : CString} (dev path : CString)
      → path_in ≡ b'(' ∷ (dev ++ b')' ∷ path)
      → NoClose dev
      → length dev < 32
      → DeviceOf root path_in dev
  is_root :
      {path_in dev : CString}
      → (head_byte path_in == b'(') ≡ false
      → root ≡ some dev
      → DeviceOf root path_in dev

NoClose-IsOut : (dev : CString) → NoClose dev → All (IsOut (str ")")) dev
NoClose-IsOut [] h = tt
NoClose-IsOut (c ∷ dev) h = (ground arith, NoClose-IsOut dev h.1)

close_split :
    (s : CString)
    → byte_in b')' s ≡ true
    → (dev : CString) × (path : CString) × (s ≡ dev ++ b')' ∷ path) × NoClose dev
close_split [] h = cc
close_split (c ∷ s) h = elim (Bool-cases (c == b')')) [
  | inl e ↦ ([], s, ap (λ (x : ℕ). x ∷ s) ((==_iff c b')').0 e), tt)
  | inr e ↦
      let (dev, path, split, out) = close_split s (ground arith) in
      (c ∷ dev, path, ap (◌∷◌ c) split, (e, out))
]

byte_in-split : (dev path : CString) → byte_in b')' (dev ++ b')' ∷ path) ≡ true
byte_in-split [] path = refl
byte_in-split (c ∷ dev) path = ground (arith, byte_in-split dev path)

strcspn-split :
    (dev path : CString) → NoClose dev → strcspn (dev ++ b')' ∷ path) (str ")") ≡ length dev
strcspn-split [] path h = refl
strcspn-split (c ∷ dev) path h = rw (h.0) (ap suc (strcspn-split dev path h.1))

drop-split : (dev path : CString) → drop (length dev + 1) (dev ++ b')' ∷ path) ≡ path
drop-split [] path = refl
drop-split (c ∷ dev) path =
    let next : suc (length dev) + 1 ≡ suc (length dev + 1) = omega arith in
    ap (λ n. drop n (c ∷ (dev ++ b')' ∷ path))) next ∙ drop-split dev path

pub device_part-split :
    (root : Option CString) (dev path : CString)
    → NoClose dev
    → device_part root (b'(' ∷ (dev ++ b')' ∷ path))
      ≡ (if ltb (length dev) 32 then ok (some dev, path) else crash)
unfolding device_part
device_part-split root dev path h =
    rw (byte_in-split dev path, strcspn-split dev path h, take-append dev (b')' ∷ path))
      (rw (drop-split dev path) refl)

-- To split on what `device_part` returns.
pub device_part-cases :
    (root : Option CString) (path_in : CString) (r : Outcome (Option CString × CString))
    → device_part root path_in ≡ r
    → (r ≡ crash → LongDevice path_in)
      × ((dev path : CString) → r ≡ ok (some dev, path) → DeviceOf root path_in dev)
unfolding device_part
device_part-cases root [] r e = (
  λ x. cc,
  λ dev path x. let is_ok : ok (root, []) ≡ ok (some dev, path) = e ∙ x in is_root refl (cc is_ok),
)
device_part-cases root (c ∷ s) r e = elim (Bool-cases (c == b'(')) [
  | inl opened ↦ elim (Bool-cases (byte_in b')' s)) [
    | inl closed ↦
        let (dev, path, split, out) = close_split s closed in
        let whole : c ∷ s ≡ b'(' ∷ (dev ++ b')' ∷ path) =
          ap₂ (λ (x : ℕ) (y : CString). x ∷ y) ((==_iff c b'(').0 opened) split in
        let known : (if ltb (length dev) 32 then ok (some dev, path) else crash) ≡ r =
          sym (device_part-split root dev path out) ∙ ap (device_part root) (sym whole) ∙ e in
        elim (Bool-cases (ltb (length dev) 32)) [
          | inl short ↦
              let is_ok : ok (some dev, path) ≡ r = rw short at known in
              (
                λ x. absurd (cc (is_ok ∙ x)),
                λ d p x.
                    let same : dev ≡ d = cc (is_ok ∙ x) in
                    rw (← same) (in_path dev path whole out (ground arith)),
              )
          | inr long ↦
              let is_crash : crash ≡ r = rw long at known in
              (
                λ x. record {
                  dev = dev;
                  path = path;
                  split = whole;
                  no_close = out;
                  long = ground arith;
                },
                λ d p x. absurd (cc (is_crash ∙ x)),
              )
        ]
    | inr unclosed ↦
        let is_err : err einfile ≡ r = rw (opened, unclosed) at e in
        (λ x. absurd (cc (is_err ∙ x)), λ d p x. absurd (cc (is_err ∙ x)))
  ]
  | inr plain ↦
      let is_ok : ok (root, c ∷ s) ≡ r = rw plain at e in
      (λ x. absurd (cc (is_ok ∙ x)), λ d p x. is_root plain (cc (is_ok ∙ x)))
]

pub device_part-DeviceOf :
    (root : Option CString) (path_in dev : CString)
    → DeviceOf root path_in dev
    → (path : CString) × (device_part root path_in ≡ ok (some dev, path))
unfolding device_part
device_part-DeviceOf root path_in d (in_path dev path split out short) = (
  path,
  rw split (
      device_part-split root dev path out
      ∙ (let fits : ltb (length dev) 32 ≡ true = ground arith in rw fits refl)),
)
device_part-DeviceOf root [] dev (is_root plain same) = ([], ap (λ r. ok (r, [])) same)
device_part-DeviceOf root (c ∷ s) dev (is_root plain same) =
    (c ∷ s, rw plain (ap (λ r. ok (r, c ∷ s)) same))
