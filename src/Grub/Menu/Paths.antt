-- ===== src/Grub/Menu/Paths.antt =====
-- How the paths of a menu.lst become paths of kexec-loader.
use kexec_loader.Grub.Device.{Gdev, add_gdev}
use kexec_loader.Grub.Device.Names.{IsDigit, IsPartOrNone, IsGdev}
use kexec_loader.Grub.Device.Printed.{parts, printed}
use kexec_loader.Grub.Device.Lookup.{Covers, lookup_gdev-add_gdev}
use kexec_loader.Grub.Menu.{after_close, on_device, conv_path}
use kexec_loader.Base.{
  ◌==◌, take, All, All-append, CString, str, ℕ, ◌≡◌, refl, sym, ap, ◌∙◌, ◌⊎◌, inl, inr, false, some,
  List, [], ◌∷◌, ◌++◌, append-nil, append_assoc, arith,
}

abbrev NotClose : ℕ → Type 0
NotClose c = (c == b')') ≡ false

after_close-append :
    (xs path : CString) → All NotClose xs → after_close (xs ++ (b')' ∷ path)) ≡ path
unfolding after_close
after_close-append [] path h = refl
after_close-append (c ∷ xs) path h = rw (h.0) (after_close-append xs path h.1)

digits-NotClose : (t : CString) → All IsDigit t → All NotClose t
digits-NotClose [] h = tt
digits-NotClose (c ∷ t) (d, h) = (ground arith, digits-NotClose t h)

field-NotClose : (t : CString) → IsPartOrNone t → All NotClose t
field-NotClose t (inl e) = rw e tt
field-NotClose t (inr (inl n)) = digits-NotClose t n.digits
field-NotClose t (inr (inr (c, l, e))) = let h : NotClose c = ground arith in rw e (h, tt)

-- the bytes of a device in front of its tail
abbrev name_parts : CString → CString → CString
name_parts p2 p3 = parts p2 p3 []

parts-append : (p2 p3 tail : CString) → parts p2 p3 tail ≡ name_parts p2 p3 ++ tail
parts-append [] p3 tail = refl
parts-append (c ∷ p2) [] tail = ap (◌∷◌ b',') (ap (λ s. s ++ tail) (sym (append-nil (c ∷ p2))))
parts-append (c ∷ p2) (d ∷ p3) tail = ap (◌∷◌ b',') (
    ap (λ s. (c ∷ p2) ++ (b',' ∷ (s ++ tail))) (sym (append-nil (d ∷ p3)))
    ∙ sym (append_assoc (c ∷ p2) (b',' ∷ ((d ∷ p3) ++ [])) tail))

printed-append : (g : Gdev) (tail : CString) → printed g tail ≡ printed g [] ++ tail
printed-append g tail =
    ap (λ s. g.type ++ (g.p1 ++ s)) (parts-append g.p2 g.p3 tail)
    ∙ ap (◌++◌ g.type) (sym (append_assoc g.p1 (name_parts g.p2 g.p3) tail))
    ∙ sym (append_assoc g.type (g.p1 ++ name_parts g.p2 g.p3) tail)

name_parts-NotClose :
    (p2 p3 : CString) → All NotClose p2 → All NotClose p3 → All NotClose (name_parts p2 p3)
name_parts-NotClose [] p3 h k = tt
name_parts-NotClose (c ∷ p2) [] h k = (refl, All-append NotClose (c ∷ p2) [] h tt)
name_parts-NotClose (c ∷ p2) (d ∷ p3) h k =
    (refl, All-append NotClose (c ∷ p2) _ h (refl, All-append NotClose (d ∷ p3) [] k tt))

fd_or_hd-NotClose : (type : CString) → (type ≡ str "fd") ⊎ (type ≡ str "hd") → All NotClose type
fd_or_hd-NotClose type (inl e) = rw e (refl, (refl, tt))
fd_or_hd-NotClose type (inr e) = rw e (refl, (refl, tt))

printed-NotClose : (g : Gdev) → IsGdev g → All NotClose (printed g [])
printed-NotClose g h = All-append NotClose g.type _ (fd_or_hd-NotClose g.type h.type_is) (
    All-append NotClose g.p1 _ (digits-NotClose g.p1 h.p1_is.digits)
      (name_parts-NotClose g.p2 g.p3 (field-NotClose g.p2 h.p2_is) (field-NotClose g.p3 h.p3_is)))

-- When no entry of the map is for the disk of a well-formed device and for the parts that it names,
-- a path on the device becomes, once the device is added to the map, the same path on what it is
-- mapped to, of which the map keeps 15 bytes, cut to the buffer of 1024 bytes.
pub conv_path-add_gdev :
    (devmap later : List Gdev) (g : Gdev) (val path : CString)
    → IsGdev g
    → All (λ entry. ¬ Covers g entry) devmap
    → conv_path (add_gdev devmap g val ++ later) 1024 (b'(' ∷ printed g (b')' ∷ path))
      ≡ some (take 1023 (str "(" ++ (take 15 val ++ (str ")" ++ path))))
unfolding conv_path after_close
conv_path-add_gdev devmap later g val path h new =
    let name = printed g (b')' ∷ path) in
    let behind : after_close name ≡ path =
      ap after_close (printed-append g (b')' ∷ path))
      ∙ after_close-append (printed g []) path (printed-NotClose g h) in
    ap (on_device 1024 (b'(' ∷ name)) (lookup_gdev-add_gdev devmap later g val path h new).1
    ∙ ap (λ p. some (take 1023 (str "(" ++ (take 15 val ++ (str ")" ++ p))))) behind
