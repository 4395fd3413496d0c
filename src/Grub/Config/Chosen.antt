-- ===== src/Grub/Config/Chosen.antt =====
-- When the code flags an entry of a grub.cfg as the default: by its index, or by its title.
use kexec_loader.Misc.Strings.Equality.{kl_streq_iff}
use kexec_loader.Grub.Menu.{is_entry}
use kexec_loader.Grub.Config.{is_title}
use kexec_loader.Base.{
  ==_iff, CString, ℤ, pos, negsuc, ℕ, ◌≡◌, sym, ap, ◌↔◌, ◌⊎◌, Bool, true, ◌||◌, Option, none, some,
  arith,
}

pos_injective : {m n : ℕ} → pos m ≡ pos n → m ≡ n
pos_injective h = ap index_of h
  where
    index_of : ℤ → ℕ
    index_of (pos n) = n
    index_of (negsuc n) = 0

is_entry_iff : (n : ℕ) (z : ℤ) → (is_entry n z ≡ true) ↔ (z ≡ pos n)
is_entry_iff n (pos m) =
    (λ h. ap pos (sym ((==_iff n m).0 h)), λ e. (==_iff n m).1 (sym (pos_injective e)))
is_entry_iff n (negsuc m) = (λ h. cc, λ e. cc)

some_injective : {s t : CString} → some s ≡ some t → s ≡ t
some_injective e = cc

is_title_iff : (o : Option CString) (title : CString) → (is_title o title ≡ true) ↔ (o ≡ some title)
is_title_iff none title = (λ h. cc, λ e. cc)
is_title_iff (some t) title =
    (λ h. ap some ((kl_streq_iff t title).0 h), λ e. (kl_streq_iff t title).1 (some_injective e))

either_iff :
    (a b : Bool) (P Q : Type 0) → (a ≡ true) ↔ P → (b ≡ true) ↔ Q → ((a || b) ≡ true) ↔ (P ⊎ Q)
either_iff a b P Q p q = ground (arith, p, q)

pub is_default_iff :
    (n : ℕ) (z : ℤ) (o : Option CString) (title : CString)
    → ((is_entry n z || is_title o title) ≡ true) ↔ ((z ≡ pos n) ⊎ (o ≡ some title))
is_default_iff n z o title =
    either_iff (is_entry n z) (is_title o title) _ _ (is_entry_iff n z) (is_title_iff o title)
