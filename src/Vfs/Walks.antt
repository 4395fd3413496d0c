-- ===== src/Vfs/Walks.antt =====
-- What each node of a path does to the buffer of `append_path`, and how the path splits into nodes.
use mathlib.Core.List.{append-nil, append_assoc}
use kexec_loader.Misc.Strings.{kl_streq}
use kexec_loader.Vfs.{slash, dotdot, strcat, cut_last_slash, Walk, push_node, pop_node, visit}
use kexec_loader.Vfs.Nodes.{emit, nodes_from, nodes, take_node, normalize, render}
use kexec_loader.Base.{
  ◌==◌, Bool-cases, length, take, drop, All, length-append, CString, byte_in, strcspn, strspn, ℕ,
  suc, ◌+◌, ◌<◌, ◌≡◌, refl, ap, ◌∙◌, inl, inr, false, none, some, List, [], ◌∷◌, ◌++◌, append-nil,
  append_assoc, arith,
}

cut_last_slash-clean : (n : CString) → byte_in b'/' n ≡ false → cut_last_slash n ≡ none
unfolding cut_last_slash
cut_last_slash-clean [] h = refl
cut_last_slash-clean (c ∷ n) h = ground (arith, cut_last_slash-clean n)

cut_last_slash-append :
    (p n : CString) → byte_in b'/' n ≡ false → cut_last_slash (p ++ (slash ++ n)) ≡ some p
unfolding cut_last_slash
cut_last_slash-append [] n h = rw (cut_last_slash-clean n h)
cut_last_slash-append (c ∷ p) n h = rw (cut_last_slash-append p n h)

strcat-fits : (cap : ℕ) (d s : CString) → length d + length s < cap → strcat cap d s ≡ some (d ++ s)
unfolding strcat
strcat-fits cap d s h = ground arith

-- The buffer holds `base` and the nodes taken so far, which `path_nodes` counts.
abbrev pub walk : CString → List CString → Walk
walk base stack = record { path = base ++ render stack; path_nodes = length stack }

Walk-ext :
    {p q : CString} {m n : ℕ}
    → p ≡ q
    → m ≡ n
    → ◌≡◌ {A = Walk} (record { path = p; path_nodes = m }) (record { path = q; path_nodes = n })
Walk-ext e f = λ i. record { path = e i; path_nodes = f i }

push_node-walk :
    (cap : ℕ) (base : CString) (stack : List CString) (n : CString)
    → length (base ++ render stack) + length n + 1 < cap
    → push_node cap (walk base stack) n ≡ some (walk base (n ∷ stack))
unfolding push_node
push_node-walk cap base stack n h =
    let p = base ++ render stack in
    rw (strcat-fits cap p slash (omega arith)) (
      rw (strcat-fits cap (p ++ slash) n (omega (arith, length-append p slash))) (
        ap some (
          Walk-ext (append_assoc p slash n ∙ append_assoc base (render stack) (slash ++ n))
            (omega arith))))

abbrev pub NoSlash : CString → Type 0
NoSlash n = byte_in b'/' n ≡ false

suc-eq-zero : (n : ℕ) → (suc n == 0) ≡ false
suc-eq-zero n = ground arith

pop_node-walk :
    (base : CString) (stack : List CString)
    → All NoSlash stack
    → pop_node (walk base stack) ≡ some (walk base (drop 1 stack))
unfolding pop_node
pop_node-walk base [] h = refl
pop_node-walk base (n ∷ stack) h = rw (← append_assoc base (render stack) (slash ++ n)) (
    rw (cut_last_slash-append (base ++ render stack) n h.0, suc-eq-zero (length stack))
      (ap some (Walk-ext refl (omega arith))))

pub visit-walk :
    (cap : ℕ) (base : CString) (stack : List CString) (n : CString)
    → All NoSlash stack
    → length (base ++ render stack) + length n + 1 < cap
    → visit cap (walk base stack) n ≡ some (walk base (normalize stack (emit n)))
unfolding visit
visit-walk cap base stack [] h room = refl
visit-walk cap base stack (c ∷ n) h room = elim (Bool-cases (kl_streq (c ∷ n) dotdot)) [
  | inl up ↦ rw up (pop_node-walk base stack h)
  | inr down ↦ rw down (push_node-walk cap base stack (c ∷ n) room)
]

-- The path splits at the first slash.
pub take_node-NoSlash : (p : CString) → NoSlash (take (strcspn p slash) p)
take_node-NoSlash [] = refl
take_node-NoSlash (c ∷ p) = ground (arith, take_node-NoSlash p)

pub nodes_from-split :
    (cur p : CString)
    → nodes_from cur p ≡ emit (cur ++ take (strcspn p slash) p) ++ nodes (drop (strcspn p slash) p)
nodes_from-split cur [] = rw (append-nil cur, append-nil (emit cur))
nodes_from-split cur (c ∷ p) = elim (Bool-cases (c == b'/')) [
  | inl s ↦ rw s (rw (append-nil cur, s) refl)
  | inr s ↦ rw s (nodes_from-split (cur ++ c ∷ []) p ∙ rw append_assoc)
]

pub nodes-skip_slashes : (p : CString) → nodes (drop (strspn p slash) p) ≡ nodes p
nodes-skip_slashes [] = refl
nodes-skip_slashes (c ∷ p) = elim (Bool-cases (c == b'/')) [
  | inl s ↦ rw s (nodes-skip_slashes p)
  | inr s ↦ rw s (rw s refl)
]

pub normalize-append :
    (stack ms ns : List CString) → normalize stack (ms ++ ns) ≡ normalize (normalize stack ms) ns
normalize-append stack [] ns = refl
normalize-append stack (m ∷ ms) ns = normalize-append (take_node stack m) ms ns

drop_one-NoSlash : (stack : List CString) → All NoSlash stack → All NoSlash (drop 1 stack)
drop_one-NoSlash [] h = tt
drop_one-NoSlash (n ∷ stack) h = h.1

pub emit-NoSlash :
    (stack : List CString) (n : CString)
    → All NoSlash stack
    → NoSlash n
    → All NoSlash (normalize stack (emit n))
emit-NoSlash stack [] h k = h
emit-NoSlash stack (c ∷ n) h k = elim (Bool-cases (kl_streq (c ∷ n) dotdot)) [
  | inl up ↦ rw up (drop_one-NoSlash stack h)
  | inr down ↦ rw down (k, h)
]
