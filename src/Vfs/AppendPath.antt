-- ===== src/Vfs/AppendPath.antt =====
-- `append_path` stays in its buffer and appends the normal form of its path.
use mathlib.Core.List.{append-nil}
use kexec_loader.Misc.Strings.{kl_streq}
use kexec_loader.Misc.Strings.Equality.{kl_strndup-eq-take}
use kexec_loader.Vfs.{slash, dotdot, Walk, visit, append_loop, append_path}
use kexec_loader.Vfs.Nodes.{emit, nodes_from, nodes, take_node, normalize, render}
use kexec_loader.Base.{
  ◌==◌, Bool-cases, length, take, drop, All, length-append, length-take, length-drop, CString,
  strcspn, strspn, ℕ, zero, suc, ◌+◌, ◌≤◌, ◌<◌, ◌≡◌, refl, sym, ap, ◌∙◌, ◌⊎◌, inl, inr, some, List,
  [], ◌∷◌, ◌++◌, append-nil, arith,
}
use kexec_loader.Vfs.Walks.{
  walk, NoSlash, visit-walk, take_node-NoSlash, nodes_from-split, nodes-skip_slashes,
  normalize-append, emit-NoSlash,
}

-- What a path needs of the buffer. Nothing, once it is used up.
abbrev Room : ℕ → CString → CString → Type 0
Room cap path [] = Unit
Room cap path (c ∷ s) = length path + length (c ∷ s) + 1 < cap

-- The rest of the path behind its first node and the slashes that follow.
abbrev rest_of : CString → CString
rest_of p = let rest = drop (strcspn p slash) p in drop (strspn rest slash) rest

nodes-first : (p : CString) → nodes p ≡ emit (take (strcspn p slash) p) ++ nodes (rest_of p)
nodes-first p =
    nodes_from-split [] p
    ∙ ap (◌++◌ (emit (take (strcspn p slash) p)))
        (sym (nodes-skip_slashes (drop (strcspn p slash) p)))

length-drop_le : (n : ℕ) (s : CString) → length (drop n s) ≤ length s
length-drop_le n s = omega (arith, length-drop n s)

-- What is behind a node is shorter than the path by the node and a slash, unless nothing is.
rest_of-shorter :
    (p : CString)
    → (rest_of p ≡ []) ⊎ (length (rest_of p) + length (take (strcspn p slash) p) + 1 ≤ length p)
rest_of-shorter [] = inl refl
rest_of-shorter (c ∷ p) = elim (Bool-cases (c == b'/')) [
  | inl s ↦ inr (rw s (rw s (omega (arith, length-drop_le (strspn p slash) p))))
  | inr s ↦ rw s (elim (rest_of-shorter p) [ inl e ↦ inl e | inr h ↦ inr (omega arith) ])
]

length-render_cons :
    (n : CString) (stack : List CString)
    → length (render (n ∷ stack)) ≡ length (render stack) + length n + 1
length-render_cons n stack = omega (arith, length-append (render stack) (slash ++ n))

length-render-drop : (stack : List CString) → length (render (drop 1 stack)) ≤ length (render stack)
length-render-drop [] = omega arith
length-render-drop (n ∷ stack) = omega (arith, length-render_cons n stack)

length-render-emit :
    (stack : List CString) (n : CString)
    → length (render (normalize stack (emit n))) ≤ length (render stack) + length n + 1
length-render-emit stack [] = omega arith
length-render-emit stack (c ∷ n) = elim (Bool-cases (kl_streq (c ∷ n) dotdot)) [
  | inl up ↦ rw up (omega (arith, length-render-drop stack))
  | inr down ↦ rw down (omega (arith, length-render_cons (c ∷ n) stack))
]

length-walk-le :
    (base : CString) (stack : List CString) (n : CString)
    → length (base ++ render (normalize stack (emit n)))
      ≤ length (base ++ render stack) + length n + 1
length-walk-le base stack n = omega (
  arith,
  length-append base (render stack),
  length-append base (render (normalize stack (emit n))),
  length-render-emit stack n,
)

length-take_le : (n : ℕ) (s : CString) → length (take n s) ≤ length s
length-take_le n s = omega (arith, length-take n s)

append_loop_step :
    (f room : ℕ) (w w' : Walk) (c : ℕ) (s : CString)
    → visit room w (take (strcspn (c ∷ s) slash) (c ∷ s)) ≡ some w'
    → append_loop (suc f) room w (c ∷ s) ≡ append_loop f room w' (rest_of (c ∷ s))
unfolding append_loop
append_loop_step f room w w' c s e = rw (kl_strndup-eq-take (c ∷ s)) (rw e refl)

Room-rest_of :
    (size : ℕ) (path path' p : CString)
    → Room size path p
    → length path' ≤ length path + length (take (strcspn p slash) p) + 1
    → Room size path' (rest_of p)
Room-rest_of size path path' [] room h = tt
Room-rest_of size path path' (d ∷ p) room h = go (rest_of (d ∷ p)) (rest_of-shorter (d ∷ p))
  where
    go :
        (rest : CString)
        → (rest ≡ [])
          ⊎ (length rest + length (take (strcspn (d ∷ p) slash) (d ∷ p)) + 1 ≤ length (d ∷ p))
        → Room size path' rest
    go [] e = tt
    go (c ∷ rest) (inl e) = cc
    go (c ∷ rest) (inr e) = omega arith

length-rest_of : (c : ℕ) (s : CString) → length (rest_of (c ∷ s)) ≤ length s
length-rest_of c s = elim (rest_of-shorter (c ∷ s)) [
  | inl e ↦ omega (arith, ap length e)
  | inr h ↦ omega arith
]

append_loop-walk :
    (f size : ℕ) (base : CString) (stack : List CString) (p : CString)
    → length p ≤ f
    → All NoSlash stack
    → Room size (base ++ render stack) p
    → append_loop f size (walk base stack) p ≡ some (walk base (normalize stack (nodes p)))
append_loop-walk f size base stack [] h k room = unfold append_loop in refl
append_loop-walk zero size base stack (c ∷ s) h k room = elim h [ ]
append_loop-walk (suc f) size base stack (c ∷ s) h k room =
    let n = take (strcspn (c ∷ s) slash) (c ∷ s) in
    let stack' = normalize stack (emit n) in
    append_loop_step f size (walk base stack) (walk base stack') c s (
      visit-walk size base stack n k
        (omega (arith, length-take_le (strcspn (c ∷ s) slash) (c ∷ s))))
    ∙ append_loop-walk f size base stack' (rest_of (c ∷ s)) (omega (arith, length-rest_of c s))
        (emit-NoSlash stack n k (take_node-NoSlash (c ∷ s)))
        (Room-rest_of size (base ++ render stack) (base ++ render stack') (c ∷ s) room
          (length-walk-le base stack n))
    ∙ ap (λ (ns : List CString). some (walk base ns))
        (sym (normalize-append stack (emit n) (nodes (rest_of (c ∷ s))))
          ∙ ap (normalize stack) (sym (nodes-first (c ∷ s))))

starting-Room : (size : ℕ) (path p : CString) → length path + length p + 1 < size → Room size path p
starting-Room size path [] h = tt
starting-Room size path (c ∷ p) h = h

abbrev pub total : List CString → ℕ
total [] = 0
total (n ∷ ns) = length n + 1 + total ns

length-render_take :
    (stack : List CString) (n : CString)
    → length (render (take_node stack n)) ≤ length (render stack) + length n + 1
length-render_take stack n = elim (Bool-cases (kl_streq n dotdot)) [
  | inl up ↦ rw up (omega (arith, length-render-drop stack))
  | inr down ↦ rw down (omega (arith, length-render_cons n stack))
]

total-emit_append :
    (n : CString) (ns : List CString) → total (emit n ++ ns) ≤ length n + 1 + total ns
total-emit_append [] ns = omega arith
total-emit_append (c ∷ n) ns = omega arith

pub total-nodes_from : (cur p : CString) → total (nodes_from cur p) ≤ length cur + length p + 1
total-nodes_from [] [] = omega arith
total-nodes_from (d ∷ cur) [] = omega arith
total-nodes_from cur (c ∷ p) = elim (Bool-cases (c == b'/')) [
  | inl s ↦ rw s (omega (arith, total-emit_append cur (nodes p), total-nodes_from [] p))
  | inr s ↦ rw s (omega (arith, total-nodes_from (cur ++ c ∷ []) p, length-append cur (c ∷ [])))
]

-- The normal form is no longer than the path and a byte.
pub length-render_le :
    (stack ns : List CString)
    → length (render (normalize stack ns)) ≤ length (render stack) + total ns
length-render_le stack [] = omega arith
length-render_le stack (n ∷ ns) =
    omega (arith, length-render_le (take_node stack n) ns, length-render_take stack n)

-- With room for the path and two bytes more, `append_path` does not overrun its buffer, and what
-- it appends is the normal form of the path.
pub append_path-eq-render :
    (size : ℕ) (path p : CString)
    → length path + length p + 1 < size
    → append_path size path p ≡ some (path ++ render (normalize [] (nodes p)))
unfolding append_path
append_path-eq-render size path p h =
    let e : append_loop (length p) size (record { path = path; path_nodes = 0 }) p
        ≡ some (walk path (normalize [] (nodes p))) =
      rw append-nil at (
        append_loop-walk (length p) size path [] p (omega arith) tt
          (rw append-nil (starting-Room size path p h))) in
    rw e refl
