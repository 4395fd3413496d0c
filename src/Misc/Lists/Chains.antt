-- ===== src/Misc/Lists/Chains.antt =====
-- A list is a chain of distinct nodes in the store; `list_add` appends to it, `list_prev` finds the
-- node in front of another, and `list_nuke` frees every node.
use mathlib.Core.Option
use kexec_loader.Misc.Lists.{
  Store, set_next, at_end, last_node, link, list_add, list_prev, list_nuke,
}
use kexec_loader.Base.{
  ◌==◌, length, All, ℕ, zero, suc, ◌<◌, ◌≡◌, refl, ap, ◌∙◌, true, false, some, List, [], ◌∷◌, ◌++◌,
  arith,
}

-- The nodes from `ptr` on are `nodes`, and NULL is behind them.
abbrev pub Chain : Store → ℕ → List ℕ → Type 0
Chain next ptr [] = ptr ≡ 0
Chain next ptr (x ∷ nodes) = (ptr ≡ x) × ((x == 0) ≡ false) × Chain next (next x) nodes

abbrev pub NotIn : ℕ → List ℕ → Type 0
NotIn node nodes = All (λ x. (x == node) ≡ false) nodes

abbrev pub Distinct : List ℕ → Type 0
Distinct [] = Unit
Distinct (x ∷ nodes) = NotIn x nodes × Distinct nodes

pub ==_swap : (a b : ℕ) → (a == b) ≡ false → (b == a) ≡ false
==_swap a b h = ground arith

pub ==_same : (a : ℕ) → (a == a) ≡ true
==_same a = ground arith

pub set_next-at : (node value : ℕ) (next : Store) → set_next node value next node ≡ value
unfolding set_next
set_next-at node value next = rw (==_same node) refl

pub set_next-away :
    (node value : ℕ) (next : Store) (at : ℕ)
    → (at == node) ≡ false
    → set_next node value next at ≡ next at
unfolding set_next
set_next-away node value next at h = rw h refl

-- A chain does not see a change elsewhere.
pub Chain-set_next :
    (node value : ℕ) (next : Store) (ptr : ℕ) (nodes : List ℕ)
    → NotIn node nodes
    → Chain next ptr nodes
    → Chain (set_next node value next) ptr nodes
Chain-set_next node value next ptr [] away h = h
Chain-set_next node value next ptr (x ∷ nodes) away (at_x, set, rest) = (
  at_x,
  set,
  rw (set_next-away node value next x away.0)
      (Chain-set_next node value next (next x) nodes away.1 rest),
)

-- how the loop of `list_add` leaves the chain behind `ptr`
record Linked (fuel : ℕ) (next : Store) (node ptr : ℕ) (nodes : List ℕ) : Type 0 where
  end : ℕ
  found : last_node fuel next ptr ≡ some end
  end_set : (end == 0) ≡ false
  end_in : (z : ℕ) → NotIn z nodes → (end == z) ≡ false
  linked : Chain (set_next node 0 (set_next end node next)) ptr (nodes ++ node ∷ [])

last_node-Linked :
    (fuel : ℕ) (next : Store) (node x : ℕ) (nodes : List ℕ)
    → length nodes < fuel
    → Chain next x (x ∷ nodes)
    → (node == 0) ≡ false
    → NotIn node (x ∷ nodes)
    → Distinct (x ∷ nodes)
    → Linked fuel next node x (x ∷ nodes)
unfolding last_node at_end
last_node-Linked zero next node x nodes enough chain node_set away distinct = absurd (omega arith)
last_node-Linked (suc fuel) next node x [] enough (same, set, rest) node_set away distinct =
    record {
      end = x;
      found = rw (set, rest) refl;
      end_set = set;
      end_in = λ z h. h.0;
      linked = (
        refl,
        set,
        (
          set_next-away node 0 _ x away.0 ∙ set_next-at x node next,
          node_set,
          set_next-at node 0 (set_next x node next),
        ),
      );
    }
last_node-Linked (suc fuel) next node x (y ∷ nodes) enough (same, set, (at_y, y_set, rest)) node_set
      away distinct =
    let later =
      last_node-Linked fuel next node y nodes (omega arith) (refl, y_set, rest) node_set away.1
        distinct.1 in
    record {
      end = later.end;
      found = rw (set, at_y) (rw y_set later.found);
      end_set = later.end_set;
      end_in = λ z h. later.end_in z h.1;
      linked = (
        refl,
        set,
        rw (set_next-away node 0 (set_next later.end node next) x away.0) (
            rw
              (set_next-away later.end node next x
                (==_swap later.end x (later.end_in x distinct.0)))
              (rw at_y later.linked)),
      );
    }

-- Adding a node that is not in a list of distinct nodes returns, with fuel for one round more than
-- the list has nodes, and leaves the list with the node behind its last one.
pub list_add-Chain :
    (fuel : ℕ) (root : ℕ) (next : Store) (node : ℕ) (nodes : List ℕ)
    → length nodes < fuel
    → Chain next root nodes
    → (node == 0) ≡ false
    → NotIn node nodes
    → Distinct nodes
    → (after : ℕ × Store) × (list_add fuel root next node ≡ some after)
      × Chain after.1 after.0 (nodes ++ node ∷ [])
unfolding list_add last_node at_end link
list_add-Chain zero root next node nodes enough chain node_set away distinct = absurd (omega arith)
list_add-Chain (suc fuel) root next node [] enough chain node_set away distinct =
    let start : (root == 0) ≡ true = rw chain refl in
    (
      (node, set_next node 0 next),
      rw start (rw start refl),
      (refl, node_set, set_next-at node 0 next),
    )
list_add-Chain (suc fuel) root next node (x ∷ nodes) enough (at_x, set, rest) node_set away
      distinct =
    let l =
      last_node-Linked (suc fuel) next node x nodes (omega arith) (refl, set, rest) node_set away
        distinct in
    (
      (x, set_next node 0 (set_next l.end node next)),
      ap (λ r. Option.map (link r next node) (last_node (suc fuel) next r)) at_x
          ∙ ap (Option.map (link x next node)) l.found
          ∙ rw l.end_set refl,
      l.linked,
    )

drop_away :
    (x : ℕ) (before : List ℕ) (prev node : ℕ) (behind : List ℕ)
    → NotIn x (before ++ prev ∷ node ∷ behind)
    → (node == x) ≡ false
drop_away x [] prev node behind h = h.1.0
drop_away x (y ∷ before) prev node behind h = drop_away x before prev node behind h.1

-- On a list of distinct nodes `list_prev` returns the node in front of the one asked for, with fuel
-- for one round more than there are nodes up to it.
pub list_prev-Chain :
    (fuel : ℕ) (next : Store) (ptr : ℕ) (before : List ℕ) (prev node : ℕ) (behind : List ℕ)
    → length before < fuel
    → Chain next ptr (before ++ prev ∷ node ∷ behind)
    → Distinct (before ++ prev ∷ node ∷ behind)
    → list_prev fuel next node ptr ≡ some prev
unfolding list_prev
list_prev-Chain zero next ptr before prev node behind enough chain distinct = absurd (omega arith)
list_prev-Chain (suc fuel) next ptr [] prev node behind enough (at, set, (at_node, y_set, rest))
      distinct =
    rw (at, set, at_node, ==_same node) refl
list_prev-Chain (suc fuel) next ptr (x ∷ []) prev node behind enough
      (at, set, (at_prev, y_set, rest)) distinct =
    let off : (prev == node) ≡ false = ==_swap node prev distinct.1.0.0 in
    rw (at, set)
      (rw (at_prev, off)
        (list_prev-Chain fuel next prev [] prev node behind (omega arith) (refl, y_set, rest)
          distinct.1))
list_prev-Chain (suc fuel) next ptr (x ∷ y ∷ before) prev node behind enough
      (at, set, (at_y, y_set, rest)) distinct =
    let off : (y == node) ≡ false =
      ==_swap node y (drop_away y before prev node behind distinct.1.0) in
    rw (at, set)
      (rw (at_y, off)
        (list_prev-Chain fuel next y (y ∷ before) prev node behind (omega arith) (refl, y_set, rest)
          distinct.1))

-- `list_nuke` returns with fuel for one round more than there are nodes, and frees each node of the
-- list once, in order.
pub list_nuke-Chain :
    (fuel : ℕ) (next : Store) (ptr : ℕ) (nodes : List ℕ)
    → length nodes < fuel
    → Chain next ptr nodes
    → list_nuke fuel next ptr ≡ some nodes
unfolding list_nuke
list_nuke-Chain zero next ptr nodes enough chain = absurd (omega arith)
list_nuke-Chain (suc fuel) next ptr [] enough chain = rw chain refl
list_nuke-Chain (suc fuel) next ptr (x ∷ nodes) enough (at, set, rest) =
    rw (at, set)
      (ap (Option.map (◌∷◌ x)) (list_nuke-Chain fuel next (next x) nodes (omega arith) rest))
