-- ===== src/Misc/Lists/Positions.antt =====
-- The nodes of a list by their positions: what `next` and `list_prev` give for them.
use kexec_loader.Misc.Lists.{Store, list_prev}
use kexec_loader.Misc.Lists.Chains.{Chain, NotIn, Distinct, ==_swap, ==_same}
use kexec_loader.Base.{
  ◌==◌, length, All, ℕ, zero, suc, ◌<◌, ◌≡◌, refl, false, some, List, [], ◌∷◌, arith,
}

-- The node at a position, or NULL behind the list.
unfoldable pub node_at : List ℕ → ℕ → ℕ
node_at [] k = 0
node_at (x ∷ nodes) zero = x
node_at (x ∷ nodes) (suc k) = node_at nodes k

pub Chain-node_at :
    (next : Store) (ptr : ℕ) (nodes : List ℕ) → Chain next ptr nodes → ptr ≡ node_at nodes 0
unfolding node_at
Chain-node_at next ptr [] h = h
Chain-node_at next ptr (x ∷ nodes) (at, set, rest) = at

pub next-node_at :
    (next : Store) (ptr : ℕ) (nodes : List ℕ) (k : ℕ)
    → Chain next ptr nodes
    → k < length nodes
    → next (node_at nodes k) ≡ node_at nodes (suc k)
unfolding node_at
next-node_at next ptr [] k h lt = absurd (omega arith)
next-node_at next ptr (x ∷ nodes) zero (at, set, rest) lt = Chain-node_at next (next x) nodes rest
next-node_at next ptr (x ∷ nodes) (suc k) (at, set, rest) lt =
    next-node_at next (next x) nodes k rest (omega arith)

pub node_at-set :
    (next : Store) (ptr : ℕ) (nodes : List ℕ) (k : ℕ)
    → Chain next ptr nodes
    → k < length nodes
    → (node_at nodes k == 0) ≡ false
unfolding node_at
node_at-set next ptr [] k h lt = absurd (omega arith)
node_at-set next ptr (x ∷ nodes) zero (at, set, rest) lt = set
node_at-set next ptr (x ∷ nodes) (suc k) (at, set, rest) lt =
    node_at-set next (next x) nodes k rest (omega arith)

pub node_at_end : (nodes : List ℕ) → node_at nodes (length nodes) ≡ 0
unfolding node_at
node_at_end [] = refl
node_at_end (x ∷ nodes) = node_at_end nodes

NotIn-node_at :
    (x : ℕ) (nodes : List ℕ) (k : ℕ)
    → NotIn x nodes
    → k < length nodes
    → (node_at nodes k == x) ≡ false
unfolding node_at
NotIn-node_at x [] k h lt = absurd (omega arith)
NotIn-node_at x (y ∷ nodes) zero h lt = h.0
NotIn-node_at x (y ∷ nodes) (suc k) h lt = NotIn-node_at x nodes k h.1 (omega arith)

-- Two positions of a list of distinct nodes hold two nodes.
pub node_at-Distinct :
    (nodes : List ℕ) (j k : ℕ)
    → Distinct nodes
    → j < k
    → k < length nodes
    → (node_at nodes j == node_at nodes k) ≡ false
unfolding node_at
node_at-Distinct [] j k h lt lt' = absurd (omega arith)
node_at-Distinct (x ∷ nodes) j zero h lt lt' = absurd (omega arith)
node_at-Distinct (x ∷ nodes) zero (suc k) h lt lt' =
    ==_swap (node_at nodes k) x (NotIn-node_at x nodes k h.0 (omega arith))
node_at-Distinct (x ∷ nodes) (suc j) (suc k) h lt lt' =
    node_at-Distinct nodes j k h.1 (omega arith) (omega arith)

list_prev-node_at :
    (fuel : ℕ) (next : Store) (ptr : ℕ) (nodes : List ℕ) (k : ℕ)
    → Chain next ptr nodes
    → Distinct nodes
    → suc k < length nodes
    → length nodes < fuel
    → list_prev fuel next (node_at nodes (suc k)) ptr ≡ some (node_at nodes k)
unfolding list_prev node_at
list_prev-node_at zero next ptr nodes k h d lt enough = absurd (omega arith)
list_prev-node_at (suc fuel) next ptr [] k h d lt enough = absurd (omega arith)
list_prev-node_at (suc fuel) next ptr (x ∷ []) k h d lt enough = absurd (omega arith)
list_prev-node_at (suc fuel) next ptr (x ∷ y ∷ nodes) zero (at, set, (at', set', rest)) d lt
      enough =
    rw (at, set) (rw (at', ==_same y) refl)
list_prev-node_at (suc fuel) next ptr (x ∷ y ∷ nodes) (suc k) (at, set, rest) d lt enough =
    let off : (next x == node_at nodes k) ≡ false =
      rw rest.0 (node_at-Distinct (y ∷ nodes) 0 (suc k) d.1 (omega arith) (omega arith)) in
    rw (at, set)
      (rw off
        (list_prev-node_at fuel next (next x) (y ∷ nodes) k rest d.1 (omega arith) (omega arith)))

-- No node has its `next` at one that is not in the list.
list_prev_none :
    (fuel : ℕ) (next : Store) (ptr : ℕ) (nodes : List ℕ) (node : ℕ)
    → Chain next ptr nodes
    → All (λ x. (next x == node) ≡ false) nodes
    → length nodes < fuel
    → list_prev fuel next node ptr ≡ some 0
unfolding list_prev
list_prev_none zero next ptr nodes node h k enough = absurd (omega arith)
list_prev_none (suc fuel) next ptr [] node h k enough = rw h refl
list_prev_none (suc fuel) next ptr (x ∷ nodes) node (at, set, rest) (off, k) enough =
    rw (at, set) (rw off (list_prev_none fuel next (next x) nodes node rest k (omega arith)))

nexts_away :
    (next : Store) (ptr x : ℕ) (nodes : List ℕ)
    → Chain next ptr nodes
    → NotIn x nodes
    → (x == 0) ≡ false
    → (ptr == x) ≡ false × All (λ y. (next y == x) ≡ false) nodes
nexts_away next ptr x [] h k set = (rw h (==_swap x 0 set), tt)
nexts_away next ptr x (y ∷ nodes) (at, set', rest) (off, k) set =
    (rw at off, nexts_away next (next y) x nodes rest k set)

list_prev-root :
    (fuel : ℕ) (next : Store) (ptr : ℕ) (nodes : List ℕ)
    → Chain next ptr nodes
    → Distinct nodes
    → 0 < length nodes
    → length nodes < fuel
    → list_prev fuel next (node_at nodes 0) ptr ≡ some 0
unfolding node_at
list_prev-root fuel next ptr [] h d lt enough = absurd (omega arith)
list_prev-root fuel next ptr (x ∷ nodes) (at, set, rest) d lt enough =
    list_prev_none fuel next ptr (x ∷ nodes) x (at, set, rest)
      (nexts_away next (next x) x nodes rest d.0 set) enough

-- The position in front, where NULL is in front of the first node.
unfoldable pub before : List ℕ → ℕ → ℕ
unfolding node_at
before nodes zero = 0
before nodes (suc k) = node_at nodes k

-- On a list of distinct nodes `list_prev` returns, with fuel for one round more than it has nodes,
-- the node in front of the one at a position, and NULL for the first one.
pub list_prev-before :
    (fuel : ℕ) (next : Store) (root : ℕ) (nodes : List ℕ) (k : ℕ)
    → Chain next root nodes
    → Distinct nodes
    → k < length nodes
    → length nodes < fuel
    → list_prev fuel next (node_at nodes k) root ≡ some (before nodes k)
unfolding before
list_prev-before fuel next root nodes zero h d lt enough =
    list_prev-root fuel next root nodes h d lt enough
list_prev-before fuel next root nodes (suc k) h d lt enough =
    list_prev-node_at fuel next root nodes k h d lt enough
