-- ===== src/Misc/Lists/Removal.antt =====
-- What `list_del` does with each node of a list.
use kexec_loader.Misc.Lists.{Store, set_next, at_end, Deleted, del_loop, list_del}
use kexec_loader.Misc.Lists.Chains.{
  Chain, NotIn, Distinct, ==_same, ==_swap, set_next-at, Chain-set_next,
}
use kexec_loader.Base.{
  ◌==◌, ℕ, zero, suc, ◌<◌, ◌≡◌, refl, ap, ◌∙◌, true, false, none, some, List, [], ◌∷◌, arith,
}

-- The node is taken off the list and freed.
pub record Removed (node : ℕ) (nodes : List ℕ) (d : Deleted) : Type 0 where
  pub was_freed : d.freed ≡ some node
  pub remain : Chain d.next d.root nodes

-- The first two nodes of a list of distinct nodes are taken off it and freed; fuel for one round
-- is enough.
pub list_del-Removed :
    (fuel : ℕ) (root : ℕ) (next : Store) (x y : ℕ) (nodes : List ℕ)
    → 0 < fuel
    → Chain next root (x ∷ y ∷ nodes)
    → Distinct (x ∷ y ∷ nodes)
    → ((d : Deleted) × (list_del fuel root next x ≡ some d) × Removed x (y ∷ nodes) d)
      × ((d : Deleted) × (list_del fuel root next y ≡ some d) × Removed y (x ∷ nodes) d)
unfolding list_del del_loop at_end
list_del-Removed zero root next x y nodes enough chain distinct = absurd (omega arith)
list_del-Removed (suc fuel) root next x y nodes enough (at_x, set, (at_y, y_set, rest)) distinct =
    let away : (x == y) ≡ false = ==_swap y x distinct.0.0 in
    let first : Deleted = record { root = next root; next = next; freed = some x } in
    let second : Deleted = record {
      root = x;
      next = set_next x (next (next x)) next;
      freed = some y;
    } in
    let distinct_rest : NotIn x nodes = distinct.0.1 in
    let same : (root == x) ≡ true = rw at_x (==_same x) in
    (
      (
        first,
        rw same refl,
        record { was_freed = refl; remain = (ap next at_x ∙ at_y, y_set, rest) },
      ),
      (
        second,
        rw at_x (rw (away, set) (rw (at_y, y_set, ==_same y) refl)),
        record {
          was_freed = refl;
          remain = (
            refl,
            set,
            rw (set_next-at x (next (next x)) next) (
                Chain-set_next x (next (next x)) next (next (next x)) nodes distinct_rest
                  (rw at_y rest)),
          );
        },
      ),
    )

del_loop-stays :
    (fuel : ℕ) (root : ℕ) (next : Store) (node ptr : ℕ)
    → at_end next ptr ≡ false
    → (next ptr == node) ≡ false
    → del_loop fuel root next node ptr ≡ none
unfolding del_loop
del_loop-stays zero root next node ptr h k = refl
del_loop-stays (suc fuel) root next node ptr h k =
    rw (h, k) (del_loop-stays fuel root next node ptr h k)

-- `list_del` never returns for any node that is not one of the first two of a list of at least two
-- nodes: no fuel is enough.
pub list_del-stays :
    (fuel : ℕ) (root : ℕ) (next : Store) (x y : ℕ) (nodes : List ℕ) (node : ℕ)
    → Chain next root (x ∷ y ∷ nodes)
    → NotIn node (x ∷ y ∷ [])
    → list_del fuel root next node ≡ none
unfolding list_del at_end
list_del-stays fuel root next x y nodes node (at_x, set, (at_y, y_set, rest))
      (not_x, (not_y, end)) =
    let h : at_end next x ≡ false = rw set (rw (at_y, y_set) refl) in
    rw at_x (rw not_x (del_loop-stays fuel x next node x h (rw at_y not_y)))
