-- ===== src/Misc/Lists.antt =====
-- The linked lists of src/misc.c, on a store of nodes: an address is a number, NULL is 0, and the
-- store gives the `next` pointer at an address. Functions with a loop run on fuel; `none` is fuel
-- used up.
pub mod Chains
pub mod Positions
pub mod Removal
use mathlib.Core.Option
use kexec_loader.Base.{
  ◌∷◌, ◌==◌, if◌then◌else◌, ℕ, zero, suc, Bool, ◌&&◌, ◌||◌, Option, none, some, List, [], map,
}

abbrev pub Store : Type 0
Store = ℕ → ℕ

-- `node->next = value`
unfoldable pub set_next : ℕ → ℕ → Store → Store
set_next node value next at = if at == node then value else next at

-- the test `ptr && ptr->next` of the loops, refuted
unfoldable pub at_end : Store → ℕ → Bool
at_end next ptr = ptr == 0 || next ptr == 0

-- the loop of `list_add`
unfoldable pub last_node : ℕ → Store → ℕ → Option ℕ
unfolding at_end
last_node zero next ptr = none
last_node (suc fuel) next ptr =
    let later = last_node fuel next (next ptr) in if at_end next ptr then some ptr else later

-- The root and the store behind the loop.
unfoldable pub link : ℕ → Store → ℕ → ℕ → ℕ × Store
unfolding set_next
link root next node ptr =
    if ptr == 0
    then (node, set_next node 0 next)
    else (root, set_next node 0 (set_next ptr node next))

unfoldable pub list_add : ℕ → ℕ → Store → ℕ → Option (ℕ × Store)
unfolding last_node link
list_add fuel root next node = Option.map (link root next node) (last_node fuel next root)

-- What `list_del` leaves: the root, the store, and the node that it has freed, if any.
pub record Deleted : Type 0 where
  pub root : ℕ
  pub next : Store
  pub freed : Option ℕ

-- The loop of `list_del`: no round changes `ptr`.
unfoldable pub del_loop : ℕ → ℕ → Store → ℕ → ℕ → Option Deleted
unfolding at_end set_next
del_loop zero root next node ptr = none
del_loop (suc fuel) root next node ptr =
    let later = del_loop fuel root next node ptr in
    if at_end next ptr
    then some (record { root = root; next = next; freed = none })
    else if next ptr == node
    then some
        (record { root = root; next = set_next ptr (next (next ptr)) next; freed = some node })
    else later

unfoldable pub list_del : ℕ → ℕ → Store → ℕ → Option Deleted
unfolding del_loop
list_del fuel root next node =
    if root == node
    then some (record { root = next root; next = next; freed = some node })
    else del_loop fuel root next node root

-- The result is a pointer; NULL is no previous node.
unfoldable pub list_prev : ℕ → Store → ℕ → ℕ → Option ℕ
list_prev zero next node ptr = none
list_prev (suc fuel) next node ptr =
    let later = list_prev fuel next node (next ptr) in
    if ptr == 0 then some 0 else if next ptr == node then some ptr else later

-- The nodes that `list_nuke` frees, in order; `next` of a node is read before it is freed.
unfoldable pub list_nuke : ℕ → Store → ℕ → Option (List ℕ)
list_nuke zero next ptr = none
list_nuke (suc fuel) next ptr =
    let later = list_nuke fuel next (next ptr) in
    if ptr == 0 then some [] else Option.map (◌∷◌ ptr) later
