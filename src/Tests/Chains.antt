-- ===== src/Tests/Chains.antt =====
-- Linked lists in a store of four nodes.
use kexec_loader.Misc.Lists.{Store, list_add, Deleted, list_del, list_prev, list_nuke}
use kexec_loader.Misc.Lists.Chains.{Chain, list_add-Chain, list_nuke-Chain}
use kexec_loader.Misc.Lists.Positions.{node_at, before, list_prev-before}
use kexec_loader.Misc.Lists.Removal.{Removed, list_del-Removed, list_del-stays}
use kexec_loader.Base.{◌==◌, if◌then◌else◌, ℕ, ◌≡◌, refl, none, some, [], ◌∷◌, ◌++◌, arith}

-- 10 → 20 → 30 → NULL
abbrev three : Store
three = λ at. if at == 10 then 20 else if at == 20 then 30 else 0

three-Chain : Chain three 10 (10 ∷ 20 ∷ 30 ∷ [])
three-Chain = (refl, refl, (refl, refl, (refl, refl, refl)))

list_add-Chain_example :
    (after : ℕ × Store) × (list_add 4 10 three 40 ≡ some after)
    × Chain after.1 after.0 ((10 ∷ 20 ∷ 30 ∷ []) ++ 40 ∷ [])
list_add-Chain_example =
    list_add-Chain 4 10 three 40 (10 ∷ 20 ∷ 30 ∷ []) (omega arith) three-Chain refl
      (refl, (refl, (refl, tt))) ((refl, (refl, tt)), ((refl, tt), (tt, tt)))

list_prev-before_example :
    list_prev 4 three (node_at (10 ∷ 20 ∷ 30 ∷ []) 2) 10 ≡ some (before (10 ∷ 20 ∷ 30 ∷ []) 2)
list_prev-before_example =
    list_prev-before 4 three 10 (10 ∷ 20 ∷ 30 ∷ []) 2 three-Chain
      ((refl, (refl, tt)), ((refl, tt), (tt, tt))) (omega arith) (omega arith)

list_nuke-Chain_example : list_nuke 4 three 10 ≡ some (10 ∷ 20 ∷ 30 ∷ [])
list_nuke-Chain_example = list_nuke-Chain 4 three 10 (10 ∷ 20 ∷ 30 ∷ []) (omega arith) three-Chain

list_del-Removed_example :
    ((d : Deleted) × (list_del 1 10 three 10 ≡ some d) × Removed 10 (20 ∷ 30 ∷ []) d)
    × ((d : Deleted) × (list_del 1 10 three 20 ≡ some d) × Removed 20 (10 ∷ 30 ∷ []) d)
list_del-Removed_example =
    list_del-Removed 1 10 three 10 20 (30 ∷ []) (omega arith) three-Chain
      ((refl, (refl, tt)), ((refl, tt), (tt, tt)))

list_del-stays_example : list_del 1000 10 three 30 ≡ none
list_del-stays_example =
    list_del-stays 1000 10 three 10 20 (30 ∷ []) 30 three-Chain (refl, (refl, tt))
