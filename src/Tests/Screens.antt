-- ===== src/Tests/Screens.antt =====
-- The menu on a list of three targets.
use kexec_loader.Misc.Lists.{Store}
use kexec_loader.Misc.Lists.Chains.{Chain, Distinct}
use kexec_loader.Misc.Lists.Positions.{node_at}
use kexec_loader.Console.{Key, key_up, key_down, byte}
use kexec_loader.Menu.{times_out, menu_main, boots}
use kexec_loader.Menu.Selection.{}
use kexec_loader.Menu.Choice.{choose, move_all, Runs}
use kexec_loader.Menu.First.{default_position, first_position, menu_main-eq-choose}
use kexec_loader.Menu.Timeout.{FirstDefault, menu_main-boots}
use kexec_loader.Menu.Drawing.{Highlights, menu_main-Highlights}
use kexec_loader.Base.{
  ◌==◌, if◌then◌else◌, CString, str, pos, negsuc, ℕ, zero, suc, ◌<◌, ◌≡◌, refl, inl, Bool, false,
  some, List, [], ◌∷◌, ◌++◌, arith,
}

-- 10 → 20 → 30 → NULL
abbrev listed : Store
listed = λ at. if at == 10 then 20 else if at == 20 then 30 else 0

abbrev entries : List ℕ
entries = 10 ∷ 20 ∷ 30 ∷ []

entries-Chain : Chain listed 10 entries
entries-Chain = (refl, refl, (refl, refl, (refl, refl, refl)))

entries-Distinct : Distinct entries
entries-Distinct = ((refl, (refl, tt)), ((refl, tt), (tt, tt)))

-- the flags, the titles, and two keys
abbrev second : ℕ → Bool
second = λ at. at == 20

abbrev titles : ℕ → CString
titles at = if at == 20 then str "Linux" else str "Rescue"

abbrev keys : List Key
keys = key_down ∷ key_down ∷ key_up ∷ byte 10 ∷ []

runs :
    menu_main 4 10 listed second 10
      (negsuc 0)
      (λ n. false)
      (key_down ∷ byte 10 ∷ key_up ∷ key_up ∷ byte 10 ∷ [])
    ≡ some (boots 30 ∷ boots 10 ∷ [], record { start = 10; target = 10; row = 6 })
unfolding menu_main
runs = refl

menu_main-eq-choose_example :
    Runs 10 entries
      ((if times_out (λ n. n == 2) (pos 3)
          then boots (node_at entries (first_position (default_position second entries))) ∷ []
          else [])
        ++ choose entries (first_position (default_position second entries)) keys)
      (move_all 3 (first_position (default_position second entries)) keys)
      (menu_main 4 10 listed second 10 (pos 3) (λ n. n == 2) keys)
menu_main-eq-choose_example =
    menu_main-eq-choose 10 4 listed 10 entries entries-Chain entries-Distinct (omega arith)
      (omega arith) second (pos 3) (λ n. n == 2) keys (omega arith)

in_front : (j : ℕ) → j < 1 → second (node_at entries j) ≡ false
unfolding node_at
in_front zero lt = refl
in_front (suc j) lt = absurd (omega arith)

second_first : FirstDefault second entries 1
unfolding node_at
second_first = inl (refl, omega arith, in_front)

menu_main-boots_example :
    Runs 10 entries
      (boots (node_at entries 1) ∷ choose entries 1 keys)
      (move_all 3 1 keys)
      (menu_main 4 10 listed second 10 (pos 5) (λ n. false) keys)
menu_main-boots_example =
    menu_main-boots 10 4 listed 10 entries entries-Chain entries-Distinct (omega arith)
      (omega arith) second 5 (λ n. false) keys 1 (omega arith) second_first (λ k lt le. refl)

menu_main-Highlights_example :
    Highlights 10 4 listed 10 titles (menu_main 4 10 listed second 10 (pos 0) (λ n. false) keys)
menu_main-Highlights_example =
    menu_main-Highlights 10 4 listed 10 entries entries-Chain entries-Distinct (omega arith)
      (omega arith) second titles (pos 0) (λ n. false) keys (omega arith)
