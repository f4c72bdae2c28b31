-- ===== src/Scenarios/Windows.antt =====
-- A monitor with a small window.
use clayseal_receipts.Prelude.{ℕ, ◌≤◌, ◌≡◌, refl, List, [], ◌∷◌, pos}
use clayseal_receipts.Policy.{ExecutionContext}
use clayseal_receipts.Monitor.{SessionActionMonitor, remembered, prior_action_count}
use clayseal_receipts.Monitor.Window.{last_of, actions_of, commit_all, commit_all_remembers}
use clayseal_receipts.Scenarios.Gates.{call, rules}

abbrev calls : List (ExecutionContext ℕ)
calls = call ∷ call ∷ call ∷ []

abbrev monitor : SessionActionMonitor ℕ
monitor = record { monitoring = record rules.monitoring { history_window = pos 2 }; history = [] }

commit_all_remembers_example :
    (remembered "s" (commit_all calls monitor).history ≡ last_of 2 (actions_of "s" calls))
    × (prior_action_count (commit_all calls monitor) "s" ≤ 2)
commit_all_remembers_example = commit_all_remembers 1 calls monitor "s" refl refl
