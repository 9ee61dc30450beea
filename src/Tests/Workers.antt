-- ===== src/Tests/Workers.antt =====
-- internal/worker/pool.go: the theorems on the worker.
use worker_lightweight.Base.{◌≡◌, ◌↔◌, true, false, not, ◌&&◌, [], ◌∷◌, none, some, pos, Text, lit}
use worker_lightweight.Model.{Result}
use worker_lightweight.Worker.{Config, Run, exited, run_task}
use worker_lightweight.Worker.Active.{has, cancel_all, cancel_all_lem}
use worker_lightweight.Worker.Outcomes.{Passes, run_task_lem}
use worker_lightweight.Tests.Data.{backup}

abbrev open_worker : Config
open_worker = record { id = lit "w1"; allowed = none; blocked = none }

abbrev shell : Text → Run
shell command = exited command

cancels_listed :
    (has (pos 3) (cancel_all (pos 3 ∷ pos 9 ∷ []) (pos 3 ∷ pos 4 ∷ [])).1
      ≡ (has (pos 3) (pos 3 ∷ pos 4 ∷ []) && not (has (pos 3) (pos 3 ∷ pos 9 ∷ []))))
    × (has (pos 3) (cancel_all (pos 3 ∷ pos 9 ∷ []) (pos 3 ∷ pos 4 ∷ [])).0
        ≡ (has (pos 3) (pos 3 ∷ pos 4 ∷ []) && has (pos 3) (pos 3 ∷ pos 9 ∷ [])))
cancels_listed = cancel_all_lem (pos 3 ∷ pos 9 ∷ []) (pos 3 ∷ pos 4 ∷ []) (pos 3)

reports_backup :
    (run_task open_worker shell true backup ≡ none)
    × ((r : Result) × (run_task open_worker shell false backup ≡ some r)
        × (r.task_id ≡ pos 1)
        × (r.worker_id ≡ lit "w1")
        × ((r.success ≡ true) ↔ (
            Passes open_worker (lit "true") × ((out : Text) × (shell (lit "true") ≡ exited out)))))
reports_backup = run_task_lem open_worker shell backup
