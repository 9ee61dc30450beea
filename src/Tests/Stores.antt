-- ===== src/Tests/Stores.antt =====
-- internal/store/store.go: the theorems on single operations, at a concrete table.
use native.Mathlib.Omega.{arith}
use worker_lightweight.Base.{
  ◌≡◌, Bool, true, false, [], ◌∷◌, pos, lit, ◌&&◌, ◌==◌, int_eq, length, select, ◌<◌, ◌⊎◌,
}
use worker_lightweight.Model.{cron, status_eq, type_eq}
use worker_lightweight.Store.Db.{matching, update_rows, db_error, ok}
use worker_lightweight.Store.Rules.{Ensures}
use worker_lightweight.Store.Claim.{claim_pending}
use worker_lightweight.Store.Claim.Effects.{Claims, ClaimFails, Ensures-claim}
use worker_lightweight.Store.Claim.Exclusive.{Poll, claim_all, Distinct, claim_all-Distinct}
use worker_lightweight.Store.Report.{report_result}
use worker_lightweight.Store.Report.Effects.{ReportFails}
use worker_lightweight.Store.Report.Outcomes.{ReportsRow, Ensures-report}
use worker_lightweight.Store.Control.{set_enabled, stop_task, stop_all_cron}
use worker_lightweight.Store.Control.Effects.{
  Edited, Refused, Ensures-set_enabled, Ensures-stop_task, Ensures-stop_all_cron,
}
use worker_lightweight.Store.Control.Intents.{
  switched, paused_defs, is_live_child, live_child_of, waits_or_runs, stopped_for,
}
use worker_lightweight.Server.Handlers.{total_pages}
use mathlib.Core.List.{Perm}
use worker_lightweight.Store.Query.{matches, count_tasks}
use worker_lightweight.Store.Query.Pages.{all_pages, Descending, list_pages}
use worker_lightweight.Tests.Oldest.{oldest_row, oldest_row-IsOldest}
use worker_lightweight.Tests.Data.{table, failure, like_all, all_rows}

abbrev first_poll : Poll
first_poll = record { worker = lit "w1"; now = 20; now' = 21 }

abbrev second_poll : Poll
second_poll = record { worker = lit "w2"; now = 22; now' = 23 }

Claims-later :
    Ensures
      (claim_pending oldest_row (lit "w1") 20 21)
      (Claims oldest_row oldest_row-IsOldest (lit "w1") 20 21 table)
      (ClaimFails oldest_row oldest_row-IsOldest (lit "w1") 20 21 table)
      table
Claims-later = Ensures-claim oldest_row oldest_row-IsOldest (lit "w1") 20 21 table

two_polls-Distinct :
    Distinct
      (claim_all oldest_row (first_poll ∷ second_poll ∷ first_poll ∷ []) (false ∷ true ∷ []) table)
two_polls-Distinct =
    claim_all-Distinct oldest_row oldest_row-IsOldest (first_poll ∷ second_poll ∷ first_poll ∷ [])
      (false ∷ true ∷ []) table

Reports-failure :
    Ensures
      (report_result failure 30)
      (ReportsRow failure 30 table)
      (ReportFails failure 30 table)
      table
Reports-failure = Ensures-report failure 30 table

disables_nightly :
    Ensures
      (set_enabled (pos 2) false 40 41)
      (λ _ db'.
        (0 < matching (λ t. t.id == pos 2) table)
        × Edited table (switched (pos 2) false 40 41 table.tasks) db'
        × ((◌≡◌ {A = Bool} false true) ⊎ (select (live_child_of (pos 2)) db'.tasks ≡ [])))
      (Refused table (λ t. t.id == pos 2))
      table
disables_nightly = Ensures-set_enabled (pos 2) false 40 41 table

stops_child :
    Ensures
      (stop_task (pos 3) 40)
      (λ _ db'.
        (0 < matching (λ t. t.id == pos 3 && waits_or_runs t) table)
        × Edited table
            (update_rows
              (λ t. t.id == pos 3 && waits_or_runs t)
              (stopped_for (lit "stopped by user") 40)
              table.tasks)
            db')
      (Refused table (λ t. t.id == pos 3 && waits_or_runs t))
      table
stops_child = Ensures-stop_task (pos 3) 40 table

stops_all :
    Ensures
      (stop_all_cron 40 41)
      (λ r db'.
        (r.0 ≡ matching (λ t. t.type == cron) table)
        × (r.1 ≡ length (select is_live_child (paused_defs 40 table.tasks)))
        × Edited table
            (update_rows is_live_child
              (stopped_for (lit "stopped: cron shutdown") 41)
              (paused_defs 40 table.tasks))
            db'
        × (select is_live_child db'.tasks ≡ []))
      (λ e db'. (e ≡ db_error) × ((db' ≡ table) ⊎ Edited table (paused_defs 40 table.tasks) db'))
      table
stops_all = Ensures-stop_all_cron 40 41 table

pages_of_one :
    (count_tasks like_all all_rows [] table
      ≡ (ok (length (matches like_all all_rows table.tasks)), [], table))
    × Perm
        (all_pages like_all all_rows 1 table 0
          (total_pages (length (matches like_all all_rows table.tasks)) 1))
        (matches like_all all_rows table.tasks)
    × Descending (
        all_pages like_all all_rows 1 table 0
          (total_pages (length (matches like_all all_rows table.tasks)) 1))
pages_of_one = list_pages like_all all_rows 1 table (omega arith) (omega arith)
