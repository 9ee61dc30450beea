-- ===== src/Tests/Runs.antt =====
-- internal/store/store.go and internal/server/server.go: the theorems on runs, at concrete runs.
use worker_lightweight.Base.{
  refl, true, false, List, [], ◌∷◌, some, pos, lit, In, head, arith, ◌+◌, ◌*◌, ◌^◌, text_beq,
}
use worker_lightweight.Model.{Task, Result, pending, running, status_eq, type_eq}
use worker_lightweight.Store.Db.{Db}
use worker_lightweight.Store.Tasks.{create}
use worker_lightweight.Store.Claim.{claim_pending}
use worker_lightweight.Store.Report.{report_result, new_retry, new_status, backoff}
use worker_lightweight.Store.Life.Rows.{IsValid}
use worker_lightweight.Store.Life.Evolution.{Evolves}
use worker_lightweight.Store.Life.Reach.{
  Reach, Reach-Evolves, start, step, creates, claims, reports, empty_db, empty_db-IsValid,
}
use worker_lightweight.Store.Life.Bounds.{SameDefinition, Reach-SameDefinition, IsSound}
use worker_lightweight.Store.Life.Retries.{Counted}
use worker_lightweight.Store.Life.Requeues.{times_sent_back, Reach-requeues}
use worker_lightweight.Server.Types.{Request, State}
use worker_lightweight.Server.Routes.{World, Route, all_tasks, serve}
use worker_lightweight.Server.Handlers.{create_task}
use worker_lightweight.Server.Runs.{serve_all, serve_all-IsSound}
use worker_lightweight.Tests.Oldest.{oldest_row, oldest_row-IsOldest}
use worker_lightweight.Tests.Data.{backup, like_all}
use worker_lightweight.Tests.Services.{some_crons, pull_request, server}

-- What createTask inserts for `backup`, and the table after it and after a worker's poll.
abbrev fresh : Task
fresh = record backup { id = pos 0; created_at = 0; updated_at = 0; next_run_at = 0 }

abbrev pub created : Db
created = (create fresh 50 [] empty_db).2

abbrev claimed : Db
claimed = (claim_pending oldest_row (lit "w1") 60 61 [] created).2

abbrev row : Task
row = record fresh {
  id = pos 1;
  status = running;
  worker_id = lit "w1";
  created_at = 50;
  updated_at = 61;
  next_run_at = 50;
}

-- The run that leads there.
a_run : Reach oldest_row empty_db claimed
a_run =
    step
      (step start
        (creates fresh 50 [] (record { waits = refl; untried = refl; unowned = refl }) refl))
      (claims (lit "w1") 60 61 [] refl)

row_stands : In row claimed.tasks
unfolding create claim_pending
row_stands = head refl

run-Evolves : Evolves empty_db claimed
run-Evolves = Reach-Evolves oldest_row oldest_row-IsOldest empty_db claimed empty_db-IsValid a_run

abbrev pub waiting : Task
waiting = record fresh {
  id = pos 1;
  created_at = 50;
  updated_at = 50;
  next_run_at = 50;
  enabled = true;
}

waiting_stands : In waiting created.tasks
unfolding create
waiting_stands = head refl

pub created-IsValid : IsValid created
created-IsValid =
    (Reach-Evolves oldest_row oldest_row-IsOldest empty_db created empty_db-IsValid (
      step start
        (creates fresh 50 [] (record { waits = refl; untried = refl; unowned = refl }) refl))).valid

keeps_definition : SameDefinition waiting row
keeps_definition =
    Reach-SameDefinition oldest_row oldest_row-IsOldest created claimed waiting row created-IsValid
      (step start (claims (lit "w1") 60 61 [] refl)) waiting_stands row_stands refl

-- The same run, and a failed report of the worker: the row waits again.
abbrev failed_once : Result
failed_once = record { task_id = pos 1; worker_id = lit "w1"; success = false; output = [] }

abbrev waits_again : Db
waits_again = (report_result failed_once 70 [] claimed).2

abbrev again_row : Task
again_row = record row {
  status = pending;
  retry_count = pos 1;
  worker_id = [];
  result = [];
  updated_at = 70;
  next_run_at = 70 + 5 * 10 ^ 9;
}

again_run : Reach oldest_row empty_db waits_again
again_run = step a_run (reports failed_once 70 [] refl)

again_stands : In again_row waits_again.tasks
unfolding create claim_pending report_result new_retry new_status backoff text_beq
again_stands = head refl

row-requeues : Counted again_row (times_sent_back (pos 1) empty_db waits_again again_run)
row-requeues =
    Reach-requeues oldest_row oldest_row-IsOldest waits_again again_row again_run again_stands
      (omega arith) refl

abbrev create_request : Request
create_request = record pull_request {
  create_body = some (record {
    name = lit "backup";
    command = lit "true";
    type = lit "once";
    cron_expr = [];
    max_retry = pos 2;
    timeout_sec = pos 30;
  });
}

abbrev all_well : World
all_well = record { faults = []; now = 50; now' = 51; allowed = true }

abbrev requests : List (Route × World × Request)
requests = (all_tasks, all_well, create_request) ∷ []

abbrev served : State
served = serve_all oldest_row like_all some_crons requests (server empty_db)

served_row :
    In
      (record fresh {
        id = pos 1;
        created_at = 50;
        updated_at = 50;
        next_run_at = 50;
        enabled = true;
      })
      served.db.tasks
unfolding serve_all serve create create_task
served_row = head refl

served-IsSound : IsSound (record fresh {
  id = pos 1;
  created_at = 50;
  updated_at = 50;
  next_run_at = 50;
  enabled = true;
})
served-IsSound =
    serve_all-IsSound oldest_row like_all some_crons oldest_row-IsOldest requests (server empty_db)
      _ refl served_row
