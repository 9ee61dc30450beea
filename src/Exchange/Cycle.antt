-- ===== src/Exchange/Cycle.antt =====
-- internal/worker/pool.go, internal/server/server.go and internal/store/store.go: from a worker's poll
-- to the outcome of the task in the table.
use worker_lightweight.Base.{
  ◌≡◌, refl, ◌∙◌, ℕ, Bool, true, false, ◌&&◌, List, [], Option, some, Text, select, ◌==◌, nat_eq,
  int_eq, arith,
}
use worker_lightweight.Model.{Task, Result, PullResponse, pending, running, status_eq}
use worker_lightweight.Model.Json.{wire}
use worker_lightweight.Store.Db.{Db, ok, update_rows}
use worker_lightweight.Store.Control.{get_stop_list}
use worker_lightweight.Store.Claim.{is_due, claimed, claim_pending}
use worker_lightweight.Store.Claim.Effects.{IsOldest, IsChosen, IsChosen-intro}
use worker_lightweight.Store.Claim.Progress.{claim_some}
use worker_lightweight.Store.Report.{report_result}
use worker_lightweight.Store.Report.Running.{finished, report_claimed}
use worker_lightweight.Store.Life.Rows.{IsValid}
use worker_lightweight.Server.Types.{Request, Response, State, Payload, done}
use worker_lightweight.Server.Handlers.{write_json, with_db}
use worker_lightweight.Server.Pulls.{after_claim}
use worker_lightweight.Server.Routes.{World, pulls, results, serve}
use worker_lightweight.Worker.{Config, Run, exec, run_task}
use worker_lightweight.Worker.Active.{Active}
use worker_lightweight.Worker.Client.{Sent, Client, fetch_request, report_request, fetch}
use worker_lightweight.Exchange.{IsHttp, all_of, is_ascii}
use worker_lightweight.Exchange.Arrivals.{IsClientOf, fetch_arrives, report_arrives}

-- The rate limiter lets the request in, and the database answers.
pub record IsCalm (w : World) : Type 0 where
  pub let_in : w.allowed ≡ true
  pub answers : w.faults ≡ []

-- What the worker reports of the task, if its context does not end.
abbrev pub reply_of : Config → (Text → Run) → Task → Result
reply_of c shell t = record {
  task_id = t.id;
  worker_id = c.id;
  success = (exec c shell t.command).0;
  output = (exec c shell t.command).1;
}

-- The task that the worker gets.
abbrev pub handed : Text → Task → Task
handed worker row = wire (record row { status = running; worker_id = worker })

-- The table with the outcome of `row`, claimed at `now` and reported at `now'`.
abbrev pub with_outcome : Result → Text → ℕ → ℕ → Task → Db → Db
with_outcome r worker now now' row db = record db {
  tasks =
      update_rows (λ t. t.id == row.id && t.status == pending)
        (λ t. finished r now' row (claimed worker now t)) db.tasks;
}

module _ (deliver : Sent → Request) (decode : Payload → Option PullResponse)
    (http : IsHttp deliver decode) (oldest : List Task → Option Task) (law : IsOldest oldest)
    (like : Text → Text → Bool) (cron_parses : Text → Bool) where
  fetch-some :
      (worker : Text) (now now' : ℕ) (db : Db) (row : Task) (active : Active)
      → oldest (select (is_due now) db.tasks) ≡ some row
      → (fetch decode
          (some (after_claim worker (claim_pending oldest worker now now' [] db)))
          active).task
        ≡ some (handed worker row)
  unfolding fetch get_stop_list
  fetch-some worker now now' db row active e =
      rw (claim_some oldest law worker now now' db row e, http.pulled_body) refl

  module _ (c : Client) (shell : Text → Run) (active : Active) (w w' : World) (s : State)
      (row : Task) where
    abbrev pub polled : Response × State
    polled = serve oldest like cron_parses pulls w (deliver (fetch_request c)) s

    -- If a task is due, the table is valid, the worker is configured for the server, the rate
    -- limiter lets it in, the database answers, and the command prints ASCII, then a poll brings
    -- the worker the oldest due task as running and its own, with the times cut to the second; the
    -- worker runs it under its own filters and reports what exec gave; the server answers 200; and
    -- the table is as before but for that task's row, which has the outcome of the report.
    pub cycle_lem :
        IsClientOf c s.token
        → IsValid s.db
        → oldest (select (is_due w.now) s.db.tasks) ≡ some row
        → IsCalm w
        → IsCalm w'
        → all_of is_ascii (exec c.config shell row.command).1 ≡ true
        → let r = reply_of c.config shell row in
          ((fetch decode (some polled.0) active).task ≡ some (handed c.config.id row))
          × (run_task c.config shell false (handed c.config.id row) ≡ some r)
          × (serve oldest like cron_parses results w' (deliver (report_request c r)) polled.1 ≡ (
            write_json 200 done,
            with_db s (with_outcome r c.config.id w.now' w'.now row s.db),
          ))
    unfolding run_task
    cycle_lem k v due calm calm' ascii = (
      rw (arrived, calm.answers) (fetch-some c.config.id w.now w.now' s.db row active due),
      refl,
      rw claimed_state (
          report_arrives deliver decode http oldest like cron_parses w' c (with_db s mid)
            (reply_of c.config shell row) calm'.let_in k refl ascii
          ∙ rw (calm'.answers, reported) refl),
    )
      where
        mid : Db
        mid = record s.db {
          tasks =
              update_rows (λ t. t.id == row.id && t.status == pending) (claimed c.config.id w.now')
                s.db.tasks;
        }

        arrived : polled ≡ (
          after_claim c.config.id (claim_pending oldest c.config.id w.now w.now' w.faults s.db),
          with_db s (claim_pending oldest c.config.id w.now w.now' w.faults s.db).2,
        )
        arrived = fetch_arrives deliver decode http oldest like cron_parses w c s calm.let_in k

        claimed_state : polled.1 ≡ with_db s mid
        claimed_state =
            rw (arrived, calm.answers, claim_some oldest law c.config.id w.now w.now' s.db row due)
              refl

        chosen : IsChosen oldest law c.config.id w.now w.now' s.db row
        chosen = IsChosen-intro oldest law c.config.id w.now w.now' s.db row due

        waits : row.status ≡ pending
        waits = ground (arith, chosen.due)

        reported : report_result (reply_of c.config shell row) w'.now [] mid ≡ (
          ok tt,
          [],
          with_outcome (reply_of c.config shell row) c.config.id w.now' w'.now row s.db,
        )
        reported =
            report_claimed (reply_of c.config shell row) c.config.id w.now' w'.now s.db row v
              chosen.stands waits refl refl
