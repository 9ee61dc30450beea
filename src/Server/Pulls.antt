-- ===== src/Server/Pulls.antt =====
-- internal/server/server.go: the handlers that the workers call.
use worker_lightweight.Base.{
  ℕ, Bool, true, false, not, List, [], Option, none, some, ℤ, Text, lit, text_beq, ◌==◌, text_eq,
  if◌then◌else◌,
}
use worker_lightweight.Model.{Task}
use worker_lightweight.Store.Db.{Db, not_found, Outcome, ok, err, Faults}
use worker_lightweight.Store.Control.{get_stop_list}
use worker_lightweight.Store.Claim.{claim_pending}
use worker_lightweight.Store.Report.{report_result}
use worker_lightweight.Server.Types.{
  Request, Response, State, Method, get, post, store_error, done, pulled, workers,
}
use worker_lightweight.Server.Auth.{write_err}
use worker_lightweight.Server.Registry.{heartbeat, list_workers}
use worker_lightweight.Server.Handlers.{write_json, internal_error, with_db}

abbrev pub is_post : Method → Bool
is_post post = true
is_post _ = false

abbrev pub is_get : Method → Bool
is_get get = true
is_get _ = false

-- The reply to a claim, once the stop list was asked for.
abbrev pub pull_reply : Option Task → Outcome (List ℤ) → Response
pull_reply t (ok ids) = write_json 200 (pulled (record { task = t; stop_list = ids }))
pull_reply t (err e) = internal_error

abbrev pub after_claim : Text → Outcome Task × Faults × Db → Response
after_claim worker (ok t, fs, db) = pull_reply (some t) (get_stop_list worker fs db).0
after_claim worker (err not_found, fs, db) = pull_reply none (get_stop_list worker fs db).0
after_claim worker (err e, fs, db) = internal_error

module _ (oldest : List Task → Option Task) where
  unfoldable pub pull : Request → Faults → ℕ → ℕ → State → Response × State
  unfolding text_beq
  pull r fs now now' s =
      let worker = r.query (lit "worker_id") in
      if not (is_post r.method)
      then (write_err 405 (lit "POST only"), s)
      else if worker == []
      then (write_err 400 (lit "worker_id required"), s)
      else let c = claim_pending oldest worker now now' fs s.db in
        (after_claim worker c, with_db s c.2)

abbrev pub answer_report : Outcome (Unit {0}) → Response
answer_report (ok _) = write_json 200 done
answer_report (err not_found) = write_err 404 (lit "task not found")
answer_report (err e) = write_json 400 store_error

unfoldable pub handle_result : Request → Faults → ℕ → State → Response × State
handle_result r fs now s =
    if is_post r.method
    then elim r.result_body [
      | none ↦ (write_err 400 (lit "invalid json"), s)
      | some res ↦ let o = report_result res now fs s.db in (answer_report o.0, with_db s o.2)
    ]
    else (write_err 405 (lit "POST only"), s)

unfoldable pub worker_heartbeat : Request → ℕ → State → Response × State
unfolding heartbeat text_beq
worker_heartbeat r now s =
    if is_post r.method
    then elim r.worker_body [
      | none ↦ (write_err 400 (lit "invalid json"), s)
      | some info ↦
          if info.id == []
          then (write_err 400 (lit "id required"), s)
          else (write_json 200 done, record s { registry = heartbeat info now s.registry })
    ]
    else (write_err 405 (lit "POST only"), s)

unfoldable pub handle_workers : Request → ℕ → State → Response × State
unfolding list_workers
handle_workers r now s =
    if is_get r.method
    then (write_json 200 (workers (list_workers now s.registry).0), cleaned)
    else (write_err 405 (lit "GET only"), s)
  where
    cleaned : State
    cleaned = record s { registry = (list_workers now s.registry).1 }
