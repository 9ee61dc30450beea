-- ===== src/Server/Runs.antt =====
-- internal/server/server.go: the API as a client of the store.
use worker_lightweight.Base.{
  ◌≡◌, refl, subst, ℕ, Bool, true, false, not, List, [], ◌∷◌, Option, none, some, ℤ, Text, ◌==◌,
  text_eq, ◌&&◌, Bool-cases, Option-cases, inl, inr, In, parse_int, lit, arith,
}
use worker_lightweight.Model.{Task, CreateTaskRequest, ScheduleType}
use worker_lightweight.Store.Db.{Db, Faults, Outcome, ok, err}
use worker_lightweight.Store.Claim.Effects.{IsOldest}
use worker_lightweight.Store.Life.{IsNew}
use worker_lightweight.Store.Life.Bounds.{IsSound, Reach-IsSound}
use worker_lightweight.Store.Life.Reach.{
  Step, creates, deletes, enables, stops, resumes, claims, reports, Reach, start, step, empty_db,
}
use worker_lightweight.Server.Types.{Request, State, Method, get, post, delete, other}
use worker_lightweight.Server.Auth.{Handler, auth, check_token}
use worker_lightweight.Server.Handlers.{
  new_task, Validation, validate, create_valid, created, create_task, list_page, get_task,
  delete_task, set_task_enabled, stop_one, restart_one, enabled_state,
}
use worker_lightweight.Server.Pulls.{
  is_post, is_get, pull, handle_result, worker_heartbeat, handle_workers,
}
use worker_lightweight.Server.Routes.{
  World, Action, fetch, remove, pause, resume, stop, restart, unknown, act, action_of, path_parts,
  task_by_id, with_id, by_parts, tasks_by_method, Route, all_tasks, one_task, pulls, results,
  heartbeats, live_workers, rate_limit, handle_tasks, handler_of, serve,
}

enabled_state-db : (o : Outcome (Unit {0})) (s : State) → (enabled_state o s).db ≡ s.db
enabled_state-db (ok _) s = refl
enabled_state-db (err e) s = refl

created-db :
    (cron_parses : Text → Bool) (s : State) (o : Outcome Task) (fs : Faults) (db : Db)
    → (created cron_parses s (o, fs, db)).1.db ≡ db
created-db cron_parses s (ok t) fs db = ground arith
created-db cron_parses s (err e) fs db = refl

new_task-IsNew : (req : CreateTaskRequest) (t : ScheduleType) → IsNew (new_task req t)
new_task-IsNew req t = record { waits = refl; untried = refl; unowned = refl }

module _ (oldest : List Task → Option Task) (like : Text → Text → Bool)
    (cron_parses : Text → Bool) where
  one : {a b : Db} → Step oldest a b → Reach oldest a b
  one s = step start s

  act-Reach : (a : Action) (id : ℤ) (w : World) (s : State) → Reach oldest s.db (act a id w s).1.db
  unfolding act get_task delete_task set_task_enabled stop_one restart_one
  act-Reach fetch id w s = start
  act-Reach remove id w s = one (deletes id w.faults refl)
  act-Reach pause id w s = one (enables id false w.now w.now' w.faults (enabled_state-db _ _))
  act-Reach resume id w s = one (enables id true w.now w.now' w.faults (enabled_state-db _ _))
  act-Reach stop id w s = one (stops id w.now w.faults refl)
  act-Reach restart id w s = one (resumes id w.now w.now' w.faults refl)
  act-Reach unknown id w s = start

  with_id-Reach :
      (n : ℤ × Bool) (m : Method) (a : Text) (w : World) (s : State)
      → Reach oldest s.db (with_id n m a w s).1.db
  with_id-Reach (id, true) m a w s = act-Reach (action_of m a) id w s
  with_id-Reach (id, false) m a w s = start

  by_parts-Reach :
      (ps : List Text) (m : Method) (w : World) (s : State)
      → Reach oldest s.db (by_parts ps m w s).1.db
  by_parts-Reach [] m w s = start
  by_parts-Reach (id ∷ []) m w s = with_id-Reach (parse_int id) m [] w s
  by_parts-Reach (id ∷ a ∷ []) m w s = with_id-Reach (parse_int id) m a w s
  by_parts-Reach (id ∷ a ∷ b ∷ rest) m w s = start

  create_valid-Reach :
      (req : CreateTaskRequest) (v : Validation) (fs : Faults) (now : ℕ) (s : State)
      → Reach oldest s.db (create_valid cron_parses req v fs now s).1.db
  create_valid-Reach req (none, refusal) fs now s = start
  create_valid-Reach req (some t, _) fs now s =
      one (creates (new_task req t) now fs (new_task-IsNew req t) (created-db cron_parses s _ _ _))

  handle_tasks-Reach :
      (m : Method) (w : World) (r : Request) (s : State)
      → Reach oldest s.db (tasks_by_method oldest like cron_parses m w r s).1.db
  unfolding create_task list_page
  handle_tasks-Reach post w r s = elim (Option-cases r.create_body) [
    | inl e ↦ rw (e, create_task) start
    | inr (req, e) ↦
        rw (e, create_task) (create_valid-Reach req (validate cron_parses req) w.faults w.now s)
  ]
  handle_tasks-Reach get w r s = start
  handle_tasks-Reach delete w r s = start
  handle_tasks-Reach other w r s = start

  pull-Reach :
      (w : World) (r : Request) (s : State)
      → Reach oldest s.db (pull oldest r w.faults w.now w.now' s).1.db
  unfolding pull
  pull-Reach w r s = elim (Bool-cases (is_post r.method)) [
    | inr e ↦ rw e start
    | inl e ↦ elim (Bool-cases (r.query (lit "worker_id") == [])) [
      | inl f ↦ rw (e, f) start
      | inr f ↦ rw (e, f) (one (claims (r.query (lit "worker_id")) w.now w.now' w.faults refl))
    ]
  ]

  result-Reach :
      (w : World) (r : Request) (s : State)
      → Reach oldest s.db (handle_result r w.faults w.now s).1.db
  unfolding handle_result
  result-Reach w r s = elim (Bool-cases (is_post r.method)) [
    | inr e ↦ rw e start
    | inl e ↦ elim (Option-cases r.result_body) [
      | inl f ↦ rw (e, f, handle_result) start
      | inr (res, f) ↦ rw (e, f, handle_result) (one (reports res w.now w.faults refl))
    ]
  ]

  heartbeat-db : (w : World) (r : Request) (s : State) → (worker_heartbeat r w.now s).1.db ≡ s.db
  unfolding worker_heartbeat
  heartbeat-db w r s = ground arith

  handler-Reach :
      (route : Route) (w : World) (r : Request) (s : State)
      → Reach oldest s.db (handler_of oldest like cron_parses route w r s).1.db
  unfolding handler_of handle_tasks task_by_id handle_workers
  handler-Reach all_tasks w r s = handle_tasks-Reach r.method w r s
  handler-Reach one_task w r s = by_parts-Reach (path_parts r.path) r.method w s
  handler-Reach pulls w r s = pull-Reach w r s
  handler-Reach results w r s = result-Reach w r s
  handler-Reach heartbeats w r s = rw (heartbeat-db w r s) start
  handler-Reach live_workers w r s = elim (Bool-cases (is_get r.method)) [
    | inl e ↦ rw e start
    | inr e ↦ rw e start
  ]

  auth-Reach :
      (h : Handler) (r : Request) (s : State)
      → Reach oldest s.db (h r s).1.db
      → Reach oldest s.db (auth h r s).1.db
  unfolding auth
  auth-Reach h r s q = elim (Bool-cases (not (s.token == []) && not (check_token s.token r))) [
    | inl f ↦ rw f start
    | inr f ↦ rw f q
  ]

  rate_limit-Reach :
      (b : Bool) (h : Handler) (r : Request) (s : State)
      → Reach oldest s.db (h r s).1.db
      → Reach oldest s.db (rate_limit b h r s).1.db
  unfolding rate_limit
  rate_limit-Reach true h r s q = q
  rate_limit-Reach false h r s q = start

  -- A request moves the table by operations of the store or leaves it.
  serve-Reach :
      (route : Route) (w : World) (r : Request) (s : State)
      → Reach oldest s.db (serve oldest like cron_parses route w r s).1.db
  unfolding serve
  serve-Reach route w r s =
      rate_limit-Reach w.allowed _ r s
        (auth-Reach (handler_of oldest like cron_parses route w) r s (handler-Reach route w r s))

  -- A sequence of requests, one after the other.
  unfoldable pub serve_all : List (Route × World × Request) → State → State
  serve_all [] s = s
  serve_all (q ∷ qs) s = serve_all qs (serve oldest like cron_parses q.0 q.1 q.2 s).1

  Reach-append : {a b c : Db} → Reach oldest a b → Reach oldest b c → Reach oldest a c
  Reach-append r start = r
  Reach-append r (step q s) = step (Reach-append r q) s

  serve_all-Reach :
      (qs : List (Route × World × Request)) (s : State) → Reach oldest s.db (serve_all qs s).db
  unfolding serve_all
  serve_all-Reach [] s = start
  serve_all-Reach (q ∷ qs) s =
      Reach-append (serve-Reach q.0 q.1 q.2 s)
        (serve_all-Reach qs (serve oldest like cron_parses q.0 q.1 q.2 s).1)

  -- After any requests to a server with an empty table, no row has the status `failed`, a pending
  -- row has no owner, and a row that is pending, running or stopped has retry count 0 or one within
  -- its limit.
  pub serve_all-IsSound :
      IsOldest oldest
      → (qs : List (Route × World × Request)) (s : State) (u : Task) → s.db ≡ empty_db
      → In u (serve_all qs s).db.tasks
      → IsSound u
  serve_all-IsSound law qs s u e i =
      Reach-IsSound oldest law (serve_all qs s).db u
        (subst (λ a. Reach oldest a (serve_all qs s).db) e (serve_all-Reach qs s)) i
