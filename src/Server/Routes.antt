-- ===== src/Server/Routes.antt =====
-- internal/server/server.go: register, handleTasks, handleTaskByID and the middleware around them.
-- The paths of the dashboard are not routed here.
use worker_lightweight.Base.{
  ℕ, Bool, true, false, not, List, [], ◌∷◌, Option, none, some, ℤ, Text, lit, text_beq, split,
  after_prefix, parse_int, select, ◌==◌, text_eq, if◌then◌else◌,
}
use worker_lightweight.Model.{Task}
use worker_lightweight.Store.Db.{Faults}
use worker_lightweight.Server.Types.{Response, State, Method, get, post, delete, other}
use worker_lightweight.Server.Auth.{Handler, auth, write_err}
use worker_lightweight.Server.Handlers.{
  create_task, list_page, get_task, delete_task, set_task_enabled, stop_one, restart_one,
}
use worker_lightweight.Server.Pulls.{pull, handle_result, worker_heartbeat, handle_workers}

-- What one request meets outside the program: the faults of the database and the times that the
-- handler reads, and whether the rate limiter lets it pass.
pub record World : Type 0 where
  pub faults : Faults
  pub now : ℕ
  pub now' : ℕ
  pub allowed : Bool

abbrev pub method_not_allowed : State → Response × State
method_not_allowed s = (write_err 405 (lit "method not allowed"), s)

-- The actions of /api/tasks/{id}.
pub data Action : Type 0 where
  fetch remove pause resume stop restart unknown : Action

abbrev pub post_action : Text → Action
post_action a =
    if a == lit "pause"
    then pause
    else if a == lit "resume"
    then resume
    else if a == lit "stop"
    then stop
    else if a == lit "restart"
    then restart
    else unknown

unfoldable pub action_of : Method → Text → Action
unfolding text_beq
action_of get a = if a == [] then fetch else unknown
action_of delete a = if a == [] then remove else unknown
action_of post a = post_action a
action_of other a = unknown

unfoldable pub act : Action → ℤ → World → State → Response × State
act fetch id w s = get_task id w.faults s
act remove id w s = delete_task id w.faults s
act pause id w s = set_task_enabled id false w.faults w.now w.now' s
act resume id w s = set_task_enabled id true w.faults w.now w.now' s
act stop id w s = stop_one id w.faults w.now s
act restart id w s = restart_one id w.faults w.now w.now' s
act unknown id w s = method_not_allowed s

-- The parts of the path after "/api/tasks/" that are not empty.
unfoldable pub path_parts : Text → List Text
unfolding split after_prefix text_beq
path_parts path = elim (after_prefix (lit "/api/tasks/") path) [
  | none ↦ []
  | some rest ↦ select (λ p. not (p == [])) (split b'/' rest)
]

abbrev pub with_id : (ℤ × Bool) → Method → Text → World → State → Response × State
with_id (id, true) m a w s = act (action_of m a) id w s
with_id (id, false) m a w s = (write_err 400 (lit "invalid id"), s)

abbrev pub by_parts : List Text → Method → World → State → Response × State
by_parts [] m w s = (write_err 404 (lit "not found"), s)
by_parts (id ∷ []) m w s = with_id (parse_int id) m [] w s
by_parts (id ∷ a ∷ []) m w s = with_id (parse_int id) m a w s
by_parts (id ∷ a ∷ b ∷ rest) m w s = (write_err 404 (lit "not found"), s)

unfoldable pub task_by_id : World → Handler
unfolding path_parts parse_int act action_of
task_by_id w r s = by_parts (path_parts r.path) r.method w s

-- The API routes that register mounts.
pub data Route : Type 0 where
  all_tasks one_task pulls results heartbeats live_workers : Route

-- rateLimitMiddleware, the outermost.
unfoldable pub rate_limit : Bool → Handler → Handler
rate_limit true handler r s = handler r s
rate_limit false handler r s = (write_err 429 (lit "rate limit exceeded"), s)

module _ (oldest : List Task → Option Task) (like : Text → Text → Bool)
    (cron_parses : Text → Bool) where
  abbrev pub tasks_by_method : Method → World → Handler
  tasks_by_method post w r s = create_task cron_parses r w.faults w.now s
  tasks_by_method get w r s = list_page like r w.faults s
  tasks_by_method _ w r s = method_not_allowed s

  unfoldable pub handle_tasks : World → Handler
  handle_tasks w r s = tasks_by_method r.method w r s

  unfoldable pub handler_of : Route → World → Handler
  unfolding handle_tasks task_by_id
  handler_of all_tasks w r s = handle_tasks w r s
  handler_of one_task w r s = task_by_id w r s
  handler_of pulls w r s = pull oldest r w.faults w.now w.now' s
  handler_of results w r s = handle_result r w.faults w.now s
  handler_of heartbeats w r s = worker_heartbeat r w.now s
  handler_of live_workers w r s = handle_workers r w.now s

  -- The audit middleware, inside of these two, changes neither the response nor the state.
  unfoldable pub serve : Route → World → Handler
  unfolding handler_of auth rate_limit
  serve route w = rate_limit w.allowed (auth (handler_of route w))
