-- ===== src/Server/Handlers.antt =====
-- internal/server/server.go: the handlers of /api/tasks and of /api/tasks/{id}.
use worker_lightweight.Base.{
  ℕ, ◌+◌, ◌/◌, ◌%◌, Bool, true, false, ◌||◌, List, [], Option, none, some, ℤ, pos, ◌-ℤ◌, ◌*ℤ◌, wrap,
  ltb_ℤ, leb_ℤ, pos_part, Text, lit, text_beq, parse_int, ◌==◌, nat_eq, text_eq, if◌then◌else◌,
}
use worker_lightweight.Model.{
  Task, CreateTaskRequest, ScheduleType, once, cron, pending, type_eq, type_text,
}
use worker_lightweight.Store.Db.{Db, not_found, Outcome, ok, err, Faults}
use worker_lightweight.Store.Tasks.{create, delete, get}
use worker_lightweight.Store.Control.{set_enabled, stop_task, resume_task}
use worker_lightweight.Store.Query.{ListFilter, list_tasks, count_tasks}
use worker_lightweight.Server.Types.{
  Request, Response, State, Payload, store_error, done, task, tasks,
}
use worker_lightweight.Server.Auth.{write_err}

abbrev pub write_json : ℕ → Payload → Response
write_json status p = record { status = status; payload = p }

-- err.Error() of a failed statement.
abbrev pub internal_error : Response
internal_error = write_json 500 store_error

abbrev pub with_db : State → Db → State
with_db s db = record s { db = db }

-- ResyncNow: the channel holds one signal, and a second is dropped.
abbrev pub resync_now : State → State
resync_now s = record s { resync_pending = true }

-- The answer to the outcome of an operation that has no result, with the text for ErrNotFound.
abbrev pub answer_done : Text → Outcome (Unit {0}) → Response
answer_done missing (ok _) = write_json 200 done
answer_done missing (err not_found) = write_err 404 missing
answer_done missing (err e) = internal_error

-- The task that a valid request describes, as createTask fills it in: the other columns are zero.
abbrev pub new_task : CreateTaskRequest → ScheduleType → Task
new_task req t = record {
  id = pos 0;
  name = req.name;
  command = req.command;
  type = t;
  cron_expr = req.cron_expr;
  status = pending;
  max_retry = req.max_retry;
  retry_count = pos 0;
  timeout_sec = req.timeout_sec;
  worker_id = [];
  parent_id = pos 0;
  enabled = false;
  result = [];
  created_at = 0;
  updated_at = 0;
  next_run_at = 0;
}

abbrev pub schedule_type : Text → Option ScheduleType
schedule_type t =
    if t == [] || t == type_text once
    then some once
    else if t == type_text cron
    then some cron
    else none

abbrev pub Validation : Type 0
Validation = Option ScheduleType × Response

-- The checks of createTask in their order: the type of a valid request, or else the answer.
module _ (cron_parses : Text → Bool) where
  abbrev check_type : CreateTaskRequest → Option ScheduleType → Validation
  check_type req none = (none, write_err 400 (lit "type must be once or cron"))
  check_type req (some once) = (some once, internal_error)
  check_type req (some cron) =
      if req.cron_expr == []
      then (none, write_err 400 (lit "cron tasks require cron_expr"))
      else if cron_parses req.cron_expr
      then (some cron, internal_error)
      else (none, write_err 400 (lit "invalid cron_expr"))

  unfoldable pub validate : CreateTaskRequest → Validation
  unfolding type_text text_beq
  validate req =
      if req.name == [] || req.command == []
      then (none, write_err 400 (lit "name and command required"))
      else check_type req (schedule_type req.type)

  abbrev pub created : State → Outcome Task × Faults × Db → Response × State
  created s (ok t, fs, db) =
      (write_json 201 (task t), if t.type == cron then resync_now (with_db s db) else with_db s db)
  created s (err e, fs, db) = (internal_error, with_db s db)

  abbrev pub create_valid : CreateTaskRequest → Validation → Faults → ℕ → State → Response × State
  create_valid req (none, refusal) fs now s = (refusal, s)
  create_valid req (some t, _) fs now s = created s (create (new_task req t) now fs s.db)

  unfoldable pub create_task : Request → Faults → ℕ → State → Response × State
  unfolding validate
  create_task r fs now s = elim r.create_body [
    | none ↦ (write_err 400 (lit "invalid json"), s)
    | some req ↦ create_valid req (validate req) fs now s
  ]

-- The page and the page size of a request, as the handlers of the list and of the dashboard read them.
unfoldable pub page_of : Text → ℤ
unfolding parse_int
page_of s = let n = (parse_int s).0 in if ltb_ℤ n (pos 1) then pos 1 else n

unfoldable pub page_size_of : Text → ℤ
unfolding parse_int
page_size_of s =
    let n = (parse_int s).0 in if leb_ℤ n (pos 0) || ltb_ℤ (pos 500) n then pos 20 else n

-- `(page - 1) * pageSize`, an int.
unfoldable pub offset_of : ℤ → ℤ → ℤ
unfolding wrap ◌-ℤ◌ ◌*ℤ◌
offset_of page page_size = wrap ((page -ℤ pos 1) *ℤ page_size)

-- The number of pages, at least one.
unfoldable pub total_pages : ℕ → ℕ → ℕ
total_pages total page_size =
    let n = if total % page_size == 0 then total / page_size else total / page_size + 1 in
    if n == 0 then 1 else n

unfoldable pub parse_parent_id : Text → ℤ
unfolding parse_int
parse_parent_id s = if s == [] then pos 0 else (parse_int s).0

abbrev pub filter_of : Request → ListFilter
filter_of r = record {
  name = r.query (lit "name");
  command = r.query (lit "command");
  type = r.query (lit "type");
  status = r.query (lit "status");
  worker = r.query (lit "worker");
  enabled = r.query (lit "enabled");
  parent_id = parse_parent_id (r.query (lit "parent_id"));
}

abbrev pub listed : ℤ → ℤ → List Task → Outcome ℕ → Response
listed page size rows (ok n) =
    write_json 200 (tasks rows n page size (pos (total_pages n (pos_part size))))
listed page size rows (err e) = internal_error

module _ (like : Text → Text → Bool) where
  abbrev pub count_page : ListFilter → ℤ → ℤ → Outcome (List Task) × Faults × Db → Response
  count_page f page size (ok rows, fs, db) = listed page size rows (count_tasks like f fs db).0
  count_page f page size (err e, fs, db) = internal_error

  unfoldable pub list_page : Request → Faults → State → Response × State
  unfolding page_of page_size_of offset_of parse_parent_id
  list_page r fs s =
      let page = page_of (r.query (lit "page")) in
      let size = page_size_of (r.query (lit "page_size")) in
      let f = filter_of r in
      (count_page f page size (list_tasks like f (offset_of page size) size fs s.db), s)

abbrev pub got : Outcome Task → Response
got (ok t) = write_json 200 (task t)
got (err not_found) = write_err 404 (lit "task not found")
got (err e) = internal_error

unfoldable pub get_task : ℤ → Faults → State → Response × State
get_task id fs s = (got (get id fs s.db).0, s)

abbrev deleted : Outcome (Unit {0}) → Response
deleted (ok _) = write_json 200 done
deleted (err e) = internal_error

unfoldable pub delete_task : ℤ → Faults → State → Response × State
delete_task id fs s = let r = delete id fs s.db in (deleted r.0, with_db s r.2)

abbrev pub enabled_state : Outcome (Unit {0}) → State → State
enabled_state (ok _) s = resync_now s
enabled_state (err e) s = s

unfoldable pub set_task_enabled : ℤ → Bool → Faults → ℕ → ℕ → State → Response × State
set_task_enabled id enabled fs now now' s =
    let r = set_enabled id enabled now now' fs s.db in
    (answer_done (lit "task not found") r.0, enabled_state r.0 (with_db s r.2))

unfoldable pub stop_one : ℤ → Faults → ℕ → State → Response × State
stop_one id fs now s =
    let r = stop_task id now fs s.db in
    (answer_done (lit "task not found or already stopped") r.0, with_db s r.2)

unfoldable pub restart_one : ℤ → Faults → ℕ → ℕ → State → Response × State
restart_one id fs now now' s =
    let r = resume_task id now now' fs s.db in
    (answer_done (lit "task not found or not in stopped state") r.0, with_db s r.2)
