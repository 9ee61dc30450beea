-- ===== src/Store/Control.antt =====
-- internal/store/store.go: SetEnabled, ListCron, StopAllCron, StopTask, ResumeTask, GetStopList,
-- ClearWorker. Each `now` is one of the calls of time.Now(), in their order.
pub mod Intents
pub mod Effects
use worker_lightweight.Base.{
  ℕ, Bool, true, false, not, ◌&&◌, ◌||◌, List, [], map, ℤ, pos, Text, lit, select, ◌==◌, nat_eq,
  int_eq, text_eq, ltb_ℤ,
}
use worker_lightweight.Model.{Task, pending, running, stopped, cron, status_eq, type_eq}
use worker_lightweight.Store.Db.{M, not_found, ◌>>=◌, ◌>>◌, pure, guard, update, query, with_tx}

-- `status IN ('pending', 'running')`.
abbrev pub in_flight : Task → Bool
in_flight t = t.status == pending || t.status == running

abbrev pub toggled : Bool → ℕ → Task → Task
toggled enabled now t = record t { enabled = enabled; updated_at = now }

abbrev pub halted : Text → ℕ → Task → Task
halted reason now t = record t { status = stopped; result = reason; updated_at = now }

-- Pausing a definition stops its children that are in flight.
abbrev pub stop_children : Bool → ℤ → ℕ → M (Unit {0})
stop_children true id now = pure tt
stop_children false id now = do
  n ← update (λ t. t.parent_id == id && in_flight t) (halted (lit "stopped: cron paused") now)
  pure tt

unfoldable pub set_enabled : ℤ → Bool → ℕ → ℕ → M (Unit {0})
unfolding update with_tx
set_enabled id enabled now now' = with_tx (do
  n ← update (λ t. t.id == id) (toggled enabled now)
  guard (not (n == 0)) not_found
  stop_children enabled id now')

unfoldable pub list_cron : M (List Task)
unfolding query
list_cron = query (select (λ t. t.type == cron && t.enabled))

-- The second statement of StopAllCron, after the first has paused `paused` definitions.
abbrev pub stop_all_children : ℕ → ℕ → M (ℕ × ℕ)
stop_all_children paused now = do
  n ←
      update (λ t. ltb_ℤ (pos 0) t.parent_id && in_flight t)
        (halted (lit "stopped: cron shutdown") now)
  pure (paused, n)

-- Two statements and no transaction. The counts that Go returns beside an error are dropped.
unfoldable pub stop_all_cron : ℕ → ℕ → M (ℕ × ℕ)
unfolding update
stop_all_cron now now' = do
  n ← update (λ t. t.type == cron) (toggled false now)
  stop_all_children n now'

unfoldable pub stop_task : ℤ → ℕ → M (Unit {0})
unfolding update
stop_task id now = do
  n ← update (λ t. t.id == id && in_flight t) (halted (lit "stopped by user") now)
  guard (not (n == 0)) not_found

abbrev pub resumed : ℕ → ℕ → Task → Task
resumed now now' t = record t {
  status = pending;
  worker_id = [];
  result = [];
  updated_at = now;
  next_run_at = now';
}

unfoldable pub resume_task : ℤ → ℕ → ℕ → M (Unit {0})
unfolding update
resume_task id now now' = do
  n ← update (λ t. t.id == id && t.status == stopped) (resumed now now')
  guard (not (n == 0)) not_found

unfoldable pub get_stop_list : Text → M (List ℤ)
unfolding query
get_stop_list worker =
    query (λ ts. map (λ t. t.id) (select (λ t. t.worker_id == worker && t.status == stopped) ts))

abbrev pub detached : Task → Task
detached t = record t { worker_id = [] }

unfoldable pub clear_worker : ℤ → Text → M (Unit {0})
unfolding update
clear_worker id worker = do
  n ← update (λ t. t.id == id && t.worker_id == worker && t.status == stopped) detached
  pure tt
