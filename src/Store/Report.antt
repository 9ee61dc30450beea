-- ===== src/Store/Report.antt =====
-- internal/store/store.go: ReportResult.
pub mod Effects
pub mod Outcomes
pub mod Running
use worker_lightweight.Base.{
  Option, ℕ, ◌+◌, ◌-◌, ◌^◌, Bool, ◌&&◌, [], ℤ, pos, ◌+ℤ◌, ◌*ℤ◌, wrap, pos_part, neg_part, ltb_ℤ,
  find, ◌==◌, int_eq, text_eq, if◌then◌else◌,
}
use worker_lightweight.Model.{
  Task, Result, Status, pending, running, success, dead, stopped, status_eq,
}
use worker_lightweight.Store.Db.{
  M, not_found, not_owner, ◌>>=◌, ◌>>◌, pure, guard, or_fail, update, query, with_tx,
}
use worker_lightweight.Store.Control.{detached}

-- time.Second, in nanoseconds.
abbrev pub second : ℕ
second = 10 ^ 9

-- `now.Add(time.Duration(n) * 5 * time.Second)`, a Duration being an int64.
unfoldable pub backoff : ℕ → ℤ → ℕ
unfolding wrap ◌*ℤ◌
backoff now n = let d = wrap (wrap (n *ℤ pos 5) *ℤ pos second) in now + pos_part d - neg_part d

-- `newRetry`: an int, so it wraps.
unfoldable pub new_retry : Bool → ℤ → ℤ
unfolding wrap ◌+ℤ◌
new_retry succeeded retry_count = if succeeded then retry_count else wrap (retry_count +ℤ pos 1)

-- The switch over the outcome.
unfoldable pub new_status : Bool → ℤ → ℤ → Status
new_status succeeded retry max_retry =
    if succeeded then success else if ltb_ℤ max_retry retry then dead else pending

-- Back to the queue; the statement also asks for a row that runs.
abbrev pub requeued : Result → ℤ → ℕ → Task → Task
requeued r retry now t = record t {
  status = pending;
  retry_count = retry;
  result = r.output;
  worker_id = [];
  updated_at = now;
  next_run_at = backoff now retry;
}

-- A final outcome.
abbrev pub settled : Result → Status → ℤ → ℕ → Task → Task
settled r status retry now t = record t {
  status = status;
  retry_count = retry;
  result = r.output;
  worker_id = r.worker_id;
  updated_at = now;
}

abbrev pub write_outcome : Result → Status → ℤ → ℕ → M (Unit {0})
write_outcome r pending retry now = do
  n ← update (λ t. t.id == r.task_id && t.status == running) (requeued r retry now)
  pure tt
write_outcome r status retry now = do
  n ← update (λ t. t.id == r.task_id) (settled r status retry now)
  pure tt

abbrev pub report_row : Result → ℕ → Task → M (Unit {0})
report_row r now row =
    if row.status == stopped
    then (update (λ t. t.id == r.task_id && t.status == stopped) detached >>= λ n. pure tt)
    else write_outcome r (new_status r.success (new_retry r.success row.retry_count) row.max_retry)
        (new_retry r.success row.retry_count) now

-- Only the worker that owns the row may report.
abbrev pub report_owned : Result → ℕ → Task → M (Unit {0})
report_owned r now row = do
  guard (row.worker_id == r.worker_id) (not_owner r.worker_id r.task_id row.worker_id)
  report_row r now row

abbrev pub report_found : Result → ℕ → Option Task → M (Unit {0})
report_found r now found = do row ← or_fail found not_found; report_owned r now row

unfoldable pub report_result : Result → ℕ → M (Unit {0})
unfolding query update with_tx
report_result r now =
    with_tx (do found ← query (find (λ t. t.id == r.task_id)); report_found r now found)
