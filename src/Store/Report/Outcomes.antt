-- ===== src/Store/Report/Outcomes.antt =====
-- internal/store/store.go: what a report means for the row, independently of how ReportResult writes it.
use worker_lightweight.Base.{
  ◌≡◌, ◌≢◌, refl, ap, ◌∙◌, ℕ, ◌+◌, ◌*◌, ◌^◌, ◌<◌, ◌≤◌, Bool, true, false, List, [], ℤ, pos, negsuc,
  ◌+ℤ◌, ◌*ℤ◌, wrap, wrap-pos, ◌<ℤ◌, ◌≤ℤ◌, ltb_ℤ, some, find, Bool-cases, inl, inr, beq→eq, beq-ne,
  ◌==◌, ◌&&◌, int_eq, arith,
}
use worker_lightweight.Model.{
  Task, Result, Status, pending, running, success, dead, stopped, status_eq,
}
use worker_lightweight.Store.Db.{Db, update_rows}
use worker_lightweight.Store.Rules.{Ensures, Ensures-weaken}
use native.Mathlib.Decide.{dec_lt}
use worker_lightweight.Store.Report.{second, backoff, new_retry, new_status, report_result}
use worker_lightweight.Store.Report.Effects.{
  outcome_rows, reported, next_status, next_retry, Reports, ReportFails, report_result-Reports,
}

module _ (r : Result) (now : ℕ) where
  -- The row that a final report leaves, and the one that a failure to be retried leaves.
  abbrev pub ended : Status → ℤ → Task → Task
  ended status retries t = record t {
    status = status;
    retry_count = retries;
    result = r.output;
    worker_id = r.worker_id;
    updated_at = now;
  }

  abbrev pub retried : ℤ → ℕ → Task → Task
  retried retries due t = record t {
    status = pending;
    retry_count = retries;
    result = r.output;
    worker_id = [];
    updated_at = now;
    next_run_at = due;
  }

  abbrev pub row_in : Status → Task → Bool
  row_in status t = t.id == r.task_id && t.status == status

  -- The int that one more failure makes of the retry count.
  abbrev pub one_more : Task → ℤ
  one_more row = wrap (row.retry_count +ℤ pos 1)

  -- When the next attempt is due: five seconds later for each failure so far, unless the retry count
  -- is below 0 or the number of nanoseconds overflows.
  pub data Due (row : Task) (due : ℕ) : Type 0 where
    on_time : (n : ℕ) → one_more row ≡ pos n → due ≡ now + n * 5000000000 → Due row due
    overflows : (n : ℕ) → one_more row ≡ pos n → 2 ^ 63 ≤ n * 5000000000 → Due row due
    below_zero : (n : ℕ) → one_more row ≡ negsuc n → Due row due

  -- The table after a report on `row`.
  pub data Reported (row : Task) (ts ts' : List Task) : Type 0 where
    detaches :
        row.status ≡ stopped
        → ts' ≡ update_rows (row_in stopped) (λ t. record t { worker_id = [] }) ts
        → Reported row ts ts'
    succeeds :
        row.status ≢ stopped
        → r.success ≡ true
        → ts' ≡ update_rows (λ t. t.id == r.task_id) (ended success row.retry_count) ts
        → Reported row ts ts'
    retries :
        (due : ℕ)
        → row.status ≢ stopped
        → r.success ≡ false
        → one_more row ≤ℤ row.max_retry
        → Due row due
        → ts' ≡ update_rows (row_in running) (retried (one_more row) due) ts
        → Reported row ts ts'
    gives_up :
        row.status ≢ stopped
        → r.success ≡ false
        → row.max_retry <ℤ one_more row
        → ts' ≡ update_rows (λ t. t.id == r.task_id) (ended dead (one_more row)) ts
        → Reported row ts ts'

  times : (a b : ℕ) → pos a *ℤ pos b ≡ pos (a * b)
  unfolding ◌*ℤ◌
  times a b = ground arith

  backoff_lem : (n : ℕ) → n * 5000000000 < 2 ^ 63 → backoff now (pos n) ≡ now + n * 5000000000
  unfolding backoff
  backoff_lem n h =
      let seconds : wrap (pos n *ℤ pos 5) ≡ pos (n * 5) =
        ap wrap (times n 5) ∙ wrap-pos (n * 5) (omega arith) in
      let nanos : wrap (pos (n * 5) *ℤ pos second) ≡ pos (n * 5 * second) =
        ap wrap (times (n * 5) second) ∙ wrap-pos (n * 5 * second) (omega arith) in
      rw (seconds, nanos) (omega arith)

  due_lem : (row : Task) → Due row (backoff now (one_more row))
  due_lem row = go (one_more row) refl
    where
      go : (z : ℤ) → one_more row ≡ z → Due row (backoff now (one_more row))
      go (negsuc n) e = below_zero n e
      go (pos n) e = elim (dec_lt (n * 5000000000) (2 ^ 63)) [
        | yes h ↦ on_time n e (ap (backoff now) e ∙ backoff_lem n h)
        | no h ↦ overflows n e (omega arith)
      ]

  module _ (row : Task) (ts : List Task) where
    -- The outcome of a row that was not stopped.
    outcome-Reported :
        row.status ≢ stopped
        → (b : Bool) → r.success ≡ b
        → (over : Bool) → ltb_ℤ row.max_retry (one_more row) ≡ over
        → Reported row ts (outcome_rows r now (next_status r now row) (next_retry r now row) ts)
    unfolding new_status new_retry
    outcome-Reported live true s over o = simp s (succeeds live s refl)
    outcome-Reported live false s true o = simp (s, o) (gives_up live s (ground arith) refl)
    outcome-Reported live false s false o =
        simp (s, o) (retries (backoff now (one_more row)) live s (ground arith) (due_lem row) refl)

    reported-Reported : Reported row ts (reported r now row ts)
    reported-Reported = elim (Bool-cases (row.status == stopped)) [
      | inl e ↦ rw e (detaches (beq→eq row.status stopped e) refl)
      | inr e ↦ rw e (
          outcome-Reported (beq-ne row.status stopped e) r.success refl
            (ltb_ℤ row.max_retry (one_more row)) refl)
    ]

  module _ (db : Db) where
    -- A report on the row of the task, which the reporting worker owns.
    abbrev pub ReportsRow : Unit {0} → Db → Type 0
    ReportsRow _ db' =
        (row : Task) × (find (λ t. t.id == r.task_id) db.tasks ≡ some row)
        × (row.worker_id ≡ r.worker_id)
        × Reported row db.tasks db'.tasks
        × (db'.last_id ≡ db.last_id)

    -- Whatever faults are met, ReportResult either finds the row, owned by the reporting worker, and
    -- leaves the ids as they are and the table as Reported says: a stopped row loses its owner and
    -- nothing else; a success gives the row the status success with the output and the retry count
    -- that it had; a failure that leaves the retry count plus one within the limit sends a running
    -- row back to the queue with this count, with the output, with no owner and, unless the count is
    -- negative or the product overflows, five seconds later for each failure so far; a failure above
    -- the limit makes the row dead, with this count and the output. Or it fails and changes nothing,
    -- by a fault of the database, for an unknown id or for another owner.
    pub Ensures-report : Ensures (report_result r now) ReportsRow (ReportFails r now db) db
    Ensures-report = Ensures-weaken meant (report_result-Reports r now db)
      where
        meant : (u : Unit {0}) (db' : Db) → Reports r now db u db' → ReportsRow u db'
        meant u db' (row, found, owner, e) =
            rw e (row, found, owner, reported-Reported row db.tasks, refl)
