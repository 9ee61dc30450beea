-- ===== src/Store/Report/Effects.antt =====
-- internal/store/store.go: what ReportResult does to the table, on every path.
use worker_lightweight.Base.{
  ◌≡◌, ◌≢◌, refl, ℕ, Bool, true, false, ◌&&◌, List, ℤ, none, some, find, beq→eq, beq-ne, ◌==◌,
  int_eq, text_eq, if◌then◌else◌,
}
use worker_lightweight.Model.{Task, Result, Status, pending, running, stopped, status_eq}
use worker_lightweight.Store.Db.{
  Db, StoreError, not_found, not_owner, db_error, ◌>>=◌, pure, update_rows, query,
}
use worker_lightweight.Store.Rules.{
  Ensures, Ensures-pure, after_update, after_query, after_or_fail, after_guard, Ensures-tx,
}
use worker_lightweight.Store.Control.{detached}
use worker_lightweight.Store.Report.{
  new_retry, new_status, requeued, settled, write_outcome, report_row, report_owned, report_found,
  report_result,
}

module _ (r : Result) (now : ℕ) where
  -- The rows after a report on `row`, which was not stopped.
  abbrev pub outcome_rows : Status → ℤ → List Task → List Task
  outcome_rows pending retry ts =
      update_rows (λ t. t.id == r.task_id && t.status == running) (requeued r retry now) ts
  outcome_rows status retry ts =
      update_rows (λ t. t.id == r.task_id) (settled r status retry now) ts

  -- The status and the retry count that the report gives `row`.
  abbrev pub next_status : Task → Status
  next_status row = new_status r.success (new_retry r.success row.retry_count) row.max_retry

  abbrev pub next_retry : Task → ℤ
  next_retry row = new_retry r.success row.retry_count

  abbrev pub reported : Task → List Task → List Task
  reported row ts =
      if row.status == stopped
      then update_rows (λ t. t.id == r.task_id && t.status == stopped) detached ts
      else outcome_rows (next_status row) (next_retry row) ts

  abbrev pub has_id : Task → Bool
  has_id t = t.id == r.task_id

  module _ (db : Db) where
    abbrev pub Reports : Unit {0} → Db → Type 0
    Reports _ db' =
        (row : Task) × (find has_id db.tasks ≡ some row)
        × (row.worker_id ≡ r.worker_id)
        × (db' ≡ record db { tasks = reported row db.tasks })

    -- Why a report that the database carries out is refused.
    pub data Rejection (e : StoreError) : Type 0 where
      refused : e ≡ db_error → Rejection e
      unknown : e ≡ not_found → find has_id db.tasks ≡ none → Rejection e
      not_owned :
          (row : Task)
          → find has_id db.tasks ≡ some row
          → row.worker_id ≢ r.worker_id
          → e ≡ not_owner r.worker_id r.task_id row.worker_id
          → Rejection e

    abbrev pub ReportFails : StoreError → Db → Type 0
    ReportFails e db' = (db' ≡ db) × Rejection e

    write :
        (row : Task) (status : Status) (retry : ℤ) (Q : Unit {0} → Db → Type 0)
        (E : StoreError → Db → Type 0)
        → E db_error db
        → Q tt (record db { tasks = outcome_rows status retry db.tasks })
        → Ensures (write_outcome r status retry now) Q E db
    write row pending retry Q E k h = after_update _ _ (λ n. pure tt) k (Ensures-pure tt h)
    write row _ retry Q E k h = after_update _ _ (λ n. pure tt) k (Ensures-pure tt h)

    write_row :
        (row : Task) (E : StoreError → Db → Type 0)
        → find has_id db.tasks ≡ some row
        → row.worker_id ≡ r.worker_id
        → E db_error db
        → Ensures (report_row r now row) Reports E db
    write_row row E found owner k = go (row.status == stopped) refl
      where
        go : (b : Bool) → (row.status == stopped) ≡ b → Ensures (report_row r now row) Reports E db
        go true e = rw e (
            after_update (λ t. t.id == r.task_id && t.status == stopped) detached (λ n. pure tt) k
              (Ensures-pure tt (row, found, owner, rw e)))
        go false e =
            rw e
              (write row (next_status row) (next_retry row) Reports E k (row, found, owner, rw e))

    -- What ReportResult does to the table, in the terms of its code.
    pub report_result-Reports : Ensures (report_result r now) Reports ReportFails db
    unfolding report_result
    report_result-Reports =
        Ensures-tx (query (find has_id) >>= report_found r now) (refl, refused refl)
          (after_query (find has_id) (report_found r now) (refl, refused refl)
            (after_or_fail (find has_id db.tasks) not_found (report_owned r now) owned
              (λ absent. (refl, unknown refl absent))))
      where
        owned :
            (row : Task)
            → find has_id db.tasks ≡ some row
            → Ensures (report_owned r now row) Reports (λ e _. ReportFails e db) db
        owned row found =
            after_guard (row.worker_id == r.worker_id) _ (report_row r now row)
              (λ same.
                write_row row _ found (beq→eq row.worker_id r.worker_id same) (refl, refused refl))
              (λ other. (refl, not_owned row found (beq-ne row.worker_id r.worker_id other) refl))
