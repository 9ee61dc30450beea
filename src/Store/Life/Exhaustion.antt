-- ===== src/Store/Life/Exhaustion.antt =====
-- internal/store/store.go: a task that fails whenever a worker runs it.
use worker_lightweight.Base.{
  ◌≡◌, refl, ◌∙◌, ap, ℕ, suc, ◌+◌, ◌^◌, ◌-◌, ◌≤◌, ◌<◌, true, false, List, [], ◌∷◌, ℤ, pos, Text,
  Option, none, some, In, head, tail, select, length, wrap, wrap-pos, leb, beq_self, ◌==◌, int_eq,
  if◌then◌else◌, Bool-cases, inl, inr, arith,
}
use worker_lightweight.Model.{Task, Result, once, pending, dead, status_eq, type_eq}
use worker_lightweight.Store.Db.{Db, Faults, Outcome, ok, err}
use worker_lightweight.Store.Claim.{is_due, claimed, claim_pending}
use worker_lightweight.Store.Claim.Effects.{IsOldest}
use worker_lightweight.Store.Claim.Progress.{claim_some}
use worker_lightweight.Store.Report.{new_retry, new_status, report_result}
use worker_lightweight.Store.Report.Effects.{next_status}
use worker_lightweight.Store.Report.Running.{finished, report_claimed}
use worker_lightweight.Store.Life.Rows.{IsValid}
use worker_lightweight.Store.Life.Retries.{add_one}

-- A poll of a worker, and its report of a failure if it got a task.
pub record Round : Type 0 where
  pub worker : Text
  pub now : ℕ
  pub now' : ℕ
  pub told : ℕ
  pub output : Text

abbrev pub failure_of : Round → ℤ → Result
failure_of p id = record { task_id = id; worker_id = p.worker; success = false; output = p.output }

-- What the round makes of a row that it gets.
abbrev pub failed_row : Round → Task → Task
failed_row p row = finished (failure_of p row.id) p.told row (claimed p.worker p.now' row)

-- Each round comes when the row is due again.
abbrev pub Timely : List Round → Task → Type 0
Timely [] row = Unit
Timely (p ∷ ps) row = (row.next_run_at ≤ p.now) × Timely ps (failed_row p row)

module _ (oldest : List Task → Option Task) where
  abbrev pub told_of : Round → Outcome Task × Faults × Db → Db
  told_of p (err e, fs, db) = db
  told_of p (ok t, fs, db) = (report_result (failure_of p t.id) p.told fs db).2

  unfoldable pub fail_all : List Round → Db → Db
  fail_all [] db = db
  fail_all (p ∷ ps) db = fail_all ps (told_of p (claim_pending oldest p.worker p.now p.now' [] db))

-- The end of the rounds.
abbrev pub Dead : ℕ → ℕ → Db → Type 0
Dead last_id m db =
    (u : Task) × (db ≡ record { tasks = u ∷ []; last_id = last_id })
    × (u.status ≡ dead)
    × (u.retry_count ≡ pos (suc m))

module _ (oldest : List Task → Option Task) (law : IsOldest oldest) where
  only_one : (row : Task) → oldest (row ∷ []) ≡ some row
  only_one row = from (oldest (row ∷ [])) refl
    where
      same : (t : Task) → In t (row ∷ []) → t ≡ row
      same t (head e) = e
      same t (tail i) = elim i [ ]

      from : (o : Option Task) → oldest (row ∷ []) ≡ o → o ≡ some row
      from none e = absurd (law.finds row [] e)
      from (some t) e = ap some (same t (law.picks (row ∷ []) t e).0)

  fail_round :
      (p : Round) (row : Task) (last_id : ℕ)
      → IsValid (record { tasks = row ∷ []; last_id = last_id })
      → is_due p.now row ≡ true
      → told_of oldest p (
          claim_pending oldest p.worker p.now p.now' []
            (record { tasks = row ∷ []; last_id = last_id }))
        ≡ record { tasks = failed_row p row ∷ []; last_id = last_id }
  fail_round p row last_id v due = rw (claim_some oldest law p.worker p.now p.now' db row chosen) (
      ap (λ r. r.2)
        (report_claimed (failure_of p row.id) p.worker p.now' p.told db row v (head refl) waits refl
          refl)
      ∙ rw (beq_self row.id, waits) refl)
    where
      db : Db
      db = record { tasks = row ∷ []; last_id = last_id }

      chosen : oldest (select (is_due p.now) db.tasks) ≡ some row
      chosen = rw due (only_one row)

      waits : row.status ≡ pending
      waits = ground (arith, due)

  -- A failure within the limit, and the one above it.
  next_retry_of : (k : ℕ) → k < 2 ^ 63 - 1 → new_retry false (pos k) ≡ pos (suc k)
  unfolding new_retry
  next_retry_of k small =
      ap wrap (add_one k) ∙ (wrap-pos (k + 1) (omega arith) ∙ ap pos (omega arith))

  status_of_retry :
      (k m : ℕ) → new_status false (pos (suc k)) (pos m) ≡ (if leb (suc k) m then pending else dead)
  unfolding new_status
  status_of_retry k m = ground arith

  -- A row that waits after `k` of its `m` retries.
  record Tried (k m : ℕ) (row : Task) : Type 0 where
    kind : row.type ≡ once
    waits : row.status ≡ pending
    count : row.retry_count ≡ pos k
    limit : row.max_retry ≡ pos m

  module _ (p : Round) (row : Task) (k m : ℕ) (t : Tried k m row) (small : m < 2 ^ 63 - 1) where
    failed-Tried : suc k ≤ m → Tried (suc k) m (failed_row p row)
    failed-Tried more =
        let again : leb (suc k) m ≡ true = ground arith in
        rw (t.count, t.limit, next_retry_of k (omega arith), status_of_retry k m, again)
          (record { kind = t.kind; waits = refl; count = refl; limit = refl })

    failed_last :
        k ≡ m → ((failed_row p row).status ≡ dead) × ((failed_row p row).retry_count ≡ pos (suc m))
    failed_last done =
        let over : leb (suc k) m ≡ false = ground arith in
        rw (t.count, t.limit, next_retry_of k (omega arith), status_of_retry k m, over)
          (refl, ap (λ n. pos (suc n)) done)

  failed_id : (p : Round) (row : Task) → (failed_row p row).id ≡ row.id
  failed_id p row = elim (Bool-cases (next_status (failure_of p row.id) p.told row == pending)) [
    | inl e ↦ rw e refl
    | inr e ↦ rw e refl
  ]

  one_row : ℕ → Task → Db
  one_row last_id row = record { tasks = row ∷ []; last_id = last_id }

  one_row-IsValid :
      (p : Round) (row : Task) (last_id : ℕ)
      → IsValid (one_row last_id row)
      → IsValid (one_row last_id (failed_row p row))
  unfolding one_row
  one_row-IsValid p row last_id v = record {
    ascends = rw (failed_id p row) v.ascends;
    given_out = rw (failed_id p row) v.given_out;
  }

  is_due_now :
      (p : Round) (row : Task) (k m : ℕ)
      → Tried k m row
      → row.next_run_at ≤ p.now
      → is_due p.now row ≡ true
  is_due_now p row k m t h = rw (t.kind, t.waits) (ground arith)

  run_out :
      (ps : List Round) (row : Task) (k m last_id : ℕ)
      → Tried k m row
      → m < 2 ^ 63 - 1
      → IsValid (one_row last_id row)
      → Timely ps row
      → k + length ps ≡ suc m
      → k ≤ m
      → Dead last_id m (fail_all oldest ps (one_row last_id row))
  unfolding fail_all one_row
  run_out [] row k m last_id t small v due n le = absurd (omega arith)
  run_out (p ∷ []) row k m last_id t small v due n le =
      let end = failed_last p row k m t small (omega arith) in
      (failed_row p row, fail_round p row last_id v (is_due_now p row k m t due.0), end.0, end.1)
  run_out (p ∷ q ∷ ps) row k m last_id t small v due n le =
      rw (fail_round p row last_id v (is_due_now p row k m t due.0)) (
        run_out (q ∷ ps) (failed_row p row) (suc k) m last_id
          (failed-Tried p row k m t small (omega arith)) small (one_row-IsValid p row last_id v)
          due.1 (omega arith) (omega arith))

  -- A one-shot task that waits with no retries so far, is alone in a valid table, with a limit of
  -- m retries below the greatest int, and fails whenever a worker runs it, the database answering
  -- and each poll coming when the task is due again, is dead after just m + 1 polls, with m + 1
  -- failures counted.
  pub fail_all-Dead :
      (ps : List Round) (row : Task) (m last_id : ℕ)
      → row.type ≡ once
      → row.status ≡ pending
      → row.retry_count ≡ pos 0
      → row.max_retry ≡ pos m
      → m < 2 ^ 63 - 1
      → IsValid (record { tasks = row ∷ []; last_id = last_id })
      → Timely ps row
      → length ps ≡ suc m
      → Dead last_id m (fail_all oldest ps (record { tasks = row ∷ []; last_id = last_id }))
  unfolding one_row
  fail_all-Dead ps row m last_id kind waits count limit small v due n =
      run_out ps row 0 m last_id
        (record { kind = kind; waits = waits; count = count; limit = limit }) small v due
        (omega arith) (omega arith)
