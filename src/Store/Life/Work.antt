-- ===== src/Store/Life/Work.antt =====
-- internal/store/store.go: a claim and a report move the table by the changes that Life lists.
use worker_lightweight.Base.{
  ◌≡◌, ◌≢◌, refl, sym, subst, ℕ, inl, inr, true, ◌&&◌, List, pos, Text, Option, some, find, In,
  and-eq-true, beq→eq, beq-ne, ◌==◌, int_eq, ◌∙◌, Bool-cases,
}
use worker_lightweight.Model.{
  Task, Result, Status, pending, running, success, failed, dead, stopped, status_eq,
}
use worker_lightweight.Store.Db.{Db, Faults, update_rows}
use worker_lightweight.Store.Rules.{ensures_end}
use worker_lightweight.Store.Claim.{claim_pending, claimed}
use worker_lightweight.Store.Claim.Effects.{IsOldest, IsChosen, is_claim_of, Ensures-claim}
use worker_lightweight.Store.Report.{report_result, requeued, settled}
use worker_lightweight.Store.Report.Effects.{
  next_status, next_retry, outcome_rows, reported, has_id, report_result-Reports,
}
use worker_lightweight.Store.Life.{Edit, claim, requeue, settle}
use worker_lightweight.Store.Life.Rows.{IsValid, find-In, In-unique}
use worker_lightweight.Store.Life.Evolution.{Moves, Moves-refl, Moves-update}
use worker_lightweight.Store.Life.Steps.{detach-Moves}

module _ {oldest : List Task → Option Task} (law : IsOldest oldest) where
  pub claim-Moves :
      (worker : Text) (now now' : ℕ) (fs : Faults) (db : Db)
      → IsValid db
      → Moves db (claim_pending oldest worker now now' fs db).2
  claim-Moves worker now now' fs db v =
      ensures_end (Moves db) (Ensures-claim oldest law worker now now' db)
        (λ _ db' (row, c, _, q). rw q (go row c)) (λ e db' (q, _). rw q (Moves-refl db v)) fs
    where
      go :
          (row : Task)
          → IsChosen oldest law worker now now' db row
          → Moves db (record db {
            tasks =
                update_rows
                  (is_claim_of oldest law worker now now' db row)
                  (claimed worker now')
                  db.tasks;
          })
      go row c =
          Moves-update _ (claimed worker now') db (λ t. refl)
            (λ t i e.
              let same : row ≡ t =
                In-unique (pos 0) row t db.tasks v.ascends c.stands i
                  (sym (beq→eq t.id row.id (and-eq-true (t.id == row.id) _ e).0)) in
              claim worker now now' (rw same at c.due) refl)
            v

module _ (r : Result) (now : ℕ) (db : Db) (v : IsValid db) (row : Task)
    (found : find (has_id r now) db.tasks ≡ some row) (owner : row.worker_id ≡ r.worker_id) where
  -- The row that the report read is the one that its UPDATE selects.
  is_row : (t : Task) → In t db.tasks → (t.id == r.task_id) ≡ true → row ≡ t
  is_row t i e =
      let at = find-In (has_id r now) db.tasks row found in
      In-unique (pos 0) row t db.tasks v.ascends at.0 i
        (beq→eq row.id r.task_id at.1 ∙ sym (beq→eq t.id r.task_id e))

  settle-Moves :
      row.status ≢ stopped
      → next_status r now row ≢ pending
      → Moves db (record db {
        tasks =
            update_rows
              (λ t. t.id == r.task_id)
              (settled r (next_status r now row) (next_retry r now row) now)
              db.tasks;
      })
  settle-Moves live final =
      Moves-update _ _ db (λ t. refl)
        (λ t i e.
          subst (λ u. Edit u (settled r (next_status r now row) (next_retry r now row) now u))
            (is_row t i e) (settle r now live owner final refl))
        v

  requeue-Moves :
      next_status r now row ≡ pending
      → Moves db (record db {
        tasks =
            update_rows
              (λ t. t.id == r.task_id && t.status == running)
              (requeued r (next_retry r now row) now)
              db.tasks;
      })
  requeue-Moves again =
      Moves-update _ _ db (λ t. refl)
        (λ t i e.
          let parts = and-eq-true (t.id == r.task_id) (t.status == running) e in
          let same = is_row t i parts.0 in
          let runs : row.status ≡ running = rw same (beq→eq t.status running parts.1) in
          subst (λ u. Edit u (requeued r (next_retry r now row) now u)) same
            (requeue r now runs owner again refl))
        v

  outcome-Moves :
      (s : Status)
      → next_status r now row ≡ s
      → row.status ≢ stopped
      → Moves db (record db { tasks = outcome_rows r now s (next_retry r now row) db.tasks })
  outcome-Moves pending e live = requeue-Moves e
  outcome-Moves running e live = rw (← e) (settle-Moves live (rw e (λ p. cc)))
  outcome-Moves success e live = rw (← e) (settle-Moves live (rw e (λ p. cc)))
  outcome-Moves failed e live = rw (← e) (settle-Moves live (rw e (λ p. cc)))
  outcome-Moves dead e live = rw (← e) (settle-Moves live (rw e (λ p. cc)))
  outcome-Moves stopped e live = rw (← e) (settle-Moves live (rw e (λ p. cc)))

  reported-Moves : Moves db (record db { tasks = reported r now row db.tasks })
  reported-Moves = elim (Bool-cases (row.status == stopped)) [
    | inl e ↦ rw e (detach-Moves (λ t. t.id == r.task_id) db v)
    | inr e ↦ rw e (outcome-Moves (next_status r now row) refl (beq-ne row.status stopped e))
  ]

pub report-Moves :
    (r : Result) (now : ℕ) (fs : Faults) (db : Db)
    → IsValid db
    → Moves db (report_result r now fs db).2
report-Moves r now fs db v =
    ensures_end (Moves db) (report_result-Reports r now db)
      (λ _ db' (row, found, owner, q). rw q (reported-Moves r now db v row found owner))
      (λ e db' (q, _). rw q (Moves-refl db v)) fs
