-- ===== src/Store/Life/Reach.antt =====
-- internal/store/store.go: runs of the store, as sequences of its operations with any arguments and
-- any faults. Rows are inserted as internal/server/server.go (createTask) and
-- internal/server/scheduler.go (spawn) build them.
use worker_lightweight.Base.{◌≡◌, ◌∙◌, ℕ, Bool, List, [], ℤ, pos, ◌≤ℤ◌, Text, Option, In, arith}
use worker_lightweight.Model.{Task, Result}
use worker_lightweight.Store.Db.{Db, Faults}
use worker_lightweight.Store.Tasks.{create, delete}
use worker_lightweight.Store.Control.{
  set_enabled, stop_all_cron, stop_task, resume_task, clear_worker,
}
use worker_lightweight.Store.Claim.{claim_pending}
use worker_lightweight.Store.Claim.Effects.{IsOldest}
use worker_lightweight.Store.Report.{report_result}
use worker_lightweight.Store.Life.{Edits, IsNew, Origin, old, new, Edits-id}
use worker_lightweight.Store.Life.Rows.{IsValid, In-AtMost, In-unique}
use worker_lightweight.Store.Life.Evolution.{
  Evolves, Evolves-refl, Evolves-trans, Moves, Moves-Evolves,
}
use worker_lightweight.Store.Life.Steps.{
  create-Moves, delete-Moves, set_enabled-Moves, stop_all_cron-Moves, stop_task-Moves,
  resume_task-Moves, clear_worker-Moves,
}
use worker_lightweight.Store.Life.Work.{claim-Moves, report-Moves}

-- One operation, with its arguments and the faults that it meets.
pub data Step (oldest : List Task → Option Task) (db db' : Db) : Type 0 where
  creates :
      (t : Task) (now : ℕ) (fs : Faults)
      → IsNew t
      → db' ≡ (create t now fs db).2
      → Step oldest db db'
  deletes : (id : ℤ) (fs : Faults) → db' ≡ (delete id fs db).2 → Step oldest db db'
  enables :
      (id : ℤ) (enabled : Bool) (now now' : ℕ) (fs : Faults)
      → db' ≡ (set_enabled id enabled now now' fs db).2
      → Step oldest db db'
  stops_all :
      (now now' : ℕ) (fs : Faults) → db' ≡ (stop_all_cron now now' fs db).2 → Step oldest db db'
  stops : (id : ℤ) (now : ℕ) (fs : Faults) → db' ≡ (stop_task id now fs db).2 → Step oldest db db'
  resumes :
      (id : ℤ) (now now' : ℕ) (fs : Faults)
      → db' ≡ (resume_task id now now' fs db).2
      → Step oldest db db'
  clears :
      (id : ℤ) (worker : Text) (fs : Faults)
      → db' ≡ (clear_worker id worker fs db).2
      → Step oldest db db'
  claims :
      (worker : Text) (now now' : ℕ) (fs : Faults)
      → db' ≡ (claim_pending oldest worker now now' fs db).2
      → Step oldest db db'
  reports :
      (r : Result) (now : ℕ) (fs : Faults)
      → db' ≡ (report_result r now fs db).2
      → Step oldest db db'

pub data Reach (oldest : List Task → Option Task) (db : Db) : Db → Type 0 where
  start : Reach oldest db db
  step : {a b : Db} → Reach oldest db a → Step oldest a b → Reach oldest db b

-- The table before anything was inserted.
abbrev pub empty_db : Db
empty_db = record { tasks = []; last_id = 0 }

module _ (oldest : List Task → Option Task) (law : IsOldest oldest) where
  pub Step-Moves : (a b : Db) → IsValid a → Step oldest a b → Moves a b
  Step-Moves a b v (creates t now fs n e) = rw e (create-Moves t now fs a n v)
  Step-Moves a b v (deletes id fs e) = rw e (delete-Moves id fs a v)
  Step-Moves a b v (enables id enabled now now' fs e) =
      rw e (set_enabled-Moves id enabled now now' fs a v)
  Step-Moves a b v (stops_all now now' fs e) = rw e (stop_all_cron-Moves now now' fs a v)
  Step-Moves a b v (stops id now fs e) = rw e (stop_task-Moves id now fs a v)
  Step-Moves a b v (resumes id now now' fs e) = rw e (resume_task-Moves id now now' fs a v)
  Step-Moves a b v (clears id worker fs e) = rw e (clear_worker-Moves id worker fs a v)
  Step-Moves a b v (claims worker now now' fs e) = rw e (claim-Moves law worker now now' fs a v)
  Step-Moves a b v (reports r now fs e) = rw e (report-Moves r now fs a v)

  -- In a valid table, any run of the store leads to a valid table: ids are positive, distinct and
  -- were given out before; and each row of it comes, by changes of Life, from the row of the same
  -- id before the run, or from a new row whose id is above every id given out before the run.
  pub Reach-Evolves : (a b : Db) → IsValid a → Reach oldest a b → Evolves a b
  Reach-Evolves a b v start = Evolves-refl a v
  Reach-Evolves a b v (step {a = c} r s) =
      let first = Reach-Evolves a c v r in
      Evolves-trans a c b first (Moves-Evolves c b (Step-Moves c b first.valid s))

  -- A row that survives a run got there by changes of that row alone: its id is not given again.
  pub Reach-Edits :
      (a b : Db) (t u : Task)
      → IsValid a
      → Reach oldest a b
      → In t a.tasks
      → In u b.tasks
      → t.id ≡ u.id
      → Edits t u
  Reach-Edits a b t u v r i j same = from ((Reach-Evolves a b v r).origin u j)
    where
      from : Origin a.last_id a.tasks u → Edits t u
      from (old s k e) = rw (In-unique (pos 0) t s a.tasks v.ascends i k (same ∙ Edits-id e)) e
      from (new s n above e) =
          let low : t.id ≤ℤ pos a.last_id = In-AtMost (pos a.last_id) t a.tasks v.given_out i in
          let high : t.id ≡ s.id = same ∙ Edits-id e in absurd (ground arith)

pub empty_db-IsValid : IsValid empty_db
empty_db-IsValid = record { ascends = tt; given_out = tt }
