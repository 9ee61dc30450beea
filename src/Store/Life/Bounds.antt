-- ===== src/Store/Life/Bounds.antt =====
-- internal/store/store.go: what holds of every row that a run from the empty table can produce.
use worker_lightweight.Base.{
  ◌≡◌, ◌≢◌, refl, ◌⊎◌, inl, inr, Bool, true, List, [], ℤ, pos, ◌≤ℤ◌, Option, In, arith, ◌==◌, ◌||◌,
}
use worker_lightweight.Model.{Task, pending, running, success, failed, dead, stopped, status_eq}
use worker_lightweight.Store.Db.{Db}
use worker_lightweight.Store.Claim.Effects.{IsOldest}
use worker_lightweight.Store.Report.{new_status}
use worker_lightweight.Store.Report.Effects.{next_retry}
use worker_lightweight.Store.Life.{
  Edit, toggle, halt, resume, detach, claim, requeue, settle, Edits, here, next, IsNew, Origin, old,
  new,
}
use worker_lightweight.Store.Life.Reach.{
  Reach, Reach-Evolves, Reach-Edits, empty_db, empty_db-IsValid,
}
use worker_lightweight.Store.Life.Rows.{IsValid}

-- The columns that define a task.
pub record SameDefinition (t u : Task) : Type 0 where
  pub id : u.id ≡ t.id
  pub name : u.name ≡ t.name
  pub command : u.command ≡ t.command
  pub type : u.type ≡ t.type
  pub cron_expr : u.cron_expr ≡ t.cron_expr
  pub max_retry : u.max_retry ≡ t.max_retry
  pub timeout_sec : u.timeout_sec ≡ t.timeout_sec
  pub parent_id : u.parent_id ≡ t.parent_id
  pub created_at : u.created_at ≡ t.created_at

Edit-SameDefinition : (t u : Task) → Edit t u → SameDefinition t u
Edit-SameDefinition t u (toggle enabled now e) = ground arith
Edit-SameDefinition t u (halt reason now h e) = ground arith
Edit-SameDefinition t u (resume now now' h e) = ground arith
Edit-SameDefinition t u (detach h e) = ground arith
Edit-SameDefinition t u (claim worker now now' h e) = ground arith
Edit-SameDefinition t u (requeue r now h o n e) = ground arith
Edit-SameDefinition t u (settle r now h o n e) = ground arith

Edits-SameDefinition : (t u : Task) → Edits t u → SameDefinition t u
Edits-SameDefinition t u here = ground arith
Edits-SameDefinition t u (next {u = w} s e) =
    let before = Edits-SameDefinition t w s in let last = Edit-SameDefinition w u e in ground arith

-- A row that is pending, running or stopped may still be run.
abbrev pub is_live : Task → Bool
is_live t = t.status == pending || (t.status == running || t.status == stopped)

-- No row has failed, a pending row has no owner, and a row that may still be run was sent back to
-- the queue at most `max_retry` times.
pub record IsSound (t : Task) : Type 0 where
  pub never_failed : t.status ≢ failed
  pub unowned : t.status ≡ pending → t.worker_id ≡ []
  pub within : is_live t ≡ true → (t.retry_count ≡ pos 0) ⊎ (t.retry_count ≤ℤ t.max_retry)

pub new_status-live :
    (s : Bool) (retry max_retry : ℤ) → new_status s retry max_retry ≡ pending → retry ≤ℤ max_retry
unfolding new_status
new_status-live s retry max_retry h = ground arith

pub new_status-final :
    (s : Bool) (retry max_retry : ℤ)
    → new_status s retry max_retry ≢ pending
    → (new_status s retry max_retry ≡ success) ⊎ (new_status s retry max_retry ≡ dead)
unfolding new_status
new_status-final s retry max_retry h = ground arith

IsNew-IsSound : (t : Task) → IsNew t → IsSound t
IsNew-IsSound t n = record {
  never_failed = ground (arith, n.waits);
  unowned = λ _. n.unowned;
  within = λ _. inl n.untried;
}

Edit-IsSound : (t u : Task) → Edit t u → IsSound t → IsSound u
Edit-IsSound t u (toggle enabled now e) v =
    rw e (record { never_failed = v.never_failed; unowned = v.unowned; within = v.within })
Edit-IsSound t u (halt reason now h e) v = rw e (record {
  never_failed = ground arith;
  unowned = ground arith;
  within = λ _. v.within (ground arith);
})
Edit-IsSound t u (resume now now' h e) v = rw e (record {
  never_failed = ground arith;
  unowned = λ _. refl;
  within = λ _. v.within (ground arith);
})
Edit-IsSound t u (detach h e) v =
    rw e (record { never_failed = v.never_failed; unowned = λ _. refl; within = v.within })
Edit-IsSound t u (claim worker now now' h e) v = rw e (record {
  never_failed = ground arith;
  unowned = ground arith;
  within = λ _. v.within (ground arith);
})
Edit-IsSound t u (requeue r now h o n e) v = rw e (record {
  never_failed = ground arith;
  unowned = λ _. refl;
  within = λ _. inr (new_status-live r.success (next_retry r now t) t.max_retry n);
})
Edit-IsSound t u (settle r now h o n e) v =
    elim (new_status-final r.success (next_retry r now t) t.max_retry n) [
      | inl s ↦ rw e (
          rw s
            (record { never_failed = ground arith; unowned = ground arith; within = ground arith }))
      | inr s ↦ rw e (
          rw s
            (record { never_failed = ground arith; unowned = ground arith; within = ground arith }))
    ]

Edits-IsSound : (t u : Task) → Edits t u → IsSound t → IsSound u
Edits-IsSound t u here v = v
Edits-IsSound t u (next {u = w} s e) v = Edit-IsSound w u e (Edits-IsSound t w s v)

module _ (oldest : List Task → Option Task) (law : IsOldest oldest) where
  -- Whatever the store does and whatever faults it meets, a row that survives a run from a valid
  -- table keeps its name, command, type, cron expression, retry limit, timeout, parent and time of
  -- creation.
  pub Reach-SameDefinition :
      (a b : Db) (t u : Task)
      → IsValid a
      → Reach oldest a b
      → In t a.tasks
      → In u b.tasks
      → t.id ≡ u.id
      → SameDefinition t u
  Reach-SameDefinition a b t u v r i j same =
      Edits-SameDefinition t u (Reach-Edits oldest law a b t u v r i j same)

  -- In every table that a run from the empty table leads to, no row has the status `failed`, a
  -- pending row has no owner, and a row that is pending, running or stopped has retry count 0 or
  -- one within its limit.
  pub Reach-IsSound : (b : Db) (u : Task) → Reach oldest empty_db b → In u b.tasks → IsSound u
  Reach-IsSound b u r i = from ((Reach-Evolves oldest law empty_db b empty_db-IsValid r).origin u i)
    where
      from : Origin 0 [] u → IsSound u
      from (old t j e) = elim j [ ]
      from (new t n above e) = Edits-IsSound t u e (IsNew-IsSound t n)
