-- ===== src/Store/Control/Effects.antt =====
-- internal/store/store.go: what the operations of Control do to the table, on every path.
use worker_lightweight.Base.{
  ◌≡◌, refl, ℕ, ◌⊎◌, inl, inr, Bool, true, false, not, ◌&&◌, List, [], ◌∷◌, ℤ, Text, lit, select,
  ◌==◌, nat_eq, int_eq, text_eq, arith, ◌<◌, length,
}
use worker_lightweight.Model.{Task, stopped, cron, status_eq, type_eq}
use worker_lightweight.Store.Db.{
  Db, StoreError, not_found, db_error, ◌>>=◌, ◌>>◌, pure, guard, update, update_rows, matching,
}
use worker_lightweight.Store.Rules.{
  Ensures, Ensures-pure, after_update, after_guard, Ensures-guard, Ensures-tx,
}
use worker_lightweight.Store.Control.Intents.{
  stopped_for, waits_or_runs, select-update_none, queued_again, live_child_of, switched,
  paused_defs, is_live_child,
}
use worker_lightweight.Store.Control.{
  toggled, stop_children, set_enabled, stop_all_children, stop_all_cron, stop_task, resume_task,
  detached, clear_worker,
}

-- A failure changes nothing, and is the database's unless `p` selects no row.
abbrev pub Refused : Db → (Task → Bool) → StoreError → Db → Type 0
Refused db p e db' = (db' ≡ db) × ((e ≡ db_error) ⊎ ((e ≡ not_found) × (matching p db ≡ 0)))

abbrev pub Edited : Db → List Task → Db → Type 0
Edited db ts db' = db' ≡ record db { tasks = ts }

pub update_rows-none :
    (p : Task → Bool) (f : Task → Task) (ts : List Task)
    → length (select p ts) ≡ 0
    → update_rows p f ts ≡ ts
update_rows-none p f [] h = refl
update_rows-none p f (t ∷ ts) h = ground (arith, update_rows-none p f ts)

-- One guarded UPDATE, the shape that StopTask and ResumeTask share.
Ensures-guarded :
    (p : Task → Bool) (f : Task → Task) (db : Db)
    → Ensures
        (update p f >>= λ n. guard (not (n == 0)) not_found)
        (λ _ db'. (0 < matching p db) × Edited db (update_rows p f db.tasks) db')
        (Refused db p)
        db
Ensures-guarded p f db =
    after_update p f (λ n. guard (not (n == 0)) not_found) (refl, inl refl)
      (Ensures-guard _ not_found (λ some_row. (ground arith, refl)) missing)
  where
    missing :
        not (matching p db == 0) ≡ false
        → Refused db p not_found (record db { tasks = update_rows p f db.tasks })
    missing b =
        let none_match : matching p db ≡ 0 = ground arith in
        (rw (update_rows-none p f db.tasks none_match) refl, inr (refl, none_match))

-- Whatever faults are met, StopTask either finds the row of the id waiting or running, and changes
-- that row alone: its status to stopped, its result to "stopped by user" and its time of update; or
-- it fails and changes nothing, by a fault of the database or, with ErrNotFound, because no row of
-- the id waits or runs, also where the row is stopped already.
pub Ensures-stop_task :
    (id : ℤ) (now : ℕ) (db : Db)
    → let p = λ (t : Task). t.id == id && waits_or_runs t in
      Ensures
        (stop_task id now)
        (λ _ db'.
          (0 < matching p db)
          × Edited db (update_rows p (stopped_for (lit "stopped by user") now) db.tasks) db')
        (Refused db p)
        db
unfolding stop_task
Ensures-stop_task id now db = Ensures-guarded _ _ db

-- Whatever faults are met, ResumeTask either puts the stopped row of the id back into the queue with
-- no owner; or it fails and changes nothing, by a fault of the database or because no such row is
-- stopped.
pub Ensures-resume_task :
    (id : ℤ) (now now' : ℕ) (db : Db)
    → let p = λ (t : Task). t.id == id && t.status == stopped in
      Ensures
        (resume_task id now now')
        (λ _ db'.
          (0 < matching p db) × Edited db (update_rows p (queued_again now now') db.tasks) db')
        (Refused db p)
        db
unfolding resume_task
Ensures-resume_task id now now' db = Ensures-guarded _ _ db

-- Whatever faults are met, SetEnabled either finds the row of the id and writes its switch and its
-- time of update; and where it disables the row it also writes the status stopped, the result
-- "stopped: cron paused" and the time of update of all its children that wait or run, after which
-- it has no such child; or it fails and does neither, by a fault of the database or, with
-- ErrNotFound, because there is no such row.
pub Ensures-set_enabled :
    (id : ℤ) (enabled : Bool) (now now' : ℕ) (db : Db)
    → Ensures
        (set_enabled id enabled now now')
        (λ _ db'.
          (0 < matching (λ t. t.id == id) db)
          × Edited db (switched id enabled now now' db.tasks) db'
          × ((enabled ≡ true) ⊎ (select (live_child_of id) db'.tasks ≡ [])))
        (Refused db (λ t. t.id == id))
        db
unfolding set_enabled
Ensures-set_enabled id enabled now now' db =
    Ensures-tx _ (refl, inl refl)
      (after_update p (toggled enabled now)
        (λ n. guard (not (n == 0)) not_found >> stop_children enabled id now') (refl, inl refl)
        (after_guard (not (matching p db == 0)) not_found (stop_children enabled id now')
          (λ found. children enabled (ground arith))
          (λ none_found. (refl, inr (refl, ground arith)))))
  where
    p : Task → Bool
    p t = t.id == id

    halt : Task → Task
    halt = stopped_for (lit "stopped: cron paused") now'

    children :
        (b : Bool)
        → 0 < matching p db
        → Ensures
            (stop_children b id now')
            (λ _ db'.
              (0 < matching p db)
              × Edited db (switched id b now now' db.tasks) db'
              × ((b ≡ true) ⊎ (select (live_child_of id) db'.tasks ≡ [])))
            (λ e _. Refused db p e db)
            (record db { tasks = update_rows p (toggled b now) db.tasks })
    children true found = Ensures-pure tt (found, refl, inl refl)
    children false found =
        after_update _ _ (λ n. pure tt) (refl, inl refl)
          (Ensures-pure tt
            (found, refl, inr (select-update_none (live_child_of id) halt _ (λ t. ground arith))))

pub Ensures-clear_worker :
    (id : ℤ) (worker : Text) (db : Db)
    → let p = λ (t : Task). t.id == id && t.worker_id == worker && t.status == stopped in
      Ensures
        (clear_worker id worker)
        (λ _. Edited db (update_rows p detached db.tasks))
        (λ e db'. (e ≡ db_error) × (db' ≡ db))
        db
unfolding clear_worker
Ensures-clear_worker id worker db =
    after_update _ detached (λ n. pure tt) (refl, refl) (Ensures-pure tt refl)

-- Whatever faults are met, StopAllCron either writes false to the switch of every cron definition and
-- then the status stopped and the result "stopped: cron shutdown" to every child that waits or runs,
-- after which no child does, and returns how many rows each statement changed; or it fails by a
-- fault of the database and leaves the table as it was or with the definitions disabled and no child
-- stopped.
pub Ensures-stop_all_cron :
    (now now' : ℕ) (db : Db)
    → Ensures
        (stop_all_cron now now')
        (λ r db'.
          (r.0 ≡ matching (λ t. t.type == cron) db)
          × (r.1 ≡ length (select is_live_child (paused_defs now db.tasks)))
          × Edited db
              (update_rows is_live_child
                (stopped_for (lit "stopped: cron shutdown") now')
                (paused_defs now db.tasks))
              db'
          × (select is_live_child db'.tasks ≡ []))
        (λ e db'. (e ≡ db_error) × ((db' ≡ db) ⊎ Edited db (paused_defs now db.tasks) db'))
        db
unfolding stop_all_cron
Ensures-stop_all_cron now now' db =
    after_update (λ t. t.type == cron) (toggled false now) (λ n. stop_all_children n now')
      (refl, inl refl)
      (after_update is_live_child _ (λ n. pure (matching (λ t. t.type == cron) db, n))
        (refl, inr refl)
        (Ensures-pure _ (
          refl,
          refl,
          refl,
          select-update_none is_live_child halt (paused_defs now db.tasks) (λ t. ground arith),
        )))
  where
    halt : Task → Task
    halt = stopped_for (lit "stopped: cron shutdown") now'
