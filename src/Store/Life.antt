-- ===== src/Store/Life.antt =====
-- The life of a row, as internal/model/task.go and internal/store/store.go describe it: the changes
-- that the program makes to one row, and how a table comes from another by such changes.
pub mod Rows
pub mod Evolution
pub mod Steps
pub mod Work
pub mod Reach
pub mod Bounds
pub mod Retries
pub mod Requeues
pub mod Attempts
pub mod Exhaustion
use worker_lightweight.Base.{ℕ, ◌≡◌, ◌≢◌, refl, Bool, true, List, [], ℤ, pos, ◌<ℤ◌, Text, In}
use worker_lightweight.Model.{Task, Result, pending, running, stopped}
use worker_lightweight.Store.Control.{in_flight, toggled, halted, resumed, detached}
use worker_lightweight.Store.Claim.{is_due, claimed}
use worker_lightweight.Store.Report.{requeued, settled}
use worker_lightweight.Store.Report.Effects.{next_status, next_retry}
use worker_lightweight.Store.Tasks.{stamped}
use worker_lightweight.Store.Tasks.Effects.{with_id}

-- One change of a row, each with what it asks of the row.
pub data Edit (t u : Task) : Type 0 where
  toggle : (enabled : Bool) (now : ℕ) → u ≡ toggled enabled now t → Edit t u
  halt : (reason : Text) (now : ℕ) → in_flight t ≡ true → u ≡ halted reason now t → Edit t u
  resume : (now now' : ℕ) → t.status ≡ stopped → u ≡ resumed now now' t → Edit t u
  detach : t.status ≡ stopped → u ≡ detached t → Edit t u
  claim :
      (worker : Text) (now now' : ℕ) → is_due now t ≡ true → u ≡ claimed worker now' t → Edit t u
  requeue :
      (r : Result) (now : ℕ)
      → t.status ≡ running
      → t.worker_id ≡ r.worker_id
      → next_status r now t ≡ pending
      → u ≡ requeued r (next_retry r now t) now t
      → Edit t u
  settle :
      (r : Result) (now : ℕ)
      → t.status ≢ stopped
      → t.worker_id ≡ r.worker_id
      → next_status r now t ≢ pending
      → u ≡ settled r (next_status r now t) (next_retry r now t) now t
      → Edit t u

-- Any number of changes.
pub data Edits (t : Task) : Task → Type 0 where
  here : Edits t t
  next : {u v : Task} → Edits t u → Edit u v → Edits t v

-- What the server inserts: a pending row that no worker owns and that has not been tried.
pub record IsNew (t : Task) : Type 0 where
  pub waits : t.status ≡ pending
  pub untried : t.retry_count ≡ pos 0
  pub unowned : t.worker_id ≡ []

-- Where a row of the later table comes from: a row of the earlier table, or one inserted since,
-- whose id is above every id that was given out before.
pub data Origin (last_id : ℕ) (ts : List Task) (u : Task) : Type 0 where
  old : (t : Task) → In t ts → Edits t u → Origin last_id ts u
  new : (t : Task) → IsNew t → pos last_id <ℤ t.id → Edits t u → Origin last_id ts u

pub Edits-trans : {t u v : Task} → Edits t u → Edits u v → Edits t v
Edits-trans e here = e
Edits-trans e (next f s) = next (Edits-trans e f) s

-- No change touches the id.
pub Edit-id : {t u : Task} → Edit t u → u.id ≡ t.id
Edit-id (toggle enabled now e) = rw e
Edit-id (halt reason now h e) = rw e
Edit-id (resume now now' h e) = rw e
Edit-id (detach h e) = rw e
Edit-id (claim worker now now' h e) = rw e
Edit-id (requeue r now h o n e) = rw e
Edit-id (settle r now h o n e) = rw e

pub Edits-id : {t u : Task} → Edits t u → u.id ≡ t.id
Edits-id here = refl
Edits-id (next f s) = cc (Edit-id s, Edits-id f)
