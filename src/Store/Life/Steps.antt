-- ===== src/Store/Life/Steps.antt =====
-- internal/store/store.go: every operation of Store, under every plan of faults, moves the table by
-- changes of rows. A run of the program is a sequence of such operations, since the connection pool
-- holds one connection.
use worker_lightweight.Base.{
  ◌≡◌, refl, ℕ, suc, ◌⊎◌, inl, inr, Bool, true, false, not, ◌&&◌, [], ◌∷◌, ◌++◌, ℤ, pos, Text,
  select, In, In-select, and-eq-true, beq→eq, ◌==◌, int_eq, text_eq, arith,
}
use worker_lightweight.Model.{Task, stopped, status_eq}
use worker_lightweight.Store.Db.{Db, Faults, fresh_id, update_rows}
use worker_lightweight.Store.Rules.{ensures_end}
use worker_lightweight.Store.Tasks.{stamped, create, delete}
use worker_lightweight.Store.Tasks.Effects.{with_id, Ensures-create, Ensures-delete}
use worker_lightweight.Store.Control.{
  in_flight, toggled, halted, resumed, detached, set_enabled, stop_all_cron, stop_task, resume_task,
  clear_worker,
}
use worker_lightweight.Store.Control.Effects.{
  Ensures-set_enabled, Ensures-stop_all_cron, Ensures-stop_task, Ensures-resume_task,
  Ensures-clear_worker,
}
use worker_lightweight.Store.Control.Intents.{switched}
use worker_lightweight.Store.Life.{toggle, halt, resume, detach, IsNew}
use worker_lightweight.Store.Life.Rows.{
  IsValid, Ascending-select, AtMost-select, Ascending-snoc, AtMost-snoc, In-snoc,
}
use worker_lightweight.Store.Life.Evolution.{
  Moves, Source, before, inserted, kept, Moves-refl, Moves-update, Moves-toggle_halt,
}

pub create-Moves :
    (t : Task) (now : ℕ) (fs : Faults) (db : Db)
    → IsNew t
    → IsValid db
    → Moves db (create t now fs db).2
create-Moves t now fs db n v =
    ensures_end (Moves db) (Ensures-create t now db) (λ u db' (e, q). rw (q, e) added)
      (λ e db' (_, q). rw q (Moves-refl db v)) fs
  where
    u : Task
    u = with_id (fresh_id db) (stamped t now)

    from : (w : Task) → In w db.tasks ⊎ (w ≡ u) → Source db.last_id db.tasks w
    from w (inl i) = before w i (kept refl)
    from w (inr e) = rw e (
        inserted (record { waits = n.waits; untried = n.untried; unowned = n.unowned })
          (omega arith))

    added : Moves db (record { tasks = db.tasks ++ u ∷ []; last_id = suc db.last_id })
    added = record {
      valid = record {
        ascends =
            Ascending-snoc (pos 0) (pos db.last_id) db.tasks u v.ascends v.given_out (omega arith)
              (omega arith);
        given_out =
            AtMost-snoc (pos db.last_id) (pos (suc db.last_id)) db.tasks u v.given_out (omega arith)
              (omega arith);
      };
      grows = omega arith;
      source = λ w i. from w (In-snoc w u db.tasks i);
    }

pub delete-Moves : (id : ℤ) (fs : Faults) (db : Db) → IsValid db → Moves db (delete id fs db).2
delete-Moves id fs db v =
    ensures_end (Moves db) (Ensures-delete id db) (λ _ db' q. rw q removed)
      (λ e db' (_, q). rw q (Moves-refl db v)) fs
  where
    removed : Moves db (record db { tasks = select (λ t. not (t.id == id)) db.tasks })
    removed = record {
      valid = record {
        ascends = Ascending-select _ (pos 0) db.tasks v.ascends;
        given_out = AtMost-select _ (pos db.last_id) db.tasks v.given_out;
      };
      grows = omega arith;
      source = λ u i. before u (In-select _ u db.tasks i).0 (kept refl);
    }

-- Each kind of UPDATE, by what its condition says of a row.
id_in_flight : (a b : Bool) → (a && b) ≡ true → b ≡ true
id_in_flight a b h = (and-eq-true a b h).1

halt-Moves :
    (p : Task → Bool) (reason : Text) (now : ℕ) (db : Db)
    → ((t : Task) → p t ≡ true → in_flight t ≡ true)
    → IsValid db
    → Moves db (record db { tasks = update_rows p (halted reason now) db.tasks })
halt-Moves p reason now db h v =
    Moves-update p (halted reason now) db (λ t. refl) (λ t i e. halt reason now (h t e) refl) v

toggle-Moves :
    (p : Task → Bool) (enabled : Bool) (now : ℕ) (db : Db)
    → IsValid db
    → Moves db (record db { tasks = update_rows p (toggled enabled now) db.tasks })
toggle-Moves p enabled now db v =
    Moves-update p (toggled enabled now) db (λ t. refl) (λ t i e. toggle enabled now refl) v

pub set_enabled-Moves :
    (id : ℤ) (enabled : Bool) (now now' : ℕ) (fs : Faults) (db : Db)
    → IsValid db
    → Moves db (set_enabled id enabled now now' fs db).2
set_enabled-Moves id enabled now now' fs db v =
    ensures_end (Moves db) (Ensures-set_enabled id enabled now now' db)
      (λ _ db' (_, q, _). rw q (go enabled)) (λ e db' (q, _). rw q (Moves-refl db v)) fs
  where
    go : (b : Bool) → Moves db (record db { tasks = switched id b now now' db.tasks })
    go true = toggle-Moves (λ t. t.id == id) true now db v
    go false =
        Moves-toggle_halt _ _ false _ now now' db
          (λ t e. id_in_flight (t.parent_id == id) (in_flight t) e) v

pub stop_all_cron-Moves :
    (now now' : ℕ) (fs : Faults) (db : Db) → IsValid db → Moves db (stop_all_cron now now' fs db).2
stop_all_cron-Moves now now' fs db v =
    ensures_end (Moves db) (Ensures-stop_all_cron now now' db)
      (λ _ db' (_, _, q, _).
        rw q (Moves-toggle_halt _ _ false _ now now' db (λ t e. id_in_flight _ (in_flight t) e) v))
      (λ e db' (_, c). elim c [
        | inl q ↦ rw q (Moves-refl db v)
        | inr q ↦ rw q (toggle-Moves _ false now db v)
      ])
      fs

pub stop_task-Moves :
    (id : ℤ) (now : ℕ) (fs : Faults) (db : Db) → IsValid db → Moves db (stop_task id now fs db).2
stop_task-Moves id now fs db v =
    ensures_end (Moves db) (Ensures-stop_task id now db)
      (λ _ db' (_, q).
        rw q (halt-Moves _ _ now db (λ t e. id_in_flight (t.id == id) (in_flight t) e) v))
      (λ e db' (q, _). rw q (Moves-refl db v)) fs

pub resume_task-Moves :
    (id : ℤ) (now now' : ℕ) (fs : Faults) (db : Db)
    → IsValid db
    → Moves db (resume_task id now now' fs db).2
resume_task-Moves id now now' fs db v =
    ensures_end (Moves db) (Ensures-resume_task id now now' db)
      (λ _ db' (_, q). rw q (
        Moves-update _ (resumed now now') db (λ t. refl)
          (λ t i e. resume now now' (beq→eq t.status stopped (and-eq-true (t.id == id) _ e).1) refl)
          v))
      (λ e db' (q, _). rw q (Moves-refl db v)) fs

-- A condition that ends in `AND status='stopped'`.
pub detach-Moves :
    (p : Task → Bool) (db : Db)
    → IsValid db
    → Moves db
        (record db { tasks = update_rows (λ t. p t && t.status == stopped) detached db.tasks })
detach-Moves p db v =
    Moves-update _ detached db (λ t. refl)
      (λ t i e. detach (beq→eq t.status stopped (and-eq-true (p t) _ e).1) refl) v

pub clear_worker-Moves :
    (id : ℤ) (worker : Text) (fs : Faults) (db : Db)
    → IsValid db
    → Moves db (clear_worker id worker fs db).2
clear_worker-Moves id worker fs db v =
    ensures_end (Moves db) (Ensures-clear_worker id worker db)
      (λ _ db' q. rw q (detach-Moves (λ t. t.id == id && t.worker_id == worker) db v))
      (λ e db' (_, q). rw q (Moves-refl db v)) fs
