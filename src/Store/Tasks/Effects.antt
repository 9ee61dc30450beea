-- ===== src/Store/Tasks/Effects.antt =====
-- internal/store/store.go: what Create and Delete do to the table, on every path.
use worker_lightweight.Base.{
  ◌≡◌, refl, ℕ, suc, true, false, not, [], ◌∷◌, ◌++◌, ℤ, select, ◌==◌, int_eq,
}
use worker_lightweight.Model.{Task}
use worker_lightweight.Store.Db.{Db, db_error, fresh_id}
use worker_lightweight.Store.Rules.{Ensures}
use worker_lightweight.Store.Tasks.{stamped, create, delete}

abbrev pub with_id : ℤ → Task → Task
with_id i t = record t { id = i }

pub Ensures-create :
    (t : Task) (now : ℕ) (db : Db)
    → Ensures
        (create t now)
        (λ u db'.
          (u ≡ with_id (fresh_id db) (stamped t now))
          × (db' ≡ record { tasks = db.tasks ++ u ∷ []; last_id = suc db.last_id }))
        (λ e db'. (e ≡ db_error) × (db' ≡ db))
        db
unfolding create
Ensures-create t now db = record {
  holds = elim [ [] ↦ (refl, refl) | true ∷ fs ↦ (refl, refl) | false ∷ fs ↦ (refl, refl) ];
}

pub Ensures-delete :
    (id : ℤ) (db : Db)
    → Ensures
        (delete id)
        (λ _ db'. db' ≡ record db { tasks = select (λ t. not (t.id == id)) db.tasks })
        (λ e db'. (e ≡ db_error) × (db' ≡ db))
        db
unfolding delete
Ensures-delete id db = record {
  holds = elim [ [] ↦ refl | true ∷ fs ↦ (refl, refl) | false ∷ fs ↦ refl ];
}
