-- ===== src/Store/Db.antt =====
-- internal/store/store.go: the SQLite handle. A method of Store is a computation over the table
-- that may end in an error. Each statement reads the head of a list of faults, which says whether
-- the database refuses it; an empty list is a database that answers from there on.
use worker_lightweight.Base.{
  ℕ, suc, Bool, true, false, List, [], ◌∷◌, ◌++◌, ℤ, pos, Text, Option, none, some, length, select,
  if◌then◌else◌,
}
use worker_lightweight.Model.{Task}

-- The rows in the order of their insertion, and the last id that AUTOINCREMENT gave out.
pub record Db : Type 0 where
  pub tasks : List Task
  pub last_id : ℕ

pub data StoreError : Type 0 where
  not_found : StoreError
  not_owner : (worker : Text) (task : ℤ) (owner : Text) → StoreError
  db_error : StoreError

pub data Outcome {ℓ} (A : Type ℓ) : Type ℓ where
  ok : A → Outcome A
  err : StoreError → Outcome A

abbrev pub Faults : Type 0
Faults = List Bool

abbrev pub M {ℓ} : Type ℓ → Type ℓ
M A = Faults → Db → Outcome A × Faults × Db

abbrev pub next {ℓ κ} :
    {A : Type ℓ} {B : Type κ} → Outcome A → (A → M B) → Faults → Db → Outcome B × Faults × Db
next (ok a) f fs db = f a fs db
next (err e) f fs db = (err e, fs, db)

infixl 5 ◌>>=◌ ◌>>◌
abbrev pub ◌>>=◌ {ℓ κ} : {A : Type ℓ} {B : Type κ} → M A → (A → M B) → M B
◌>>=◌ m f fs db = let r = m fs db in next r.0 f r.1 r.2

abbrev pub ◌>>◌ {ℓ} : {B : Type ℓ} → M (Unit {0}) → M B → M B
m >> k = m >>= λ _. k

abbrev pub pure {ℓ} : {A : Type ℓ} → A → M A
pure a fs db = (ok a, fs, db)

abbrev pub fail {ℓ} : {A : Type ℓ} → StoreError → M A
fail e fs db = (err e, fs, db)

abbrev pub guard : Bool → StoreError → M (Unit {0})
guard true e = pure tt
guard false e = fail e

abbrev pub or_fail {ℓ} : {A : Type ℓ} → Option A → StoreError → M A
or_fail none e = fail e
or_fail (some a) e = pure a

-- One statement: refused with no effect, or carried out.
unfoldable pub statement {ℓ} : {A : Type ℓ} → (Db → A × Db) → M A
statement run [] db = (ok (run db).0, [], (run db).1)
statement run (true ∷ fs) db = (err db_error, fs, db)
statement run (false ∷ fs) db = (ok (run db).0, fs, (run db).1)

abbrev pub update_rows : (Task → Bool) → (Task → Task) → List Task → List Task
update_rows p f [] = []
update_rows p f (t ∷ ts) = (if p t then f t else t) ∷ update_rows p f ts

-- `UPDATE tasks SET ... WHERE ...`, with RowsAffected.
unfoldable pub update : (Task → Bool) → (Task → Task) → M ℕ
unfolding statement
update p f =
    statement (λ db. (length (select p db.tasks), record db { tasks = update_rows p f db.tasks }))

-- `SELECT ... FROM tasks`, read by `f`.
unfoldable pub query {ℓ} : {A : Type ℓ} → (List Task → A) → M A
unfolding statement
query f = statement (λ db. (f db.tasks, db))

-- `DELETE FROM tasks WHERE ...`.
unfoldable pub delete_rows : (Task → Bool) → M (Unit {0})
unfolding statement
delete_rows keep = statement (λ db. (tt, record db { tasks = select keep db.tasks }))

abbrev pub fresh_id : Db → ℤ
fresh_id db = pos (suc db.last_id)

-- `INSERT INTO tasks`: the row gets the next id, which LastInsertId returns.
unfoldable pub insert : Task → M ℤ
unfolding statement
insert t = statement λ db. (
  fresh_id db,
  record { tasks = db.tasks ++ record t { id = fresh_id db } ∷ []; last_id = suc db.last_id },
)

-- The end of a transaction: what follows BeginTx has run from `saved`.
abbrev pub finish {ℓ} : {A : Type ℓ} → Db → Outcome A → Faults → Db → Outcome A × Faults × Db
finish saved (err e) fs db = (err e, fs, saved)
finish saved (ok a) [] db = (ok a, [], db)
finish saved (ok a) (true ∷ fs) db = (err db_error, fs, saved)
finish saved (ok a) (false ∷ fs) db = (ok a, fs, db)

abbrev pub run_tx {ℓ} : {A : Type ℓ} → M A → Faults → Db → Outcome A × Faults × Db
run_tx body fs db = let r = body fs db in finish db r.0 r.1 r.2

-- BeginTx, a body, and Commit; `defer tx.Rollback()` restores the table on every other exit.
unfoldable pub with_tx {ℓ} : {A : Type ℓ} → M A → M A
with_tx body [] db = run_tx body [] db
with_tx body (true ∷ fs) db = (err db_error, fs, db)
with_tx body (false ∷ fs) db = run_tx body fs db

-- The number of rows that a statement's condition selects.
abbrev pub matching : (Task → Bool) → Db → ℕ
matching p db = length (select p db.tasks)
