-- ===== src/Store/Schema.antt =====
-- internal/store/store.go: migrate, on the columns of the table and the names of its indexes.
pub mod Upgrades
pub mod Opening
use worker_lightweight.Base.{
  Bool, true, false, ◌&&◌, ◌||◌, List, [], ◌∷◌, ◌++◌, Option, none, some, Text, lit, text_beq, ◌==◌,
  text_eq, if◌then◌else◌,
}
use worker_lightweight.Store.Db.{Faults}

-- The columns of the table `tasks`, if it is there.
pub record Schema : Type 0 where
  pub columns : Option (List Text)
  pub indexes : List Text

abbrev pub contains : Text → List Text → Bool
contains x [] = false
contains x (y ∷ ys) = y == x || contains x ys

abbrev pub contains_all : List Text → List Text → Bool
contains_all [] ys = true
contains_all (x ∷ xs) ys = contains x ys && contains_all xs ys

-- A statement ends in the new schema, or is refused.
abbrev pub Statement : Type 0
Statement = Schema → Option Schema

abbrev pub all_columns : List Text
all_columns =
    lit "id"
    ∷ lit "name"
    ∷ lit "command"
    ∷ lit "type"
    ∷ lit "cron_expr"
    ∷ lit "status"
    ∷ lit "max_retry"
    ∷ lit "retry_count"
    ∷ lit "timeout_sec"
    ∷ lit "worker_id"
    ∷ lit "result"
    ∷ lit "created_at"
    ∷ lit "updated_at"
    ∷ lit "next_run_at"
    ∷ lit "enabled"
    ∷ lit "parent_id"
    ∷ []

-- `CREATE TABLE IF NOT EXISTS`.
abbrev pub create_table : Statement
create_table s = elim s.columns [
  | none ↦ some (record s { columns = some all_columns })
  | some cs ↦ some s
]

abbrev index_on : List Text → Option (List Text) → Bool
index_on keys none = false
index_on keys (some cs) = contains_all keys cs

-- `CREATE INDEX IF NOT EXISTS name ON tasks(keys)`: a column that is not there is an error.
abbrev pub create_index : Text → List Text → Statement
create_index name keys s =
    if contains name s.indexes
    then some s
    else if index_on keys s.columns
    then some (record s { indexes = s.indexes ++ name ∷ [] })
    else none

-- `SELECT COUNT(*) FROM pragma_table_info('tasks') WHERE name=...`, and ALTER TABLE where it is 0.
abbrev pub has_column : Text → Schema → Bool
has_column name s = elim s.columns [ none ↦ false | some cs ↦ contains name cs ]

abbrev pub add_column : Text → Statement
add_column name s = elim s.columns [
  | none ↦ none
  | some cs ↦ some (record s { columns = some (cs ++ name ∷ []) })
]

-- Whether all statements so far returned nil, the faults to come and the schema.
abbrev pub Run : Type 0
Run = Bool × Faults × Schema

abbrev pub ended : Faults → Schema → Option Schema → Run
ended fs s none = (false, fs, s)
ended fs s (some t) = (true, fs, t)

abbrev pub exec : Statement → Run → Run
exec run (false, fs, s) = (false, fs, s)
exec run (true, [], s) = ended [] s (run s)
exec run (true, true ∷ fs, s) = (false, fs, s)
exec run (true, false ∷ fs, s) = ended fs s (run s)

abbrev pub if_missing : Text → Run → Run
if_missing name (false, fs, s) = (false, fs, s)
if_missing name (true, fs, s) =
    if has_column name s then (true, fs, s) else exec (add_column name) (true, fs, s)

-- The query of the columns, then the ALTER TABLE.
abbrev pub ensure_column : Text → Run → Run
ensure_column name r = if_missing name (exec some r)

-- The statements of `ddl` run one after the other, up to the first that fails.
unfoldable pub migrate : Faults → Schema → Run
unfolding text_beq
migrate fs s = ensure_column (lit "parent_id") (
    ensure_column (lit "enabled") (
      exec (create_index (lit "idx_tasks_parent_id") (lit "parent_id" ∷ [])) (
        exec (create_index (lit "idx_tasks_type") (lit "type" ∷ [])) (
          exec (create_index (lit "idx_tasks_status_next") (lit "status" ∷ lit "next_run_at" ∷ []))
            (exec create_table (true, fs, s))))))
