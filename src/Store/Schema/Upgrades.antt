-- ===== src/Store/Schema/Upgrades.antt =====
-- internal/store/store.go: what migrate makes of a new database and of old ones.
use worker_lightweight.Base.{
  ◌≡◌, refl, true, false, List, [], ◌∷◌, ◌++◌, Option, none, some, Text, lit, ◌==◌, text_eq, arith,
}
use worker_lightweight.Store.Db.{Faults}
use worker_lightweight.Store.Schema.{
  Schema, ended, contains, create_table, create_index, Run, exec, ensure_column, migrate, Statement,
}

-- A run that failed, with these columns.
abbrev Failed : Option (List Text) → Run → Type 0
Failed cs r = (r.0 ≡ false) × (r.2.columns ≡ cs)

contains-snoc :
    (x n : Text) (ys : List Text)
    → (n == x) ≡ false
    → contains x ys ≡ false
    → contains x (ys ++ n ∷ []) ≡ false
contains-snoc x n [] h k = rw h
contains-snoc x n (y ∷ ys) h k = ground (arith, contains-snoc x n ys)

abbrev parent_index : Text
parent_index = lit "idx_tasks_parent_id"

module _ (cs : List Text) where
  -- The columns are still these, and the index on parent_id is not there.
  record IsOld (s : Schema) : Type 0 where
    same : s.columns ≡ some cs
    no_index : contains parent_index s.indexes ≡ false

  -- `run` is refused or leaves an old schema old.
  Keeps : Statement → Type 0
  Keeps run = (s t : Schema) → IsOld s → run s ≡ some t → IsOld t

  ended-IsOld :
      (run : Statement) (fs : Faults) (s : Schema) (o : Option Schema)
      → Keeps run
      → IsOld s
      → run s ≡ o
      → IsOld (ended fs s o).2
  unfolding Keeps
  ended-IsOld run fs s none k old e = old
  ended-IsOld run fs s (some t) k old e = k s t old e

  exec-IsOld : (run : Statement) (r : Run) → Keeps run → IsOld r.2 → IsOld (exec run r).2
  unfolding Keeps
  exec-IsOld run (false, fs, s) k o = o
  exec-IsOld run (true, true ∷ fs, s) k o = o
  exec-IsOld run (true, [], s) k o = ended-IsOld run [] s (run s) k o refl
  exec-IsOld run (true, false ∷ fs, s) k o = ended-IsOld run fs s (run s) k o refl

  create_table-Keeps : Keeps create_table
  unfolding Keeps
  create_table-Keeps s t o e = record {
    same = ground (arith, o.same, e);
    no_index = ground (arith, o.no_index, o.same, e);
  }

  create_index-Keeps :
      (n : Text) (keys : List Text) → (n == parent_index) ≡ false → Keeps (create_index n keys)
  unfolding Keeps
  create_index-Keeps n keys other s t o e = record {
    same = ground (arith, o.same, e);
    no_index = ground (arith, e, contains-snoc parent_index n s.indexes other o.no_index);
  }

  parent_fails :
      (r : Run)
      → contains (lit "parent_id") cs ≡ false
      → IsOld r.2
      → Failed (some cs) (exec (create_index parent_index (lit "parent_id" ∷ [])) r)
  parent_fails (false, fs, s) h o = (refl, o.same)
  parent_fails (true, true ∷ fs, s) h o = (refl, o.same)
  parent_fails (true, [], s) h o = rw (o.no_index, o.same, h) (refl, refl)
  parent_fails (true, false ∷ fs, s) h o = rw (o.no_index, o.same, h) (refl, refl)

  ensure-Failed : (n : Text) (r : Run) → Failed (some cs) r → Failed (some cs) (ensure_column n r)
  ensure-Failed n (false, fs, s) f = f
  ensure-Failed n (true, fs, s) f = cc f.0

-- A database that has a table without the column parent_id and no index on it cannot be opened:
-- ddl asks for that index before ALTER TABLE would add the column, so whatever faults are met,
-- migrate fails and adds no column.
pub migrate_old :
    (cs : List Text) (fs : Faults) (s : Schema)
    → s.columns ≡ some cs
    → contains (lit "parent_id") cs ≡ false
    → contains (lit "idx_tasks_parent_id") s.indexes ≡ false
    → ((migrate fs s).0 ≡ false) × ((migrate fs s).2.columns ≡ some cs)
unfolding migrate
migrate_old cs fs s same absent no_index =
    let tabled =
      exec-IsOld cs create_table (true, fs, s) (create_table-Keeps cs)
        (record { same = same; no_index = no_index }) in
    let first =
      exec-IsOld cs
        (create_index (lit "idx_tasks_status_next") (lit "status" ∷ lit "next_run_at" ∷ [])) _
        (create_index-Keeps cs (lit "idx_tasks_status_next") (lit "status" ∷ lit "next_run_at" ∷ [])
          refl)
        tabled in
    let second =
      exec-IsOld cs (create_index (lit "idx_tasks_type") (lit "type" ∷ [])) _
        (create_index-Keeps cs (lit "idx_tasks_type") (lit "type" ∷ []) refl) first in
    ensure-Failed cs (lit "parent_id") _
      (ensure-Failed cs (lit "enabled") _ (parent_fails cs _ absent second))

-- A database that has the two added columns and the three indexes is opened unchanged, if the
-- database answers; so migrate can be run at every start.
pub migrate_ready :
    (cs : List Text) (s : Schema)
    → s.columns ≡ some cs
    → contains (lit "parent_id") cs ≡ true
    → contains (lit "enabled") cs ≡ true
    → contains (lit "idx_tasks_status_next") s.indexes ≡ true
    → contains (lit "idx_tasks_type") s.indexes ≡ true
    → contains (lit "idx_tasks_parent_id") s.indexes ≡ true
    → migrate [] s ≡ (true, [], s)
unfolding migrate
migrate_ready cs s same parent enabled status type_ parent_idx =
    rw (same, status, type_, parent_idx, enabled, parent) refl
