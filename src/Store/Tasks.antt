-- ===== src/Store/Tasks.antt =====
-- internal/store/store.go: Create, Get, Delete.
pub mod Effects
use worker_lightweight.Base.{ℕ, true, not, ℤ, find, ◌==◌, nat_eq, int_eq, if◌then◌else◌}
use worker_lightweight.Model.{Task}
use worker_lightweight.Store.Db.{M, not_found, ◌>>=◌, pure, or_fail, insert, query, delete_rows}

-- What Create sets in the task that it is given, `now` being the one time.Now() that it calls.
abbrev pub stamped : Task → ℕ → Task
stamped t now = record t {
  created_at = now;
  updated_at = now;
  next_run_at = if t.next_run_at == 0 then now else t.next_run_at;
  enabled = true;
}

unfoldable pub create : Task → ℕ → M Task
unfolding insert
create t now = do id ← insert (stamped t now); pure (record (stamped t now) { id = id })

unfoldable pub delete : ℤ → M (Unit {0})
unfolding delete_rows
delete id = delete_rows (λ t. not (t.id == id))

unfoldable pub get : ℤ → M Task
unfolding query
get id = do row ← query (find (λ t. t.id == id)); or_fail row not_found
