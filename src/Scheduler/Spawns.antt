-- ===== src/Scheduler/Spawns.antt =====
-- internal/server/scheduler.go: what one spawn leaves behind.
use worker_lightweight.Base.{
  ◌≡◌, ◌≢◌, refl, ℕ, suc, ◌≤◌, Bool, true, false, [], ◌∷◌, ◌++◌, Text, none, some, arith, text_eq,
  ℤ, pos,
}
use worker_lightweight.Model.{Task, once, pending}
use worker_lightweight.Store.Db.{Db, Faults}
use worker_lightweight.Store.Tasks.{create}
use worker_lightweight.Lock.{Locks, Entry, acquire, acquire_at, release}
use worker_lightweight.Lock.Leases.{release_own}
use worker_lightweight.Scheduler.{lock_key, lock_ttl, Spawned, Times, spawn, spawn_held}

-- The row that a tick of the definition `d` is to leave: a child that waits from `now` on, with what
-- it has of the definition written out.
abbrev pub child_row : Task → Text → ℤ → ℕ → Task
child_row d token id now = record {
  id = id;
  name = d.name ++ b'#' ∷ token;
  command = d.command;
  type = once;
  cron_expr = [];
  status = pending;
  max_retry = d.max_retry;
  retry_count = pos 0;
  timeout_sec = d.timeout_sec;
  worker_id = [];
  parent_id = d.id;
  enabled = true;
  result = [];
  created_at = now;
  updated_at = now;
  next_run_at = now;
}

-- The table with one more child of `d`.
abbrev pub with_child : Task → Text → ℕ → Db → Db
with_child d token now db = record {
  tasks = db.tasks ++ child_row d token (pos (suc db.last_id)) now ∷ [];
  last_id = suc db.last_id;
}

acquire_free :
    (k token : Text) (ttl now : ℕ) (m : Locks) → m k ≡ none → (acquire k token ttl now m).0 ≡ true
unfolding acquire
acquire_free k token ttl now m e = rw (e, acquire_at)

acquire_refused :
    (k token : Text) (ttl now : ℕ) (m : Locks) (e : Entry)
    → m k ≡ some e
    → e.token ≢ token
    → now ≤ e.exp
    → acquire k token ttl now m ≡ (false, m)
unfolding acquire
acquire_refused k token ttl now m e found other lasts =
    rw (found, acquire_at) (ground (arith, text_eq.beq_iff e.token token))

module _ (format : ℕ → Text) (d : Task) (ts : Times) (s : Spawned) where
  abbrev token : Text
  token = format ts.for_token

  -- With its lock free and the database answering, a spawn adds exactly one row at the end of the
  -- table, with the next id: a pending one-shot child that is due from the time of its insertion on,
  -- that no worker owns and that was never tried, has the definition's id as parent and its command,
  -- retry limit and timeout, and is named after it and the token; and the definition's lock can be
  -- had again by anybody at once.
  pub spawn_free :
      s.locks (lock_key d) ≡ none
      → ((spawn format d ts [] s).db ≡ with_child d token ts.at_create s.db)
        × ((b : Text) (ttl now : ℕ)
            → (acquire (lock_key d) b ttl now (spawn format d ts [] s).locks).0 ≡ true)
  unfolding spawn create
  spawn_free free = go (acquire (lock_key d) token lock_ttl ts.at_lock s.locks) won released
    where
      won : (acquire (lock_key d) token lock_ttl ts.at_lock s.locks).0 ≡ true
      won = acquire_free (lock_key d) token lock_ttl ts.at_lock s.locks free

      released :
          (b : Text) (ttl now : ℕ)
          → (acquire (lock_key d) b ttl now (
              release
                (lock_key d)
                token
                (acquire (lock_key d) token lock_ttl ts.at_lock s.locks).1)).0
            ≡ true
      released b ttl now =
          (release_own (lock_key d) token b lock_ttl ttl ts.at_lock now s.locks won)

      go :
          (r : Bool × Locks)
          → r.0 ≡ true
          → ((b : Text) (ttl now : ℕ)
              → (acquire (lock_key d) b ttl now (release (lock_key d) token r.1)).0 ≡ true)
          → ((spawn_held format d token ts.at_create [] s.db r).db
              ≡ with_child d token ts.at_create s.db)
            × ((b : Text) (ttl now : ℕ)
                → (acquire
                    (lock_key d)
                    b
                    ttl
                    now
                    (spawn_held format d token ts.at_create [] s.db r).locks).0
                  ≡ true)
      go (true, m) h free = (refl, free)
      go (false, m) h free = cc

  -- While somebody else's lease lasts, a spawn does nothing.
  pub spawn_held_off :
      (e : Entry)
      → s.locks (lock_key d) ≡ some e
      → e.token ≢ token
      → ts.at_lock ≤ e.exp
      → (fs : Faults) → spawn format d ts fs s ≡ s
  unfolding spawn
  spawn_held_off e found other lasts fs =
      rw (acquire_refused (lock_key d) token lock_ttl ts.at_lock s.locks e found other lasts)
