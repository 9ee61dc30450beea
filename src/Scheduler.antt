-- ===== src/Scheduler.antt =====
-- internal/server/scheduler.go: resync and spawn. The cron library is a parameter: which expressions
-- it accepts. Its entries are the definitions whose callback is registered.
pub mod Spawns
pub mod Entries
pub mod Pauses
use worker_lightweight.Base.{
  ℕ, ◌+◌, ◌*◌, ◌^◌, Bool, true, false, List, [], ◌∷◌, ◌++◌, ℤ, pos, Text, lit, Option,
  if◌then◌else◌,
}
use worker_lightweight.Model.{Task, once, pending}
use worker_lightweight.Store.Db.{Db, Faults, Outcome, ok, err}
use worker_lightweight.Store.Tasks.{create}
use worker_lightweight.Store.Control.{list_cron}
use worker_lightweight.Lock.{Locks, acquire, release}

abbrev pub lock_key : Task → Text
lock_key d = lit "cron:" ++ d.name

abbrev pub lock_ttl : ℕ
lock_ttl = 30 * 10 ^ 9

-- The child that spawn builds; the columns that it does not set are zero.
abbrev pub child_of : Task → Text → Task
child_of d token = record {
  id = pos 0;
  name = d.name ++ (lit "#" ++ token);
  command = d.command;
  type = once;
  cron_expr = [];
  status = pending;
  max_retry = d.max_retry;
  retry_count = pos 0;
  timeout_sec = d.timeout_sec;
  worker_id = [];
  parent_id = d.id;
  enabled = false;
  result = [];
  created_at = 0;
  updated_at = 0;
  next_run_at = 0;
}

pub record Spawned : Type 0 where
  pub locks : Locks
  pub db : Db

-- The times that one spawn reads: for the token, in Acquire and in Create.
pub record Times : Type 0 where
  pub for_token : ℕ
  pub at_lock : ℕ
  pub at_create : ℕ

-- `time.Now().Format("2006-01-02 15:04:05.000")`.
module _ (format : ℕ → Text) where
  -- The rest of spawn, once Acquire has answered; the deferred Release runs on every path.
  abbrev pub spawn_held : Task → Text → ℕ → Faults → Db → Bool × Locks → Spawned
  spawn_held d token now fs db (false, locks) = record { locks = locks; db = db }
  spawn_held d token now fs db (true, locks) = record {
    locks = release (lock_key d) token locks;
    db = (create (child_of d token) now fs db).2;
  }

  unfoldable pub spawn : Task → Times → Faults → Spawned → Spawned
  spawn d ts fs s =
      let token = format ts.for_token in
      spawn_held d token ts.at_create fs s.db
        (acquire (lock_key d) token lock_ttl ts.at_lock s.locks)

-- The loop that adds a callback for each definition, and logs the expressions that are refused.
unfoldable pub add_all : (Text → Bool) → List Task → List Task → List Task
add_all cron_parses [] entries = entries
add_all cron_parses (d ∷ ds) entries =
    add_all cron_parses ds (if cron_parses d.cron_expr then entries ++ d ∷ [] else entries)

-- The loop that removes every entry.
unfoldable pub remove_all : List Task → List Task
remove_all [] = []
remove_all (e ∷ es) = remove_all es

abbrev pub rebuilt : (Text → Bool) → List Task → Outcome (List Task) → List Task
rebuilt cron_parses entries (err e) = entries
rebuilt cron_parses entries (ok defs) = add_all cron_parses defs (remove_all entries)

-- The entries after a resync.
unfoldable pub resync : (Text → Bool) → Faults → Db → List Task → List Task
unfolding add_all remove_all
resync cron_parses fs db entries = rebuilt cron_parses entries (list_cron fs db).0

-- The loop of Start: its cron entries and whether a signal is in resyncSig, which has one place.
pub record Loop : Type 0 where
  pub entries : List Task
  pub resync_sig : Bool

-- A full channel drops the signal.
unfoldable pub resync_now : Loop → Loop
resync_now l = record l { resync_sig = true }

-- What a round of the loop waits for.
pub data Wake : Type 0 where
  ticked : Wake
  signalled : Wake

-- A round; without a signal in the channel that case does not come up.
unfoldable pub round : (Text → Bool) → Wake → Faults → Db → Loop → Loop
unfolding resync
round cron_parses ticked fs db l = record l { entries = resync cron_parses fs db l.entries }
round cron_parses signalled fs db l =
    if l.resync_sig
    then record { entries = resync cron_parses fs db l.entries; resync_sig = false }
    else l
