-- ===== src/Worker/Pool.antt =====
-- internal/worker/pool.go: NewPool, and the goroutines of Start with fetch and runTask.
pub mod Inventory
pub mod Orphans
use worker_lightweight.Base.{
  ◌≡◌, ℕ, suc, ◌+◌, ◌*◌, ◌^◌, ◌<◌, Bool, true, false, ◌⊎◌, List, [], ◌∷◌, ◌++◌, Option, none, some,
  ℤ, pos, pos_part, ltb_ℤ, Text, length, ◌==◌, nat_eq, text_eq, int_eq, text_beq, if◌then◌else◌,
}
use worker_lightweight.Model.{Task}
use worker_lightweight.Worker.{Config, Filter}
use worker_lightweight.Worker.Active.{Active, register_active, unregister_active, cancel_all}

-- The part of Config that NewPool reads; http_timeout is a Duration.
pub record Settings : Type 0 where
  pub id : Text
  pub workers : ℤ
  pub http_timeout : ℤ
  pub blocked_regex : Text
  pub allowed_regex : Text

pub record NewPool : Type 0 where
  pub config : Config
  pub workers : ℤ
  pub http_timeout : ℤ

-- regexp.Compile: none for a regular expression that does not parse.
module _ (compile : Text → Option (Text → Bool)) where
  -- No filter for an empty text; outside, none is an error.
  abbrev as_filter : Option (Text → Bool) → Option Filter
  as_filter none = none
  as_filter (some re) = some (some re)

  abbrev pub filter_of : Text → Option Filter
  filter_of regex = if regex == [] then some none else as_filter (compile regex)

  abbrev pub pool_with : Settings → Filter → Option Filter → Option NewPool
  pool_with s blocked none = none
  pool_with s blocked (some allowed) = some (record {
    config = record { id = s.id; allowed = allowed; blocked = blocked };
    workers = if ltb_ℤ s.workers (pos 1) then pos 1 else s.workers;
    http_timeout = if s.http_timeout == pos 0 then pos (10 * 10 ^ 9) else s.http_timeout;
  })

  abbrev pub pool_blocking : Settings → Option Filter → Option NewPool
  pool_blocking s none = none
  pool_blocking s (some blocked) = pool_with s blocked (filter_of s.allowed_regex)

  unfoldable pub new_pool : Settings → Option NewPool
  unfolding text_beq
  new_pool s = pool_blocking s (filter_of s.blocked_regex)

-- The pool and its goroutines: `jobs` is the channel's buffer, `idle` and `exited` count the
-- executors that wait in their select and that have returned, `starting` are the tasks of executors
-- in front of registerActive, `running` of those behind it. The last three lists are histories: what
-- fetch received from the server, what it dropped, and what runTask has finished.
pub record Pool : Type 0 where
  pub jobs : List Task
  pub idle : ℕ
  pub exited : ℕ
  pub starting : List Task
  pub running : List Task
  pub active : Active
  pub cancelled : Bool
  pub closed : Bool
  pub fetched : List Task
  pub dropped : List Task
  pub finished : List Task

abbrev pub started : ℕ → Pool
started workers = record {
  jobs = [];
  idle = workers;
  exited = 0;
  starting = [];
  running = [];
  active = [];
  cancelled = false;
  closed = false;
  fetched = [];
  dropped = [];
  finished = [];
}

-- One step of a goroutine, or the signal.
pub data Step (workers : ℕ) (s : Pool) : Pool → Type 0 where
  -- The context of main is cancelled.
  signal : Step workers s (record s { cancelled = true })
  -- fetch handles a stop list.
  stop_listed : (ids : List ℤ) → Step workers s (record s { active = (cancel_all ids s.active).1 })
  -- fetch sends the task that it received to the channel, which has 2 * workers places.
  queued :
      (t : Task)
      → s.closed ≡ false
      → length s.jobs < 2 * workers
      → Step workers s (record s { jobs = s.jobs ++ t ∷ []; fetched = t ∷ s.fetched })
  -- In the same select the context has ended: fetch returns without the task.
  dropped_at_exit :
      (t : Task)
      → s.closed ≡ false
      → s.cancelled ≡ true
      → Step workers s (record s { dropped = t ∷ s.dropped; fetched = t ∷ s.fetched })
  -- The fetcher closes the channel.
  closes : s.closed ≡ false → s.cancelled ≡ true → Step workers s (record s { closed = true })
  -- An executor takes a job, registers it, and finishes it.
  takes :
      (t : Task) (rest : List Task) (k : ℕ)
      → s.jobs ≡ t ∷ rest
      → s.idle ≡ suc k
      → Step workers s (record s { jobs = rest; idle = k; starting = t ∷ s.starting })
  registers :
      (t : Task) (before after : List Task)
      → s.starting ≡ before ++ t ∷ after
      → Step workers s (record s {
        starting = before ++ after;
        running = t ∷ s.running;
        active = register_active t.id s.active;
      })
  finishes :
      (t : Task) (before after : List Task)
      → s.running ≡ before ++ t ∷ after
      → Step workers s (record s {
        running = before ++ after;
        active = unregister_active t.id s.active;
        finished = t ∷ s.finished;
        idle = suc s.idle;
      })
  -- An executor returns: the context has ended, or the channel is closed and empty.
  returns :
      (k : ℕ)
      → s.idle ≡ suc k
      → (s.cancelled ≡ true) ⊎ ((s.closed ≡ true) × (s.jobs ≡ []))
      → Step workers s (record s { idle = k; exited = suc s.exited })

pub data Reach (workers : ℕ) : Pool → Type 0 where
  start : Reach workers (started workers)
  later : {s t : Pool} → Reach workers s → Step workers s t → Reach workers t
