-- ===== src/Tests/Services.antt =====
-- internal/server, internal/lock: the theorems on the API, the lock and the cron scheduler.
use native.Mathlib.Omega.{arith}
use worker_lightweight.Base.{
  ◌≡◌, ◌≢◌, refl, ℕ, ◌+◌, Bool, true, false, [], ◌∷◌, none, pos, Text, lit, ◌==◌, int_eq, text_eq,
  ◌⊎◌, inr, text_beq, if◌then◌else◌,
}
use worker_lightweight.Store.Db.{Db}
use worker_lightweight.Server.Types.{Request, State, post}
use worker_lightweight.Server.Auth.{auth, auth_lem, Presents, by_x_token, write_err, Handler}
use worker_lightweight.Server.Pulls.{handle_workers}
use worker_lightweight.Lock.{Locks, Entry, acquire, lease}
use worker_lightweight.Lock.Race.{Turns, two_winners, called, won}
use worker_lightweight.Scheduler.{Spawned, Times, spawn, lock_key}
use worker_lightweight.Scheduler.Spawns.{with_child, spawn_free}
use worker_lightweight.Scheduler.{Loop, signalled, resync_now, round}
use worker_lightweight.Scheduler.Pauses.{entries_of, paused_unscheduled}
use worker_lightweight.Store.Rules.{Ensures}
use worker_lightweight.Store.Control.{set_enabled}
use worker_lightweight.Store.Control.Effects.{Refused}
use worker_lightweight.Tests.Data.{table, nightly, like_all}
use worker_lightweight.Tests.Oldest.{oldest_row}
use worker_lightweight.Server.Routes.{World, one_task, serve}
use worker_lightweight.Server.Actions.{pauses, serve-wish}
use worker_lightweight.Server.Page.Html.{number_text}

-- A cron library that accepts the expressions that are not empty.
abbrev pub some_crons : Text → Bool
some_crons [] = false
some_crons (c ∷ s) = true

abbrev query_of : Text → Text → Text → Text
query_of key value k = if k == key then value else []

abbrev pub pull_request : Request
pull_request = record {
  method = post;
  path = lit "/pull";
  query = query_of (lit "worker_id") (lit "w1");
  raw_query = lit "worker_id=w1";
  header = query_of (lit "X-Token") (lit "secret");
  remote_addr = lit "10.0.0.1:5000";
  remote_host = lit "10.0.0.1";
  create_body = none;
  result_body = none;
  worker_body = none;
}

abbrev pub server : Db → State
server db = record { token = lit "secret"; db = db; registry = []; resync_pending = false }

abbrev workers_at : Handler
workers_at r s = handle_workers r 100 s

configured : (server table).token ≢ []
configured e = cc e

asks_with_token :
    (Presents (lit "secret") pull_request
      × (auth workers_at pull_request (server table) ≡ workers_at pull_request (server table)))
    ⊎ (¬ Presents (lit "secret") pull_request
        × (auth workers_at pull_request (server table)
            ≡ (write_err 401 (lit "unauthorized: missing or invalid token"), server table)))
asks_with_token = auth_lem workers_at pull_request (server table) configured

abbrev no_locks : Locks
no_locks k = none

abbrev old_lease : Entry
old_lease = lease (lit "c") 50

both_win :
    Turns
      (lit "a")
      (lit "b")
      30
      60
      (record { entry = old_lease; first = called; second = called })
      (record { entry = lease (lit "b") (60 + 30); first = won; second = won })
both_win = two_winners (lit "a") (lit "b") 30 60 old_lease (omega arith)

abbrev pub format : ℕ → Text
format n = lit "now"

abbrev times : Times
times = record { for_token = 70; at_lock = 71; at_create = 72 }

abbrev idle : Spawned
idle = record { locks = no_locks; db = table }

spawns_child :
    ((spawn format nightly times [] idle).db ≡ with_child nightly (lit "now") 72 table)
    × ((b : Text) (ttl now : ℕ)
        → (acquire (lock_key nightly) b ttl now (spawn format nightly times [] idle).locks).0
          ≡ true)
spawns_child = spawn_free format nightly times idle refl

abbrev loop : Loop
loop = record { entries = nightly ∷ []; resync_sig = false }

nightly_unscheduled :
    Ensures
      (set_enabled (pos 2) false 40 41)
      (λ _ db'. entries_of (pos 2) (round some_crons signalled [] db' (resync_now loop)) ≡ [])
      (Refused table (λ t. t.id == pos 2))
      table
nightly_unscheduled = paused_unscheduled some_crons (pos 2) 40 41 signalled loop table

abbrev pause_request : Request
pause_request = record pull_request { path = lit "/api/tasks/2/pause" }

abbrev open_world : World
open_world = record { faults = []; now = 40; now' = 41; allowed = true }

presented : Presents (lit "secret") pause_request
unfolding text_beq
presented = by_x_token (λ rest e. cc e) refl

pauses_nightly :
    (serve oldest_row like_all some_crons one_task open_world pause_request (server table)).1.db
    ≡ (set_enabled (pos 2) false 40 41 [] table).2
unfolding number_text
pauses_nightly =
    serve-wish (pos 2) (omega arith) (omega arith) open_world (server table) oldest_row like_all
      some_crons pauses pause_request refl refl refl (inr presented)
