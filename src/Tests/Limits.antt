-- ===== src/Tests/Limits.antt =====
-- internal/server/server.go: the theorems on the rate limiter and the middleware, over whole tokens.
use worker_lightweight.Base.{
  ◌≡◌, refl, ℕ, zero, suc, ◌+◌, ◌-◌, ◌*◌, ◌/◌, ◌≤◌, true, List, [], ◌∷◌, none, some, pos, pos_part,
  Text, lit, ltb, text_eq, if◌then◌else◌, arith,
}
use worker_lightweight.Server.Limiter.Floats.{Float, ◌≼◌, one, minute, IsRounding, IsExact}
use worker_lightweight.Server.Limiter.{RateLimiter, allow, cleanup, new_rate_limiter}
use worker_lightweight.Server.Limiter.Buckets.{IsFair, Event, request, sweep, run, run-IsFair}
use worker_lightweight.Server.Limiter.Cleanup.{allow-cleanup}
use worker_lightweight.Server.Limiter.Bursts.{passed, passed-burst}
use worker_lightweight.Server.Routes.{World, all_tasks, serve, handler_of}
use worker_lightweight.Server.Gate.{Service, mounted}
use worker_lightweight.Server.Gate.Chain.{Same, mounted-Same}
use worker_lightweight.Tests.Data.{table, like_all}
use worker_lightweight.Tests.Oldest.{oldest_row}
use worker_lightweight.Tests.Services.{some_crons, pull_request, server, format}

-- Only whole minutes count, and there are no fractions.
instance abbrev pub whole : Float ℕ
whole = record {
  of_int = pos_part;
  minutes = λ d. d / minute;
  add = λ x y. x + y;
  sub = λ x y. x - y;
  mul = λ x y. x * y;
  lt = ltb;
}

grows : (x y : ℕ) → one ≼ x → y ≼ x * y
grows zero y h = cc h
grows (suc k) y h = let e : suc k * y ≡ y + k * y = omega arith in ground arith

a_minute : (d : ℕ) → minute ≤ d → one ≼ (d / minute)
a_minute d h = let e : 1 ≤ d / minute = omega arith in ground arith

whole-IsRounding : IsRounding ℕ
whole-IsRounding = record {
  int_nonneg = λ n. ground arith;
  le_refl = λ x. ground arith;
  le_trans = λ x y z h k. ground arith;
  le_antisym = λ x y h k. ground arith;
  le_of_lt = λ x y h. ground arith;
  minutes_mono = a_minute;
  minutes_nonneg = λ d. ground arith;
  mul_nonneg = λ x y h k. ground arith;
  mul_grows = λ x y h k. grows x y h;
  add_nonneg = λ x y h. ground arith;
  sub_nonneg = λ x h. ground arith;
  sub_le = λ x. ground arith;
}

whole-IsExact : IsExact ℕ
whole-IsExact = record {
  no_time = λ x y. omega arith;
  sub_one = λ n h. omega arith;
  lt_int = λ m n h k. refl;
}

abbrev client : Text
client = lit "10.0.0.1"

abbrev a_day : List Event
a_day = request client 5 ∷ request client 6 ∷ sweep 100 50 ∷ request client 200 ∷ []

day-IsFair : IsFair {F = ℕ} (run a_day (new_rate_limiter (pos 3)))
day-IsFair = run-IsFair whole-IsRounding a_day 3

abbrev asked_once : RateLimiter ℕ
asked_once = run (request client 5 ∷ []) (new_rate_limiter (pos 3))

asked_once-IsFair : IsFair asked_once
asked_once-IsFair = run-IsFair whole-IsRounding (request client 5 ∷ []) 3

cleanup_unseen :
    ((allow client (3 * minute) (cleanup (2 * minute) minute asked_once)).0
      ≡ (allow client (3 * minute) asked_once).0)
    × ((allow client (3 * minute) (cleanup (2 * minute) minute asked_once)).1.buckets client
        ≡ (allow client (3 * minute) asked_once).1.buckets client)
cleanup_unseen =
    allow-cleanup whole-IsRounding client (2 * minute) minute (3 * minute) asked_once
      asked_once-IsFair (omega arith) (omega arith)

three_of_five : passed 5 client 7 (new_rate_limiter {F = ℕ} (pos 3)) ≡ (if ltb 5 3 then 5 else 3)
three_of_five = passed-burst whole-IsExact client 7 3 (omega arith) 5

abbrev service : Service ℕ
service = record { state = server table; limiter = none; audit = some [] }

abbrev open_world : World
open_world = record { faults = []; now = 80; now' = 81; allowed = true }

answers_audited :
    Same
      (handler_of oldest_row like_all some_crons all_tasks open_world)
      true
      (lit "now")
      80
      pull_request
      service
      (mounted oldest_row like_all some_crons format all_tasks open_world pull_request service)
      (serve oldest_row like_all some_crons all_tasks open_world pull_request (server table))
answers_audited =
    mounted-Same oldest_row like_all some_crons format all_tasks open_world pull_request service
      refl
