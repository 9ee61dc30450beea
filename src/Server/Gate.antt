-- ===== src/Server/Gate.antt =====
-- internal/server/server.go: register, with the whole chain of middleware around each route.
pub mod Chain
pub mod Refusals
use worker_lightweight.Base.{
  ℕ, Bool, true, false, not, ◌&&◌, List, [], Option, none, some, Text, lit, ◌==◌, text_eq,
  if◌then◌else◌,
}
use worker_lightweight.Model.{Task}
use worker_lightweight.Server.Types.{Request, Response, State}
use worker_lightweight.Server.Auth.{Handler, write_err, check_token, client_ip}
use worker_lightweight.Server.Limiter.{RateLimiter, allow}
use worker_lightweight.Server.Limiter.Floats.{Float}
use worker_lightweight.Server.Audit.{AuditLog, entry_of, append_entry}
use worker_lightweight.Server.Routes.{
  World, Route, all_tasks, one_task, pulls, results, heartbeats, live_workers, handler_of,
}

-- The server's state, its rate limiter, if one is configured, and its audit log.
pub record Service {ℓ} (F : Type ℓ) : Type ℓ where
  pub state : State
  pub limiter : Option (RateLimiter F)
  pub audit : AuditLog

abbrev pub Chain {ℓ} : Type ℓ → Type ℓ
Chain F = Request → Service F → Response × Service F

-- Heartbeats and the list of workers are not audited.
abbrev pub is_audited : Route → Bool
is_audited all_tasks = true
is_audited one_task = true
is_audited pulls = true
is_audited results = true
is_audited heartbeats = false
is_audited live_workers = false

module _ {ℓ} {F : Type ℓ} where
  abbrev pub handled : Handler → Chain F
  handled h r v = let a = h r v.state in (a.0, record v { state = a.1 })

  unfoldable pub auth_middleware : Chain F → Chain F
  unfolding check_token
  auth_middleware next r v =
      if not (v.state.token == []) && not (check_token v.state.token r)
      then (write_err 401 (lit "unauthorized: missing or invalid token"), v)
      else next r v

  unfoldable pub audit_middleware : Text → Chain F → Chain F
  unfolding entry_of
  audit_middleware ts next r v =
      let a = next r v in (a.0, record a.1 { audit = append_entry (entry_of ts r a.0) a.1.audit })

  abbrev pub audited : Bool → Text → Chain F → Chain F
  audited true ts next = audit_middleware ts next
  audited false ts next = next

module _ {ℓ} {F : Type ℓ} ⦃fl : Float F⦄ where
  abbrev pub asked : Text → ℕ → Option (RateLimiter F) → Bool × Option (RateLimiter F)
  asked key now none = (true, none)
  asked key now (some rl) = let a = allow key now rl in (a.0, some a.1)

  unfoldable pub rate_limit_middleware : ℕ → Chain F → Chain F
  unfolding client_ip
  rate_limit_middleware now next r v =
      let a = asked (client_ip r) now v.limiter in
      let v' = record v { limiter = a.1 } in
      if a.0 then next r v' else (write_err 429 (lit "rate limit exceeded"), v')

  module _ (oldest : List Task → Option Task) (like : Text → Text → Bool)
      (cron_parses : Text → Bool) (format : ℕ → Text) where
    -- What register mounts at a route.
    unfoldable pub mounted : Route → World → Chain F
    unfolding rate_limit_middleware auth_middleware audit_middleware
    mounted route w = rate_limit_middleware w.now (
        auth_middleware (
          audited (is_audited route) (format w.now)
            (handled (handler_of oldest like cron_parses route w))))
