-- ===== src/Server/Gate/Chain.antt =====
-- internal/server/server.go: what the middleware adds to the handlers.
use worker_lightweight.Base.{
  ◌≡◌, refl, ℕ, Bool, true, false, not, ◌&&◌, List, [], Option, Text, ◌==◌, text_eq, if◌then◌else◌,
  Bool-cases, inl, inr,
}
use worker_lightweight.Model.{Task}
use worker_lightweight.Server.Types.{Request, Response, State}
use worker_lightweight.Server.Auth.{Handler, check_token, client_ip, auth}
use worker_lightweight.Server.Limiter.{RateLimiter}
use worker_lightweight.Server.Limiter.Floats.{Float}
use worker_lightweight.Server.Audit.{entry_of, append_entry}
use worker_lightweight.Server.Routes.{World, Route, handler_of, rate_limit, serve}
use worker_lightweight.Server.Gate.{
  Service, handled, asked, rate_limit_middleware, auth_middleware, audit_middleware, is_audited,
  audited, mounted,
}

module _ {ℓ} {F : Type ℓ} ⦃fl : Float F⦄ (h : Handler) (c : Bool) (ts : Text) (now : ℕ)
    (r : Request) (v : Service F) where
  -- What the rate limiter says to the request.
  abbrev pub let_in : Bool
  let_in = (asked (client_ip r) now v.limiter).0

  -- Whether the request gets as far as its handler.
  abbrev pub is_served : Bool
  is_served = let_in && not (not (v.state.token == []) && not (check_token v.state.token r))

  -- The answer of the middleware and of the plain handler, where `c` says whether there is an audit.
  abbrev pub Same : Response × Service F → Response × State → Type 0
  Same a b =
      (a.0 ≡ b.0)
      × (a.1.state ≡ b.1)
      × (a.1.audit ≡ (if is_served && c then append_entry (entry_of ts r b.0) v.audit else v.audit))

  audited-handled :
      (b : Bool) (limiter : Option (RateLimiter F))
      → let a = audited b ts (handled h) r (record v { limiter = limiter }) in
        (a.0 ≡ (h r v.state).0)
        × (a.1.state ≡ (h r v.state).1)
        × (a.1.audit
            ≡ (if b then append_entry (entry_of ts r (h r v.state).0) v.audit else v.audit))
  unfolding audit_middleware
  audited-handled true limiter = (refl, refl, refl)
  audited-handled false limiter = (refl, refl, refl)

  chain-Same :
      (b : Bool)
      → b ≡ let_in
      → Same
          (rate_limit_middleware now (auth_middleware (audited c ts (handled h))) r v)
          (rate_limit b (auth h) r v.state)
  unfolding rate_limit_middleware auth_middleware rate_limit auth
  chain-Same b told = elim (Bool-cases let_in) [
    | inr e ↦ rw (told, e) (refl, refl, refl)
    | inl e ↦ elim (Bool-cases (not (v.state.token == []) && not (check_token v.state.token r))) [
      | inl f ↦ rw (told, e, f) (refl, refl, refl)
      | inr f ↦ rw (told, e, f) (audited-handled c _)
    ]
  ]

-- Where the route is given the limiter's answer, the whole chain answers and changes the server's
-- state as the route does; and the audit log, where there is one, gets exactly one entry, with the
-- status of the answer, if the route is audited and the request gets as far as its handler, and none
-- otherwise.
pub mounted-Same {ℓ} :
    {F : Type ℓ} ⦃fl : Float F⦄ (oldest : List Task → Option Task) (like : Text → Text → Bool)
    (cron_parses : Text → Bool) (format : ℕ → Text) (route : Route) (w : World) (r : Request)
    (v : Service F)
    → w.allowed
      ≡ let_in
          (handler_of oldest like cron_parses route w)
          (is_audited route)
          (format w.now)
          w.now
          r
          v
    → Same
        (handler_of oldest like cron_parses route w)
        (is_audited route)
        (format w.now)
        w.now
        r
        v
        (mounted oldest like cron_parses format route w r v)
        (serve oldest like cron_parses route w r v.state)
unfolding mounted serve
mounted-Same oldest like cron_parses format route w r v told =
    chain-Same (handler_of oldest like cron_parses route w) (is_audited route) (format w.now) w.now
      r v w.allowed told
