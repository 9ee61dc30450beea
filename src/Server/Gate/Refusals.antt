-- ===== src/Server/Gate/Refusals.antt =====
-- internal/server/server.go: a server with a token, and clients that do not have it.
use worker_lightweight.Base.{
  ◌≡◌, ◌≢◌, refl, ◌∙◌, sym, subst, ℕ, ◌⊎◌, inl, inr, Bool, false, List, [], ◌∷◌, Option, Text,
  text_eq, ne→beq, Bool-cases, All, arith,
}
use worker_lightweight.Model.{Task}
use worker_lightweight.Store.Db.{Db}
use worker_lightweight.Server.Types.{Request, Response, State}
use worker_lightweight.Server.Auth.{check_token, client_ip, given_token}
use worker_lightweight.Server.Audit.{AuditLog}
use worker_lightweight.Server.Limiter.Floats.{Float}
use worker_lightweight.Server.Routes.{World, Route, handler_of}
use worker_lightweight.Server.Gate.{
  Service, Chain, handled, asked, rate_limit_middleware, auth_middleware, is_audited, audited,
  mounted,
}
use worker_lightweight.Server.Lifecycle.{Options, new_service}

-- A request to a route, and what it meets outside the program.
pub record Call : Type 0 where
  pub route : Route
  pub world : World
  pub request : Request

-- 401, or 429 of the rate limiter.
abbrev pub IsRefusal : Response → Type 0
IsRefusal a = (a.status ≡ 401) ⊎ (a.status ≡ 429)

refused_token : (token : Text) (r : Request) → given_token r ≢ token → check_token token r ≡ false
unfolding check_token
refused_token token r other = rw (ne→beq (given_token r) token other) (ground arith)

module _ {ℓ} {F : Type ℓ} ⦃fl : Float F⦄ where
  -- Nothing but the rate limiter is touched, and the request is refused.
  Refused : Service F → Response × Service F → Type 0
  Refused v a = (a.1.state ≡ v.state) × (a.1.audit ≡ v.audit) × IsRefusal a.0

  refuses :
      (now : ℕ) (next : Chain F) (r : Request) (v : Service F)
      → v.state.token ≢ []
      → given_token r ≢ v.state.token
      → Refused v (rate_limit_middleware now (auth_middleware next) r v)
  unfolding rate_limit_middleware auth_middleware Refused
  refuses now next r v on other =
      let checked = refused_token v.state.token r other in
      let filled = ne→beq v.state.token [] on in
      elim (Bool-cases (asked (client_ip r) now v.limiter).0) [
        | inl e ↦ rw (e, filled, checked) (refl, refl, inl refl)
        | inr e ↦ rw e (refl, refl, inr refl)
      ]

  module _ (oldest : List Task → Option Task) (like : Text → Text → Bool)
      (cron_parses : Text → Bool) (format : ℕ → Text) where
    -- Any number of calls, one after the other, with their answers.
    unfoldable pub run_calls : List Call → Service F → List Response × Service F
    run_calls [] v = ([], v)
    run_calls (k ∷ ks) v =
        let a = mounted oldest like cron_parses format k.route k.world k.request v in
        let rest = run_calls ks a.1 in (a.0 ∷ rest.0, rest.1)

    mounted_refuses :
        (k : Call) (v : Service F)
        → v.state.token ≢ []
        → given_token k.request ≢ v.state.token
        → Refused v (mounted oldest like cron_parses format k.route k.world k.request v)
    unfolding mounted
    mounted_refuses k v on other =
        refuses k.world.now
          (audited (is_audited k.route) (format k.world.now)
            (handled (handler_of oldest like cron_parses k.route k.world)))
          k.request v on other

    calls_refused :
        (ks : List Call) (v : Service F)
        → v.state.token ≢ []
        → All (λ k. given_token k.request ≢ v.state.token) ks
        → ((run_calls ks v).1.state ≡ v.state)
          × ((run_calls ks v).1.audit ≡ v.audit)
          × All IsRefusal (run_calls ks v).0
    unfolding run_calls Refused
    calls_refused [] v on others = (refl, refl, tt)
    calls_refused (k ∷ ks) v on others =
        let rest = calls_refused ks u on' others' in (rest.0 ∙ a.0, rest.1 ∙ a.1, (a.2, rest.2))
      where
        u : Service F
        u = (mounted oldest like cron_parses format k.route k.world k.request v).1

        a : Refused v (mounted oldest like cron_parses format k.route k.world k.request v)
        a = mounted_refuses k v on others.0

        on' : u.state.token ≢ []
        on' = subst (λ (t : State). t.token ≢ []) (sym a.0) on

        others' : All (λ k. given_token k.request ≢ u.state.token) ks
        others' =
            subst (λ (t : State). All (λ k. given_token k.request ≢ t.token) ks) (sym a.0) others.1

-- A server that is made with a token, and then gets any number of requests to the API of which
-- none gives that token, whatever their routes, bodies and times and whatever faults there are,
-- refuses them all and is left with the table, the registry and the audit log that it started
-- with.
pub new_service-refuses {ℓ} :
    (F : Type ℓ) ⦃fl : Float F⦄ (oldest : List Task → Option Task) (like : Text → Text → Bool)
    (cron_parses : Text → Bool) (format : ℕ → Text) (o : Options) (audit : AuditLog) (db : Db)
    (ks : List Call)
    → o.token ≢ []
    → All (λ k. given_token k.request ≢ o.token) ks
    → let v : Service F = new_service o audit db in
      let r = run_calls oldest like cron_parses format ks v in
      (r.1.state ≡ v.state) × (r.1.audit ≡ audit) × All IsRefusal r.0
unfolding new_service
new_service-refuses F oldest like cron_parses format o audit db ks on others =
    calls_refused oldest like cron_parses format ks (new_service o audit db) on others
