-- ===== src/Exchange/Arrivals.antt =====
-- internal/worker/pool.go and internal/server/server.go: what a request of a worker does.
use worker_lightweight.Base.{
  ◌≡◌, ◌≢◌, refl, Bool, true, List, [], ◌++◌, Option, some, Text, lit, ◌==◌, text_eq, beq_self,
  ne→beq, beq-ne, Bool-cases, inl, inr, after_prefix,
}
use worker_lightweight.Model.{Task, Result, PullResponse}
use worker_lightweight.Store.Report.{report_result}
use worker_lightweight.Store.Claim.{claim_pending}
use worker_lightweight.Server.Types.{Request, State, Payload, done}
use worker_lightweight.Server.Auth.{Handler, auth, check_token, given_token}
use worker_lightweight.Server.Handlers.{write_json, with_db}
use worker_lightweight.Server.Registry.{heartbeat}
use worker_lightweight.Server.Pulls.{
  answer_report, after_claim, pull, handle_result, worker_heartbeat,
}
use worker_lightweight.Server.Routes.{World, pulls, results, heartbeats, handler_of, serve}
use worker_lightweight.Worker.Active.{Active}
use worker_lightweight.Worker.Client.{
  Sent, Client, set_header, set_auth, fetch_request, report_request, heartbeat_request, no_header,
  pool_info,
}
use worker_lightweight.Exchange.{IsHttp, all_of, is_visible, is_ascii, is_address, is_unreserved}

-- A worker that is configured for the server: the texts of its configuration need no escapes.
pub record IsClientOf (c : Client) (token : Text) : Type 0 where
  pub same_token : c.token ≡ token
  pub visible : all_of is_visible token ≡ true
  pub address : all_of is_address c.server_addr ≡ true
  pub named : c.config.id ≢ []
  pub plain_id : all_of is_unreserved c.config.id ≡ true
  pub ascii_id : all_of is_ascii c.config.id ≡ true

after_bearer : (token : Text) → after_prefix (lit "Bearer ") (lit "Bearer " ++ token) ≡ some token
unfolding after_prefix
after_bearer token = refl

module _ (deliver : Sent → Request) (decode : Payload → Option PullResponse)
    (http : IsHttp deliver decode) where
  -- The token that the server finds in the request.
  given-deliver :
      (c : Client) (q : Sent) (header : Text → Text) (token : Text)
      → IsClientOf c token
      → token ≢ []
      → q.header ≡ set_auth c header
      → given_token (deliver q) ≡ token
  unfolding given_token set_auth set_header
  given-deliver c q header token k filled e =
      let sent : q.header (lit "Authorization") ≡ lit "Bearer " ++ token =
        rw (e, k.same_token, ne→beq token [] filled) refl in
      rw (http.bearer q token k.visible filled sent) refl

  -- With the right token, a request passes authMiddleware.
  auth-deliver :
      (handler : Handler) (c : Client) (q : Sent) (header : Text → Text) (s : State)
      → IsClientOf c s.token
      → q.header ≡ set_auth c header
      → auth handler (deliver q) s ≡ handler (deliver q) s
  unfolding auth check_token
  auth-deliver handler c q header s k e = elim (Bool-cases (s.token == [])) [
    | inl off ↦ rw off refl
    | inr on ↦
        let given = given-deliver c q header s.token k (beq-ne s.token [] on) e in
        rw (given, on, beq_self s.token) refl
  ]

  module _ (oldest : List Task → Option Task) (like : Text → Text → Bool)
      (cron_parses : Text → Bool) (w : World) (c : Client) (s : State) where
    -- A report of a worker that is configured for the server, and that the limiter lets in, is carried
    -- out as ReportResult under just the data that the worker sent, whatever faults the database meets.
    pub report_arrives :
        (r : Result)
        → w.allowed ≡ true
        → IsClientOf c s.token
        → r.worker_id ≡ c.config.id
        → all_of is_ascii r.output ≡ true
        → let o = report_result r w.now w.faults s.db in
          serve oldest like cron_parses results w (deliver (report_request c r)) s
          ≡ (answer_report o.0, with_db s o.2)
    unfolding serve handle_result report_request
    report_arrives r allowed k own ascii =
        let q = report_request c r in
        let got = http.result_body q r refl (rw own k.ascii_id) ascii in
        rw
          (
            allowed,
            auth-deliver (handler_of oldest like cron_parses results w) c q _ s k refl,
            http.method q,
            got,
          )
          refl

    pub fetch_arrives :
        w.allowed ≡ true
        → IsClientOf c s.token
        → let o = claim_pending oldest c.config.id w.now w.now' w.faults s.db in
          serve oldest like cron_parses pulls w (deliver (fetch_request c)) s
          ≡ (after_claim c.config.id o, with_db s o.2)
    unfolding serve pull fetch_request
    fetch_arrives allowed k =
        let q = fetch_request c in
        let worker = http.worker_id q c.server_addr c.config.id k.address k.plain_id refl in
        rw
          (
            allowed,
            auth-deliver (handler_of oldest like cron_parses pulls w) c q no_header s k refl,
            http.method q,
            worker,
            ne→beq c.config.id [] k.named,
          )
          refl

    -- A heartbeat of such a worker puts its pool's size and its tasks in flight into the registry.
    pub heartbeat_arrives :
        (active : Active)
        → w.allowed ≡ true
        → IsClientOf c s.token
        → serve oldest like cron_parses heartbeats w (deliver (heartbeat_request c active)) s ≡ (
          write_json 200 done,
          record s { registry = heartbeat (pool_info c active) w.now s.registry },
        )
    unfolding serve worker_heartbeat heartbeat_request
    heartbeat_arrives active allowed k =
        let q = heartbeat_request c active in
        let got = http.worker_body q (pool_info c active) refl k.ascii_id in
        rw
          (
            allowed,
            auth-deliver (handler_of oldest like cron_parses heartbeats w) c q _ s k refl,
            http.method q,
            got,
            ne→beq c.config.id [] k.named,
          )
          refl
