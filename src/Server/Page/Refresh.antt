-- ===== src/Server/Page/Refresh.antt =====
-- internal/server/ui_template.go, internal/server/ui.go and internal/server/server.go: what a page
-- that the dashboard rendered shows after refreshTable.
use worker_lightweight.Base.{
  ◌≡◌, ◌≢◌, refl, ℕ, ◌-◌, ◌^◌, Bool, [], ◌∷◌, List, Option, pos, negsuc, ◌<ℤ◌, ◌≤ℤ◌, Text, lit,
  text_beq, after_prefix, ◌==◌, text_eq, Bool-cases, inl, inr, arith, beq-ne, beq_self,
  text_beq_iff, true, none, some,
}
use worker_lightweight.Model.{Task}
use worker_lightweight.Server.Types.{Request, State, get}
use worker_lightweight.Server.Auth.{auth, auth-given, given_token, Handler}
use worker_lightweight.Server.Handlers.{page_of, page_size_of, parse_parent_id, list_page}
use worker_lightweight.Server.Routes.{World, handle_tasks}
use worker_lightweight.Server.Dashboard.Views.{UiData, shown, render_ui}
use worker_lightweight.Server.Dashboard.Agreement.{Agrees, AsksAlike, list_page-Agrees}
use worker_lightweight.Server.Page.Board.{Board, selected, tabs, load}
use worker_lightweight.Server.Page.Browse.{list_request, current_query, value_of}
use worker_lightweight.Server.Page.Script.{Browser, IsBrowser}
use worker_lightweight.Server.Page.Headers.{header_of, sent_headers_lem}
use worker_lightweight.Exchange.{all_of, is_visible}
use worker_lightweight.Server.Page.Origins.{
  parent_read, page_read, size_read, page_of-low, page_size_of-low, page_size_of-high, status_read,
  Comes, render_ui-Comes,
}
use worker_lightweight.Server.Page.Query.{
  asks_name, asks_command, asks_type, asks_worker, asks_enabled, asks_parent_id, asks_status,
  asks_page, asks_page_size,
}

-- The list request that the script sends to the page's own server, of a token that is empty or visible
-- ASCII.
abbrev pub sent_request : Browser → Request → Board → Request
sent_request js client b = record client {
  method = get;
  path = lit "/api/tasks";
  query = value_of (current_query js b);
  header = header_of b.token;
  create_body = none;
  result_body = none;
  worker_body = none;
}

module _ (js : Browser) (exact : IsBrowser js) where
  pub list_request_lem :
      (client : Request) (b : Board)
      → all_of is_visible b.token ≡ true
      → list_request js client b ≡ some (sent_request js client b)
  unfolding list_request
  list_request_lem client b plain = rw (sent_headers_lem js exact b.token plain) refl

  given_token_lem :
      (client : Request) (b : Board)
      → b.token ≢ []
      → given_token (sent_request js client b) ≡ b.token
  unfolding given_token after_prefix text_beq
  given_token_lem client b h = ground (arith, text_beq_iff b.token [])

module _ (single_line : Text → Text) where
  -- The controls of the page can hold what the request asks for: texts of one line, an option of each
  -- list, a tab, and numbers that JavaScript holds exactly or that the page keeps as text.
  pub record IsExpressible (r : Request) : Type 0 where
    pub name : single_line (r.query (lit "name")) ≡ r.query (lit "name")
    pub command : single_line (r.query (lit "command")) ≡ r.query (lit "command")
    pub worker : single_line (r.query (lit "worker")) ≡ r.query (lit "worker")
    pub type : selected (lit "once" ∷ lit "cron" ∷ []) (r.query (lit "type")) ≡ r.query (lit "type")
    pub enabled :
        selected (lit "true" ∷ lit "false" ∷ []) (r.query (lit "enabled")) ≡ r.query (lit "enabled")
    pub status : selected tabs (r.query (lit "status")) ≡ r.query (lit "status")
    pub page : page_of (r.query (lit "page")) ≤ℤ pos (2 ^ 53 - 1)
    pub parent_low : negsuc (2 ^ 63 - 1) <ℤ parse_parent_id (r.query (lit "parent_id"))
    pub parent_high : parse_parent_id (r.query (lit "parent_id")) ≤ℤ pos (2 ^ 63 - 1)

  module _ (format : ℕ → Text) (addr : Text) (like : Text → Text → Bool) where
    list_request-AsksAlike :
        (js : Browser)
        → IsBrowser js
        → (client r : Request) (s : State) (d : UiData) → IsExpressible r
        → Comes addr like format r s d
        → AsksAlike format addr like r (sent_request js client (load js single_line d))
    unfolding load
    list_request-AsksAlike js exact client r s d kept comes =
        let b = load js single_line d in
        let one = page_of-low (r.query (lit "page")) in
        let page : js.read (page_of (r.query (lit "page"))) ≡ page_of (r.query (lit "page")) =
          exact.reads (page_of (r.query (lit "page"))) (omega (arith, kept.page, one)) in
        let least = page_size_of-low (r.query (lit "page_size")) in
        let most = page_size_of-high (r.query (lit "page_size")) in
        let size : js.read (page_size_of (r.query (lit "page_size")))
            ≡ page_size_of (r.query (lit "page_size")) =
          exact.reads (page_size_of (r.query (lit "page_size"))) (omega (arith, least, most)) in
        record {
          filters =
              rw
                (
                  asks_name js b,
                  asks_command js b,
                  asks_type js b,
                  asks_worker js b,
                  asks_enabled js b,
                  asks_parent_id js b,
                  asks_status js b,
                  comes.status,
                  comes.parent,
                  comes.filter,
                  kept.name,
                  kept.command,
                  kept.worker,
                  kept.type,
                  kept.enabled,
                  status_read (r.query (lit "status")) kept.status,
                  parent_read (parse_parent_id (r.query (lit "parent_id"))) kept.parent_low
                      kept.parent_high,
                )
                refl;
          pages =
              rw (asks_page js b, comes.page, page)
                (page_read js exact (page_of (r.query (lit "page")))
                  (page_of-low (r.query (lit "page"))) (omega (arith, kept.page)));
          sizes =
              rw (asks_page_size js b, comes.size, size)
                (size_read js exact (page_size_of (r.query (lit "page_size")))
                  (page_size_of-low (r.query (lit "page_size")))
                  (page_size_of-high (r.query (lit "page_size"))));
        }

    let_through :
        (js : Browser)
        → IsBrowser js
        → (handler : Handler) (client : Request) (b : Board) (s : State) → b.token ≡ s.token
        → auth handler (sent_request js client b) s ≡ handler (sent_request js client b) s
    let_through js exact handler client b s same = elim (Bool-cases (s.token == [])) [
      | inl e ↦ unfold auth in (rw e refl)
      | inr e ↦
          let given : given_token (sent_request js client b) ≡ s.token =
            rw (← same) (given_token_lem js exact client b (rw same (beq-ne s.token [] e))) in
          rw
            (
              auth-given handler (sent_request js client b) s (beq-ne s.token [] e),
              given,
              beq_self s.token,
            )
            refl
    ]

    module _ (oldest : List Task → Option Task) (cron_parses : Text → Bool) where
      handle_tasks-list :
          (js : Browser) (client : Request) (b : Board) (w : World) (s : State)
          → handle_tasks oldest like cron_parses w (sent_request js client b) s
            ≡ list_page like (sent_request js client b) w.faults s
      unfolding handle_tasks
      handle_tasks-list js client b w s = refl

      -- For a page that the dashboard rendered for a request that the controls of the page can hold
      -- (IsExpressible), at a server whose token, if it has one, is visible ASCII, whatever faults
      -- there are: the script sends its list request; this passes the authentication with the token
      -- of the page, and the API answers it with the rows, the counts and the pages that the page
      -- shows, if the state is as it was and the same faults are met.
      pub refresh-Agrees :
          (js : Browser)
          → IsBrowser js
          → (client r : Request) (w : World) (s : State) (d : UiData) → IsExpressible r
          → all_of is_visible s.token ≡ true
          → (render_ui format addr like r w.faults w.now s).0 ≡ shown d
          → (q : Request) × (list_request js client (load js single_line d) ≡ some q)
            × Agrees format addr like
                (auth (handle_tasks oldest like cron_parses w) q s).0.payload
                (shown d)
      unfolding load
      refresh-Agrees js exact client r w s d kept plain e =
          let (entered, comes) = render_ui-Comes format addr like r w.faults w.now s d e in
          let b = load js single_line d in
          let alike = list_request-AsksAlike js exact client r s d kept comes in
          (
            sent_request js client b,
            list_request_lem js exact client b (rw comes.token plain),
            rw
                (
                  ← e,
                  let_through js exact (handle_tasks oldest like cron_parses w) client b s
                      comes.token,
                  handle_tasks-list js client b w s,
                )
                (list_page-Agrees format addr like r (sent_request js client b) w.faults w.now s
                  entered alike),
          )
