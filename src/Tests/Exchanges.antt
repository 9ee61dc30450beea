-- ===== src/Tests/Exchanges.antt =====
-- internal/worker/pool.go and internal/server/server.go: a worker and a server on a simple network.
use worker_lightweight.Base.{
  ◌≡◌, ◌≢◌, refl, ◌∙◌, ap, ℕ, suc, zero, ◌+◌, ◌≤◌, ◌*◌, ◌/◌, ◌^◌, true, false, List, [], ◌∷◌, ◌++◌,
  Option, none, some, pos, pos_part, Text, lit, text_beq, drop, nat_beq, select, ◌==◌, text_eq,
  nat_eq, if◌then◌else◌, All, arith,
}
use mathlib.Core.Option
use worker_lightweight.Model.{Task, Result, PullResponse, WorkerInfo, running}
use worker_lightweight.Model.Json.{wire, marshal_json, unmarshal_json, IsRfc3339, IsDated}
use worker_lightweight.Model.Json.RoundTrip.{unmarshal-marshal}
use worker_lightweight.Store.Tasks.{create}
use worker_lightweight.Store.Claim.{is_due}
use worker_lightweight.Store.Life.{Edits, IsNew, here, next, claim}
use worker_lightweight.Store.Life.Rows.{IsValid}
use worker_lightweight.Store.Report.{new_status, new_retry, backoff}
use worker_lightweight.Store.Life.Exhaustion.{Round, Timely, Dead, fail_all, fail_all-Dead}
use worker_lightweight.Store.Life.Attempts.{claims, resumes, claims-le}
use worker_lightweight.Server.Types.{Request, Payload, pulled, done}
use worker_lightweight.Server.Auth.{given_token}
use worker_lightweight.Server.Handlers.{write_json, with_db}
use worker_lightweight.Server.Lifecycle.{Options, new_service}
use worker_lightweight.Server.Gate.{Service}
use worker_lightweight.Server.Gate.Refusals.{Call, run_calls, IsRefusal, new_service-refuses}
use worker_lightweight.Server.Routes.{World, pulls, results, all_tasks, serve}
use worker_lightweight.Worker.{Run, exited, exec, run_task}
use worker_lightweight.Worker.Client.{
  Sent, Client, Body, nothing, outcome, snapshot, fetch_request, report_request, fetch,
}
use worker_lightweight.Exchange.{IsHttp, all_of, is_address, is_ascii}
use worker_lightweight.Exchange.Arrivals.{IsClientOf}
use worker_lightweight.Exchange.Cycle.{IsCalm, handed, reply_of, with_outcome, cycle_lem}
use worker_lightweight.Tests.Data.{table, like_all}
use worker_lightweight.Tests.Oldest.{oldest_row, oldest_row-IsOldest}
use worker_lightweight.Tests.Runs.{created, created-IsValid, waiting}
use worker_lightweight.Tests.Services.{some_crons, pull_request, server, format}
use worker_lightweight.Tests.Limits.{whole}

-- What follows the question mark of a URL.
query_text : Text → Text
query_text [] = []
query_text (c ∷ s) = let rest = query_text s in if nat_beq c b'?' then s else rest

abbrev result_in : Body → Option Result
result_in nothing = none
result_in (outcome r) = some r
result_in (snapshot w) = none

abbrev info_in : Body → Option WorkerInfo
info_in nothing = none
info_in (outcome r) = none
info_in (snapshot w) = some w

abbrev deliver : Sent → Request
deliver q = record {
  method = q.method;
  path = [];
  query = λ k. if k == lit "worker_id" then drop 10 (query_text q.url) else [];
  raw_query = [];
  header = q.header;
  remote_addr = lit "10.0.0.2:6000";
  remote_host = lit "10.0.0.2";
  create_body = none;
  result_body = result_in q.body;
  worker_body = info_in q.body;
}

abbrev decode : Payload → Option PullResponse
decode (pulled p) = some (record p { task = Option.map wire p.task })
decode _ = none

query_text-address :
    (addr s : Text) → all_of is_address addr ≡ true → query_text (addr ++ s) ≡ query_text s
unfolding query_text
query_text-address [] s a = refl
query_text-address (c ∷ addr) s a = ground (arith, query_text-address addr s)

query_text-pull :
    (id : Text) → query_text (lit "/api/pull?worker_id=" ++ id) ≡ lit "worker_id=" ++ id
unfolding query_text
query_text-pull id = refl

worker_in_url :
    (q : Sent) (addr id : Text)
    → all_of is_address addr ≡ true
    → q.url ≡ addr ++ (lit "/api/pull?worker_id=" ++ id)
    → (deliver q).query (lit "worker_id") ≡ id
unfolding text_beq
worker_in_url q addr id a e =
    ap (drop 10) (ap query_text e ∙ query_text-address addr _ a ∙ query_text-pull id)

network : IsHttp deliver decode
network = record {
  method = λ q. refl;
  bearer = λ q token v f e. e;
  worker_id = λ q addr id a u e. worker_in_url q addr id a e;
  result_body = λ q r e a b. ap result_in e;
  worker_body = λ q w e a. ap info_in e;
  pulled_body = λ p. refl;
}

abbrev client : Client
client = record {
  config = record { id = lit "w1"; allowed = none; blocked = none };
  server_addr = lit "http://10.0.0.1:8080";
  token = lit "secret";
  workers = pos 4;
  started_at = 5;
}

client-IsClientOf : IsClientOf client (lit "secret")
client-IsClientOf = record {
  same_token = refl;
  visible = refl;
  address = refl;
  named = λ e. cc e;
  plain_id = refl;
  ascii_id = refl;
}

abbrev calm : World
calm = record { faults = []; now = 60; now' = 61; allowed = true }

abbrev calm_later : World
calm_later = record { faults = []; now = 70; now' = 71; allowed = true }

calm-IsCalm : IsCalm calm
calm-IsCalm = record { let_in = refl; answers = refl }

calm_later-IsCalm : IsCalm calm_later
calm_later-IsCalm = record { let_in = refl; answers = refl }

abbrev greets : Text → Run
greets command = exited (lit "hello")

greets_ascii : all_of is_ascii (exec client.config greets waiting.command).1 ≡ true
unfolding exec
greets_ascii = refl

is_waiting : oldest_row (select (is_due 60) created.tasks) ≡ some waiting
unfolding create
is_waiting = refl

waiting_done :
    let r = reply_of client.config greets waiting in
    let s = server created in
    let p = serve oldest_row like_all some_crons pulls calm (deliver (fetch_request client)) s in
    ((fetch decode (some p.0) []).task ≡ some (handed (lit "w1") waiting))
    × (run_task client.config greets false (handed (lit "w1") waiting) ≡ some r)
    × (serve oldest_row like_all some_crons results calm_later
          (deliver (report_request client r))
          p.1
        ≡ (write_json 200 done, with_db s (with_outcome r (lit "w1") 61 70 waiting created)))
waiting_done =
    cycle_lem deliver decode network oldest_row oldest_row-IsOldest like_all some_crons client
      greets [] calm calm_later (server created) waiting client-IsClientOf created-IsValid
      is_waiting calm-IsCalm calm_later-IsCalm greets_ascii

-- A worker's clock whose texts are the seconds, in unary.
abbrev seconds : ℕ → Text
seconds zero = []
seconds (suc n) = b'1' ∷ seconds n

abbrev second_text : ℕ → Text
second_text n = seconds (n / 10 ^ 9)

read_second : Text → ℕ
read_second [] = 0
read_second (c ∷ s) = suc (read_second s)

read_second-seconds : (n : ℕ) → read_second (seconds n) ≡ n
unfolding read_second
read_second-seconds zero = refl
read_second-seconds (suc n) = ap suc (read_second-seconds n)

abbrev parse : Text → Option ℕ
parse s = some (read_second s * 10 ^ 9)

unary-IsRfc3339 : IsRfc3339 second_text parse
unary-IsRfc3339 = record { reads = λ n h. rw (read_second-seconds (n / 10 ^ 9)) refl }

waiting-IsDated : IsDated waiting
waiting-IsDated = record { created = omega arith; updated = omega arith; next_run = omega arith }

waiting_read : unmarshal_json parse (marshal_json second_text waiting) ≡ some (wire waiting)
waiting_read = unmarshal-marshal second_text parse unary-IsRfc3339 waiting waiting-IsDated

abbrev taken : Task
taken = record waiting { status = running; worker_id = lit "w1"; updated_at = 61 }

one_claim : Edits waiting taken
one_claim = next here (claim (lit "w1") 60 61 refl refl)

waiting-IsNew : IsNew waiting
waiting-IsNew = record { waits = refl; untried = refl; unowned = refl }

taken_once : claims one_claim ≤ 1 + pos_part taken.max_retry + resumes one_claim
taken_once = claims-le waiting taken one_claim waiting-IsNew (omega arith)

abbrev guarded : Options
guarded = record {
  addr = lit "127.0.0.1:8080";
  token = lit "secret";
  tls_cert = [];
  tls_key = [];
  rate_limit = pos 3;
}

abbrev stranger : Request
stranger = record pull_request { header = λ k. [] }

abbrev tries : List Call
tries =
    record { route = pulls; world = calm; request = stranger }
    ∷ record { route = all_tasks; world = calm; request = stranger }
    ∷ []

has_token : guarded.token ≢ []
has_token e = cc e

wrong : given_token stranger ≢ guarded.token
unfolding given_token
wrong e = ground arith

strangers_refused :
    let v : Service ℕ = new_service guarded (some []) table in
    let r = run_calls oldest_row like_all some_crons format tries v in
    (r.1.state ≡ v.state) × (r.1.audit ≡ some []) × All IsRefusal r.0
strangers_refused =
    new_service-refuses ℕ oldest_row like_all some_crons format guarded (some []) table tries
      has_token (wrong, (wrong, tt))

abbrev first_fail : Round
first_fail = record { worker = lit "w1"; now = 60; now' = 61; told = 70; output = [] }

abbrev second_fail : Round
second_fail = record {
  worker = lit "w2";
  now = 10 ^ 10;
  now' = 10 ^ 10;
  told = 10 ^ 10;
  output = [];
}

abbrev failing : Task
failing = record waiting { max_retry = pos 1 }

failing-IsValid : IsValid (record { tasks = failing ∷ []; last_id = 1 })
failing-IsValid = record { ascends = omega arith; given_out = omega arith }

due_again : Timely (first_fail ∷ second_fail ∷ []) failing
unfolding new_status new_retry backoff
due_again = omega arith

dies : Dead 1 1 (
    fail_all oldest_row
      (first_fail ∷ second_fail ∷ [])
      (record { tasks = failing ∷ []; last_id = 1 }))
dies =
    fail_all-Dead oldest_row oldest_row-IsOldest (first_fail ∷ second_fail ∷ []) failing 1 1 refl
      refl refl refl (omega arith) failing-IsValid due_again refl
