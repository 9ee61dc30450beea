-- ===== src/Worker/Client.antt =====
-- internal/worker/pool.go: setAuth, fetch, report and heartbeat, as the requests that they send and
-- what they do with the answers.
use worker_lightweight.Base.{
  ℕ, List, [], ◌++◌, Option, none, some, ℤ, pos, Text, lit, text_beq, length, ◌==◌, text_eq, nat_eq,
  if◌then◌else◌,
}
use worker_lightweight.Model.{Task, Result, PullResponse, WorkerInfo}
use worker_lightweight.Server.Types.{Method, post, Payload, Response}
use worker_lightweight.Worker.{Config}
use worker_lightweight.Worker.Active.{Active, cancel_all}

-- A request as it leaves: its header as a lookup, its body before json.Marshal.
pub data Body : Type 0 where
  nothing : Body
  outcome : Result → Body
  snapshot : WorkerInfo → Body

pub record Sent : Type 0 where
  pub method : Method
  pub url : Text
  pub header : Text → Text
  pub body : Body

-- The part of Pool that the requests read.
pub record Client : Type 0 where
  pub config : Config
  pub server_addr : Text
  pub token : Text
  pub workers : ℤ
  pub started_at : ℕ

abbrev pub no_header : Text → Text
no_header k = []

unfoldable pub set_header : Text → Text → (Text → Text) → Text → Text
unfolding text_beq
set_header key value header k = if k == key then value else header k

unfoldable pub set_auth : Client → (Text → Text) → Text → Text
unfolding set_header text_beq
set_auth c header =
    if c.token == []
    then header
    else set_header (lit "Authorization") (lit "Bearer " ++ c.token) header

unfoldable pub fetch_request : Client → Sent
unfolding set_auth
fetch_request c = record {
  method = post;
  url = c.server_addr ++ (lit "/api/pull?worker_id=" ++ c.config.id);
  header = set_auth c no_header;
  body = nothing;
}

-- A request with a JSON body.
abbrev pub json_request : Client → Text → Body → Sent
json_request c path body = record {
  method = post;
  url = c.server_addr ++ path;
  header = set_auth c (set_header (lit "Content-Type") (lit "application/json") no_header);
  body = body;
}

unfoldable pub report_request : Client → Result → Sent
unfolding set_auth set_header
report_request c r = json_request c (lit "/api/result") (outcome r)

-- The ids of activeSnapshot come in an order that Go leaves open.
abbrev pub pool_info : Client → Active → WorkerInfo
pool_info c active = record {
  id = c.config.id;
  total_slots = c.workers;
  active_count = pos (length active);
  running_tasks = active;
  started_at = c.started_at;
  last_heartbeat = 0;
}

unfoldable pub heartbeat_request : Client → Active → Sent
unfolding set_auth set_header
heartbeat_request c active =
    json_request c (lit "/api/worker/heartbeat") (snapshot (pool_info c active))

-- What a poll leads to: the contexts that it cancels, the map of tasks in flight after it, and the
-- task for the channel.
pub record Fetched : Type 0 where
  pub cancelled : List ℤ
  pub active : Active
  pub task : Option Task

abbrev pub idle : Active → Fetched
idle active = record { cancelled = []; active = active; task = none }

abbrev pub pulled_in : Active → Option PullResponse → Fetched
pulled_in active none = idle active
pulled_in active (some pr) =
    let c = cancel_all pr.stop_list active in
    record { cancelled = c.0; active = c.1; task = pr.task }

-- fetch, from the answer on, which is `none` where client.Do fails; `decode` is json.Decoder's.
unfoldable pub fetch : (Payload → Option PullResponse) → Option Response → Active → Fetched
unfolding cancel_all
fetch decode none active = idle active
fetch decode (some r) active =
    if r.status == 200 then pulled_in active (decode r.payload) else idle active
