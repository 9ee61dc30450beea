-- ===== src/Exchange.antt =====
-- internal/worker/pool.go and internal/server/server.go: a worker's requests at the server. The network
-- and net/http are a parameter: what a request that was sent is at the server, and what the JSON of
-- an answer is read as.
pub mod Arrivals
pub mod Cycle
use worker_lightweight.Base.{
  ◌≡◌, ◌≢◌, Bool, true, false, ◌&&◌, ◌||◌, not, ℕ, List, [], ◌∷◌, ◌++◌, Option, some, Text, lit,
  leb, nat_beq,
}
use mathlib.Core.Option
use worker_lightweight.Model.{Result, PullResponse, WorkerInfo}
use worker_lightweight.Model.Json.{wire}
use worker_lightweight.Server.Types.{Request, Payload, pulled}
use worker_lightweight.Worker.Client.{Sent, nothing, outcome, snapshot}

abbrev pub all_of : (ℕ → Bool) → Text → Bool
all_of p [] = true
all_of p (c ∷ s) = p c && all_of p s

-- Visible ASCII, which a header carries as it is; and ASCII, which JSON does.
abbrev pub is_visible : ℕ → Bool
is_visible c = leb 33 c && leb c 126

abbrev pub is_ascii : ℕ → Bool
is_ascii c = leb c 127

-- What a query carries without an escape.
abbrev pub is_unreserved : ℕ → Bool
is_unreserved c =
    leb b'a' c && leb c b'z'
    || (leb b'A' c && leb c b'Z'
        || (leb b'0' c && leb c b'9' || (nat_beq c b'-' || nat_beq c b'_')))

-- The address of a server has neither a query nor a fragment.
abbrev pub is_address : ℕ → Bool
is_address c = is_visible c && (not (nat_beq c b'?') && not (nat_beq c b'#'))

-- What net/http and encoding/json document.
pub record IsHttp (deliver : Sent → Request) (decode : Payload → Option PullResponse) : Type 0 where
  pub method : (q : Sent) → (deliver q).method ≡ q.method
  pub bearer :
      (q : Sent) (token : Text)
      → all_of is_visible token ≡ true
      → token ≢ []
      → q.header (lit "Authorization") ≡ lit "Bearer " ++ token
      → (deliver q).header (lit "Authorization") ≡ lit "Bearer " ++ token
  pub worker_id :
      (q : Sent) (addr id : Text)
      → all_of is_address addr ≡ true
      → all_of is_unreserved id ≡ true
      → q.url ≡ addr ++ (lit "/api/pull?worker_id=" ++ id)
      → (deliver q).query (lit "worker_id") ≡ id
  pub result_body :
      (q : Sent) (r : Result)
      → q.body ≡ outcome r
      → all_of is_ascii r.worker_id ≡ true
      → all_of is_ascii r.output ≡ true
      → (deliver q).result_body ≡ some r
  pub worker_body :
      (q : Sent) (w : WorkerInfo)
      → q.body ≡ snapshot w
      → all_of is_ascii w.id ≡ true
      → (deliver q).worker_body ≡ some w
  pub pulled_body :
      (p : PullResponse) → decode (pulled p) ≡ some (record p { task = Option.map wire p.task })
