-- ===== src/Server/Types.antt =====
-- internal/server/server.go: requests, responses and the state that the handlers share.
-- A request carries what net/http and encoding/json make of it: its query and header as lookups
-- that give the empty text for a missing key, and its body as decoded at each type.
use worker_lightweight.Base.{ℕ, Bool, List, Text, ℤ, Option}
use worker_lightweight.Model.{Task, Result, PullResponse, CreateTaskRequest, WorkerInfo}
use worker_lightweight.Store.Db.{Db}

pub data Method : Type 0 where
  get post delete other : Method

pub record Request : Type 0 where
  pub method : Method
  pub path : Text
  pub query : Text → Text
  pub raw_query : Text
  pub header : Text → Text
  pub remote_addr : Text
  -- The host of `net.SplitHostPort(r.RemoteAddr)`, empty if it fails.
  pub remote_host : Text
  pub create_body : Option CreateTaskRequest
  pub result_body : Option Result
  pub worker_body : Option WorkerInfo

pub data Payload : Type 0 where
  error : Text → Payload
  store_error : Payload
  done : Payload
  task : Task → Payload
  tasks : (rows : List Task) (total : ℕ) (page page_size total_pages : ℤ) → Payload
  pulled : PullResponse → Payload
  workers : List WorkerInfo → Payload

pub record Response : Type 0 where
  pub status : ℕ
  pub payload : Payload

-- The token of the configuration is empty where authentication is off. A resync of the scheduler
-- is pending or not: its channel holds one signal.
pub record State : Type 0 where
  pub token : Text
  pub db : Db
  pub registry : List (Text × WorkerInfo)
  pub resync_pending : Bool
