-- ===== src/Model.antt =====
-- internal/model/task.go: the data that server and worker exchange.
-- A time is the number of nanoseconds since Go's zero time, so `IsZero` is the test for 0.
pub mod Json
use worker_lightweight.Base.{ℕ, ◌≡◌, ◌↔◌, Bool, true, false, List, Option, ℤ, Text, lit, Eq, arith}

pub data Status : Type 0 where
  pending running success failed dead stopped : Status

pub data ScheduleType : Type 0 where
  once cron : ScheduleType

abbrev pub status_beq : Status → Status → Bool
status_beq pending pending = true
status_beq running running = true
status_beq success success = true
status_beq failed failed = true
status_beq dead dead = true
status_beq stopped stopped = true
status_beq _ _ = false

abbrev pub type_beq : ScheduleType → ScheduleType → Bool
type_beq once once = true
type_beq cron cron = true
type_beq _ _ = false

pub status_beq_iff : (a b : Status) → (status_beq a b ≡ true) ↔ (a ≡ b)
status_beq_iff a b = (λ h. ground arith, λ h. ground arith)

pub type_beq_iff : (a b : ScheduleType) → (type_beq a b ≡ true) ↔ (a ≡ b)
type_beq_iff a b = (λ h. ground arith, λ h. ground arith)

instance abbrev pub status_eq : Eq Status
status_eq = record { beq = status_beq; beq_iff = status_beq_iff }

instance abbrev pub type_eq : Eq ScheduleType
type_eq = record { beq = type_beq; beq_iff = type_beq_iff }

-- The words that stand in the database and in the JSON API.
unfoldable pub status_text : Status → Text
status_text pending = lit "pending"
status_text running = lit "running"
status_text success = lit "success"
status_text failed = lit "failed"
status_text dead = lit "dead"
status_text stopped = lit "stopped"

unfoldable pub type_text : ScheduleType → Text
type_text once = lit "once"
type_text cron = lit "cron"

pub record Task : Type 0 where
  pub id : ℤ
  pub name : Text
  pub command : Text
  pub type : ScheduleType
  pub cron_expr : Text
  pub status : Status
  pub max_retry : ℤ
  pub retry_count : ℤ
  pub timeout_sec : ℤ
  pub worker_id : Text
  pub parent_id : ℤ
  pub enabled : Bool
  pub result : Text
  pub created_at : ℕ
  pub updated_at : ℕ
  pub next_run_at : ℕ

-- A worker's report.
pub record Result : Type 0 where
  pub task_id : ℤ
  pub worker_id : Text
  pub success : Bool
  pub output : Text

pub record PullResponse : Type 0 where
  pub task : Option Task
  pub stop_list : List ℤ

pub record CreateTaskRequest : Type 0 where
  pub name : Text
  pub command : Text
  pub type : Text
  pub cron_expr : Text
  pub max_retry : ℤ
  pub timeout_sec : ℤ

pub record WorkerInfo : Type 0 where
  pub id : Text
  pub total_slots : ℤ
  pub active_count : ℤ
  pub running_tasks : List ℤ
  pub started_at : ℕ
  pub last_heartbeat : ℕ
