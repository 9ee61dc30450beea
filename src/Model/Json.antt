-- ===== src/Model/Json.antt =====
-- internal/model/task.go: MarshalJSON, jsonTask and its tags, and what encoding/json makes of the
-- tags. An object stands for its text; the texts in it are valid UTF-8.
pub mod RoundTrip
use worker_lightweight.Base.{
  ◌≡◌, ℕ, ◌*◌, ◌/◌, ◌^◌, ◌<◌, Bool, true, false, List, [], ◌∷◌, Option, none, some, ℤ, pos, Text,
  lit, text_beq, ◌==◌, text_eq, int_eq, if◌then◌else◌,
}
use worker_lightweight.Model.{
  Task, Status, ScheduleType, pending, running, success, failed, dead, stopped, once, cron,
  status_text, type_text,
}

pub data Value : Type 0 where
  text : Text → Value
  number : ℤ → Value
  flag : Bool → Value

abbrev pub Object : Type 0
Object = List (Text × Value)

pub record JsonTask : Type 0 where
  pub id : ℤ
  pub name : Text
  pub command : Text
  pub type : Text
  pub cron_expr : Text
  pub status : Text
  pub max_retry : ℤ
  pub retry_count : ℤ
  pub timeout_sec : ℤ
  pub worker_id : Text
  pub parent_id : ℤ
  pub enabled : Bool
  pub result : Text
  pub created_at : Text
  pub updated_at : Text
  pub next_run_at : Text

-- The members with `omitempty`.
abbrev pub omit_text : Text → Text → Object → Object
omit_text k s o = if s == [] then o else (k, text s) ∷ o

abbrev pub omit_number : Text → ℤ → Object → Object
omit_number k n o = if n == pos 0 then o else (k, number n) ∷ o

-- json.Marshal of a jsonTask, by its tags.
unfoldable pub members : JsonTask → Object
unfolding text_beq
members j =
    (lit "id", number j.id)
    ∷ (lit "name", text j.name)
    ∷ (lit "command", text j.command)
    ∷ (lit "type", text j.type)
    ∷ omit_text (lit "cron_expr") j.cron_expr (
        (lit "status", text j.status)
        ∷ (lit "max_retry", number j.max_retry)
        ∷ (lit "retry_count", number j.retry_count)
        ∷ (lit "timeout_sec", number j.timeout_sec)
        ∷ omit_text (lit "worker_id") j.worker_id (
            omit_number (lit "parent_id") j.parent_id (
              (lit "enabled", flag j.enabled)
              ∷ omit_text (lit "result") j.result (
                  (lit "created_at", text j.created_at)
                  ∷ (lit "updated_at", text j.updated_at)
                  ∷ (lit "next_run_at", text j.next_run_at)
                  ∷ []))))

-- json.Unmarshal sets the field of each member in turn; a value of another type is an error.
abbrev as_text : (Text → JsonTask) → Value → Option JsonTask
as_text f (text s) = some (f s)
as_text f (number n) = none
as_text f (flag b) = none

abbrev as_number : (ℤ → JsonTask) → Value → Option JsonTask
as_number f (text s) = none
as_number f (number n) = some (f n)
as_number f (flag b) = none

abbrev as_flag : (Bool → JsonTask) → Value → Option JsonTask
as_flag f (text s) = none
as_flag f (number n) = none
as_flag f (flag b) = some (f b)

abbrev setters : JsonTask → List (Text × (Value → Option JsonTask))
setters j =
    (lit "id", as_number (λ v. record j { id = v }))
    ∷ (lit "name", as_text (λ v. record j { name = v }))
    ∷ (lit "command", as_text (λ v. record j { command = v }))
    ∷ (lit "type", as_text (λ v. record j { type = v }))
    ∷ (lit "cron_expr", as_text (λ v. record j { cron_expr = v }))
    ∷ (lit "status", as_text (λ v. record j { status = v }))
    ∷ (lit "max_retry", as_number (λ v. record j { max_retry = v }))
    ∷ (lit "retry_count", as_number (λ v. record j { retry_count = v }))
    ∷ (lit "timeout_sec", as_number (λ v. record j { timeout_sec = v }))
    ∷ (lit "worker_id", as_text (λ v. record j { worker_id = v }))
    ∷ (lit "parent_id", as_number (λ v. record j { parent_id = v }))
    ∷ (lit "enabled", as_flag (λ v. record j { enabled = v }))
    ∷ (lit "result", as_text (λ v. record j { result = v }))
    ∷ (lit "created_at", as_text (λ v. record j { created_at = v }))
    ∷ (lit "updated_at", as_text (λ v. record j { updated_at = v }))
    ∷ (lit "next_run_at", as_text (λ v. record j { next_run_at = v }))
    ∷ []

-- A key with no field is skipped.
abbrev set_by : List (Text × (Value → Option JsonTask)) → Text → Value → JsonTask → Option JsonTask
set_by [] k v j = some j
set_by ((name, f) ∷ fs) k v j = if name == k then f v else set_by fs k v j

unfoldable pub assign : Text → Value → JsonTask → Option JsonTask
unfolding text_beq
assign k v j = set_by (setters j) k v j

unfoldable pub assign_all : Object → JsonTask → Option JsonTask
unfolding assign
assign_all [] j = some j
assign_all ((k, v) ∷ o) j = elim (assign k v j) [ none ↦ none | some j' ↦ assign_all o j' ]

-- Go's zero value.
abbrev pub zero_task : JsonTask
zero_task = record {
  id = pos 0;
  name = [];
  command = [];
  type = [];
  cron_expr = [];
  status = [];
  max_retry = pos 0;
  retry_count = pos 0;
  timeout_sec = pos 0;
  worker_id = [];
  parent_id = pos 0;
  enabled = false;
  result = [];
  created_at = [];
  updated_at = [];
  next_run_at = [];
}

-- time.Format(time.RFC3339).
module _ (format : ℕ → Text) where
  unfoldable pub to_json : Task → JsonTask
  unfolding status_text type_text
  to_json t = record {
    id = t.id;
    name = t.name;
    command = t.command;
    type = type_text t.type;
    cron_expr = t.cron_expr;
    status = status_text t.status;
    max_retry = t.max_retry;
    retry_count = t.retry_count;
    timeout_sec = t.timeout_sec;
    worker_id = t.worker_id;
    parent_id = t.parent_id;
    enabled = t.enabled;
    result = t.result;
    created_at = format t.created_at;
    updated_at = format t.updated_at;
    next_run_at = format t.next_run_at;
  }

  unfoldable pub marshal_json : Task → Object
  unfolding to_json members
  marshal_json t = members (to_json t)

-- The words of the two string types; any other text is outside of the model's enums.
unfoldable pub status_of : Text → Option Status
unfolding text_beq
status_of s =
    if s == lit "pending"
    then some pending
    else if s == lit "running"
    then some running
    else if s == lit "success"
    then some success
    else if s == lit "failed"
    then some failed
    else if s == lit "dead"
    then some dead
    else if s == lit "stopped"
    then some stopped
    else none

unfoldable pub type_of : Text → Option ScheduleType
unfolding text_beq
type_of s = if s == lit "once" then some once else if s == lit "cron" then some cron else none

infixl 5 ◌>>=◌
abbrev pub ◌>>=◌ : {A B : Type 0} → Option A → (A → Option B) → Option B
none >>= f = none
some a >>= f = f a

-- time.Time's UnmarshalJSON: none where the text is not a time.
module _ (parse : Text → Option ℕ) where
  unfoldable pub of_json : JsonTask → Option Task
  unfolding status_of type_of
  of_json j = do
    kind ← type_of j.type
    state ← status_of j.status
    created ← parse j.created_at
    updated ← parse j.updated_at
    next ← parse j.next_run_at
    some (record {
      id = j.id;
      name = j.name;
      command = j.command;
      type = kind;
      cron_expr = j.cron_expr;
      status = state;
      max_retry = j.max_retry;
      retry_count = j.retry_count;
      timeout_sec = j.timeout_sec;
      worker_id = j.worker_id;
      parent_id = j.parent_id;
      enabled = j.enabled;
      result = j.result;
      created_at = created;
      updated_at = updated;
      next_run_at = next;
    })

  -- json.Unmarshal into a Task.
  unfoldable pub unmarshal_json : Object → Option Task
  unfolding assign_all of_json
  unmarshal_json o = assign_all o zero_task >>= of_json

-- Year 10000, the first that RFC3339 has no text for, and the time of a text: its second's.
abbrev pub year_10000 : ℕ
year_10000 = 3652059 * 86400 * 10 ^ 9

abbrev pub whole_second : ℕ → ℕ
whole_second n = n / 10 ^ 9 * 10 ^ 9

-- What package time documents of the two.
pub record IsRfc3339 (format : ℕ → Text) (parse : Text → Option ℕ) : Type 0 where
  pub reads : (n : ℕ) → n < year_10000 → parse (format n) ≡ some (whole_second n)

-- A task as the worker gets it.
abbrev pub wire : Task → Task
wire t = record t {
  created_at = whole_second t.created_at;
  updated_at = whole_second t.updated_at;
  next_run_at = whole_second t.next_run_at;
}

-- Its times have a text.
pub record IsDated (t : Task) : Type 0 where
  pub created : t.created_at < year_10000
  pub updated : t.updated_at < year_10000
  pub next_run : t.next_run_at < year_10000
