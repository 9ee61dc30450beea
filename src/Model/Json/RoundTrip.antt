-- ===== src/Model/Json/RoundTrip.antt =====
-- internal/model/task.go: what the worker reads back from a task that the server sent.
use worker_lightweight.Base.{
  ◌≡◌, refl, ◌∙◌, ap, ℕ, [], Option, some, ℤ, pos, Text, lit, ◌==◌, text_eq, int_eq, beq→eq,
  Bool-cases, inl, inr,
}
use worker_lightweight.Model.{
  Task, Status, ScheduleType, pending, running, success, failed, dead, stopped, once, cron,
  status_text, type_text,
}
use worker_lightweight.Model.Json.{
  text, number, Object, JsonTask, omit_text, omit_number, members, assign, assign_all, zero_task,
  to_json, marshal_json, status_of, type_of, of_json, unmarshal_json, IsRfc3339, wire, IsDated,
}

-- A member that was left out leaves the field at its zero.
omitted_text :
    (k s : Text) (o : Object) (j j' : JsonTask)
    → assign k (text s) j ≡ some j'
    → (s ≡ [] → j ≡ j')
    → assign_all (omit_text k s o) j ≡ assign_all o j'
unfolding assign_all
omitted_text k s o j j' e z = elim (Bool-cases (s == [])) [
  | inl b ↦ rw b (ap (assign_all o) (z (beq→eq s [] b)))
  | inr b ↦ rw (b, e) refl
]

omitted_number :
    (k : Text) (n : ℤ) (o : Object) (j j' : JsonTask)
    → assign k (number n) j ≡ some j'
    → (n ≡ pos 0 → j ≡ j')
    → assign_all (omit_number k n o) j ≡ assign_all o j'
unfolding assign_all
omitted_number k n o j j' e z = elim (Bool-cases (n == pos 0)) [
  | inl b ↦ rw b (ap (assign_all o) (z (beq→eq n (pos 0) b)))
  | inr b ↦ rw (b, e) refl
]

pub assign_all-members : (j : JsonTask) → assign_all (members j) zero_task ≡ some j
unfolding assign_all members
assign_all-members j =
    omitted_text (lit "cron_expr") j.cron_expr _ a (record a { cron_expr = j.cron_expr }) refl
      (λ z. rw z refl)
    ∙ omitted_text (lit "worker_id") j.worker_id _ b (record b { worker_id = j.worker_id }) refl
        (λ z. rw z refl)
    ∙ omitted_number (lit "parent_id") j.parent_id _ c (record c { parent_id = j.parent_id }) refl
        (λ z. rw z refl)
    ∙ omitted_text (lit "result") j.result _ d (record d { result = j.result }) refl
        (λ z. rw z refl)
  where
    a : JsonTask
    a = record zero_task { id = j.id; name = j.name; command = j.command; type = j.type }

    b : JsonTask
    b = record a {
      cron_expr = j.cron_expr;
      status = j.status;
      max_retry = j.max_retry;
      retry_count = j.retry_count;
      timeout_sec = j.timeout_sec;
    }

    c : JsonTask
    c = record b { worker_id = j.worker_id }

    d : JsonTask
    d = record c { parent_id = j.parent_id; enabled = j.enabled }

status_of-text : (s : Status) → status_of (status_text s) ≡ some s
unfolding status_of status_text
status_of-text pending = refl
status_of-text running = refl
status_of-text success = refl
status_of-text failed = refl
status_of-text dead = refl
status_of-text stopped = refl

type_of-text : (k : ScheduleType) → type_of (type_text k) ≡ some k
unfolding type_of type_text
type_of-text once = refl
type_of-text cron = refl

-- The worker reads back from the JSON of a task, whose members may have been left out, the task
-- that the server sent, with its times cut to the second, if these lie before the year 10000.
pub unmarshal-marshal :
    (format : ℕ → Text) (parse : Text → Option ℕ) (law : IsRfc3339 format parse) (t : Task)
    → IsDated t
    → unmarshal_json parse (marshal_json format t) ≡ some (wire t)
unfolding unmarshal_json marshal_json of_json to_json
unmarshal-marshal format parse law t d =
    rw
      (
        assign_all-members (to_json format t),
        status_of-text t.status,
        type_of-text t.type,
        law.reads t.created_at d.created,
        law.reads t.updated_at d.updated,
        law.reads t.next_run_at d.next_run,
      )
      refl
