-- ===== src/Server/Page/Submission.antt =====
-- internal/server/ui_template.go and internal/server/server.go: what the server makes of a form that
-- validateCreateForm lets through.
use worker_lightweight.Base.{
  ◌≡◌, refl, Bool, ◌||◌, Option, none, ℤ, pos, ltb_ℤ, true, false, not, ◌&&◌, List, [], ◌∷◌, ◌++◌,
  some, Text, lit, trim_space, text_beq, ◌==◌, text_eq, Bool-cases, inl, inr, arith, beq→eq,
  if◌then◌else◌,
}
use worker_lightweight.Model.{CreateTaskRequest, once, cron, type_text}
use worker_lightweight.Server.Page.Script.{Browser, IsBrowser, IsSafe}
use worker_lightweight.Server.Handlers.{validate, schedule_type}
use worker_lightweight.Server.Page.Form.{
  NewTask, FieldError, validate_create_form, payload, name_errors, command_errors, type_errors,
  cron_errors, retry_errors, timeout_errors, parse_number, out_of_range,
}

nil-append : (a b : List FieldError) → a ++ b ≡ [] → (a ≡ []) × (b ≡ [])
nil-append [] b h = (refl, h)
nil-append (e ∷ a) b h = cc

record Passed (fd : NewTask) : Type 0 where
  name : (trim_space fd.name == []) ≡ false
  command : (trim_space fd.command == []) ≡ false
  type : (not (fd.type == lit "once") && not (fd.type == lit "cron")) ≡ false
  cron_expr : (fd.type == lit "cron") ≡ true → (trim_space fd.cron_expr == []) ≡ false
  retries :
      out_of_range (λ k. ltb_ℤ k (pos 0) || ltb_ℤ (pos 100) k) (parse_number fd.max_retry) ≡ false

passed : (fd : NewTask) → validate_create_form fd ≡ [] → Passed fd
unfolding validate_create_form
passed fd h =
    let (a, h1) =
      nil-append (name_errors fd)
        (command_errors fd
          ++ (type_errors fd ++ (cron_errors fd ++ (retry_errors fd ++ timeout_errors fd))))
        h in
    let (b, h2) =
      nil-append (command_errors fd)
        (type_errors fd ++ (cron_errors fd ++ (retry_errors fd ++ timeout_errors fd))) h1 in
    let (c, h3) =
      nil-append (type_errors fd) (cron_errors fd ++ (retry_errors fd ++ timeout_errors fd)) h2 in
    let (d, h4) = nil-append (cron_errors fd) (retry_errors fd ++ timeout_errors fd) h3 in
    let (r, t) = nil-append (retry_errors fd) (timeout_errors fd) h4 in
    record {
      name = unfold name_errors in ground arith;
      command = unfold command_errors in ground arith;
      type = unfold type_errors in ground arith;
      cron_expr = λ k. unfold cron_errors in ground arith;
      retries = unfold retry_errors in ground arith;
    }

-- What the form has checked of the number of retries.
retries-IsSafe :
    (n : Option ℤ)
    → out_of_range (λ k. ltb_ℤ k (pos 0) || ltb_ℤ (pos 100) k) n ≡ false
    → (k : ℤ) × (n ≡ some k) × IsSafe k
retries-IsSafe none h = cc
retries-IsSafe (some k) h = (k, refl, ground arith)

-- A form that passes validateCreateForm, and whose timeout a double holds exactly (at most 2 ^ 53), is
-- decoded by createTask, with the number of retries and the timeout that the form gives, and passes
-- the checks of createTask too, with the type that it gives, if the cron library accepts the
-- expression of a definition.
pub payload-accepted :
    (js : Browser)
    → IsBrowser js
    → (cron_parses : Text → Bool) (fd : NewTask) (timeout : ℤ) → validate_create_form fd ≡ []
    → parse_number fd.timeout_sec ≡ some timeout
    → IsSafe timeout
    → ((fd.type == lit "cron") ≡ true → cron_parses (trim_space fd.cron_expr) ≡ true)
    → (req : CreateTaskRequest) × (payload js fd ≡ some req)
      × ((validate cron_parses req).0 ≡ (if fd.type == lit "cron" then some cron else some once))
      × (parse_number fd.max_retry ≡ some req.max_retry)
      × (req.timeout_sec ≡ timeout)
unfolding payload validate type_text
payload-accepted js exact cron_parses fd timeout h reads safe parses =
    let p = passed fd h in
    let (retries, some_retries, few) = retries-IsSafe (parse_number fd.max_retry) p.retries in
    (
      record {
        name = trim_space fd.name;
        command = trim_space fd.command;
        type = fd.type;
        cron_expr = if fd.type == lit "cron" then trim_space fd.cron_expr else [];
        max_retry = retries;
        timeout_sec = timeout;
      },
      rw (some_retries, reads, exact.stores retries few, exact.stores timeout safe) refl,
      accepted p,
      some_retries,
      refl,
    )
  where
    accepted :
        Passed fd
        → (validate cron_parses (record {
          name = trim_space fd.name;
          command = trim_space fd.command;
          type = fd.type;
          cron_expr = if fd.type == lit "cron" then trim_space fd.cron_expr else [];
          max_retry = pos 0;
          timeout_sec = pos 0;
        })).0
          ≡ (if fd.type == lit "cron" then some cron else some once)
    accepted p = elim (Bool-cases (fd.type == lit "cron")) [
      | inl e ↦
          let kind : schedule_type fd.type ≡ some cron =
            rw (beq→eq fd.type (lit "cron") e) (unfold text_beq in refl) in
          rw (p.name, p.command, kind, e, p.cron_expr e, parses e) refl
      | inr e ↦
          let is_once : (fd.type == lit "once") ≡ true = ground (arith, p.type) in
          let kind : schedule_type fd.type ≡ some once =
            rw (beq→eq fd.type (lit "once") is_once) (unfold text_beq in refl) in
          rw (p.name, p.command, kind, e) refl
    ]
