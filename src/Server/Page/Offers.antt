-- ===== src/Server/Page/Offers.antt =====
-- internal/server/ui_template.go, internal/server/server.go and internal/store/store.go: the buttons of
-- a row and what the API makes of them.
use worker_lightweight.Base.{
  ◌≡◌, refl, ℕ, ◌-◌, ◌^◌, Bool, true, false, ◌&&◌, List, [], some, pos, negsuc, ◌<ℤ◌, ◌≤ℤ◌, Text,
  lit, text_beq, ◌==◌, text_eq, int_eq, nat_eq, All, In, In-length, select-In, select, length,
  arith, beq_self, none, ◌++◌,
}
use worker_lightweight.Model.{
  Task, once, cron, pending, running, success, failed, dead, stopped, type_text, status_text,
  status_eq, ScheduleType, Status,
}
use worker_lightweight.Store.Db.{update, with_tx, delete_rows}
use worker_lightweight.Store.Tasks.{delete}
use worker_lightweight.Store.Control.{in_flight, set_enabled, stop_task, resume_task}
use worker_lightweight.Server.Types.{Request, State, Method, post}
use worker_lightweight.Server.Handlers.{delete_task, set_task_enabled, stop_one, restart_one}
use worker_lightweight.Server.Routes.{World, Action, act, action_of, post_action, task_by_id}
use worker_lightweight.Server.Dashboard.Views.{TaskRow, task_row}
use worker_lightweight.Server.Page.Html.{number_text}
use worker_lightweight.Server.Page.Numbers.{parse_int-number_text, number_text-IsWord, IsWord}
use worker_lightweight.Server.Page.Origins.{read-filled}
use worker_lightweight.Server.Page.Paths.{path_parts-id, path_parts-action}
use worker_lightweight.Server.Page.Rows.{
  Button, history, press, template_buttons, seen, task_row-some,
}
use worker_lightweight.Server.Page.Browse.{action_request, value_of}
use worker_lightweight.Server.Page.Script.{Browser, IsBrowser}
use worker_lightweight.Server.Page.Headers.{header_of, sent_headers_lem}
use worker_lightweight.Exchange.{all_of, is_visible}

-- A statement that names the row of a task meets it.
meets :
    (p : Task → Bool) (t : Task) (ts : List Task)
    → In t ts
    → p t ≡ true
    → (length (select p ts) == 0) ≡ false
meets p t ts i h = let some_row = In-length (select p ts) (select-In p t ts i h) in ground arith

module _ (t : Task) (w : World) (s : State) (listed : In t s.db.tasks)
    (answers : w.faults ≡ []) where
  abbrev Answers200 : Action → Type 0
  Answers200 a = (act a t.id w s).0.status ≡ 200

  removes : Answers200 Action.remove
  unfolding act delete_task delete delete_rows
  removes = rw answers refl

  stops : in_flight t ≡ true → Answers200 Action.stop
  unfolding act stop_one stop_task update
  stops h =
      rw
        (
          answers,
          meets (λ u. u.id == t.id && in_flight u) t s.db.tasks listed (rw (beq_self t.id, h) refl),
        )
        refl

  restarts : t.status ≡ stopped → Answers200 Action.restart
  unfolding act restart_one resume_task update
  restarts h =
      rw
        (
          answers,
          meets (λ u. u.id == t.id && u.status == stopped) t s.db.tasks listed
              (rw (beq_self t.id, h) refl),
        )
        refl

  pauses : Answers200 Action.pause
  unfolding act set_task_enabled set_enabled update with_tx
  pauses = rw (answers, meets (λ u. u.id == t.id) t s.db.tasks listed (beq_self t.id)) refl

  resumes : Answers200 Action.resume
  unfolding act set_task_enabled set_enabled update with_tx
  resumes = rw (answers, meets (λ u. u.id == t.id) t s.db.tasks listed (beq_self t.id)) refl

  module _ (low : negsuc (2 ^ 63 - 1) <ℤ t.id) (high : t.id ≤ℤ pos (2 ^ 63 - 1)) (js : Browser)
      (exact : IsBrowser js) (client : Request) (token : Text)
      (plain : all_of is_visible token ≡ true) where
    -- A press of a button of the row sends a request, which is answered with 200; the link is no
    -- request to the API.
    abbrev pub Accepted : Button → Type 0
    Accepted (history id) = Unit
    Accepted (press id action) =
        (q : Request) × (action_request js client token id action ≡ some q)
        × ((task_by_id w q s).0.status ≡ 200)

    -- The request of the method and the path.
    abbrev to_path : Method → Text → Request
    to_path method path = record client {
      method = method;
      path = path;
      query = value_of [];
      header = header_of token;
      create_body = none;
      result_body = none;
      worker_body = none;
    }

    by_delete : Answers200 Action.remove → Accepted (press (number_text t.id) (lit "delete"))
    unfolding task_by_id action_request action_of text_beq
    by_delete h =
        let read = parse_int-number_text t.id low high in
        let full = read-filled t.id (number_text t.id) read in
        (
          to_path Method.delete (lit "/api/tasks/" ++ number_text t.id),
          rw (sent_headers_lem js exact token plain) refl,
          rw (path_parts-id (number_text t.id) (number_text-IsWord t.id) full, read) h,
        )

    by_press :
        (action : Text)
        → IsWord action
        → (action == []) ≡ false
        → (action == lit "delete") ≡ false
        → Answers200 (post_action action)
        → Accepted (press (number_text t.id) action)
    unfolding task_by_id action_request action_of
    by_press action word named other h =
        let read = parse_int-number_text t.id low high in
        let full = read-filled t.id (number_text t.id) read in
        let parts =
          path_parts-action (number_text t.id) action (number_text-IsWord t.id) full word named in
        (
          to_path post (lit "/api/tasks/" ++ (number_text t.id ++ (lit "/" ++ action))),
          rw (other, sent_headers_lem js exact token plain) refl,
          rw (parts, read) h,
        )

    accepts_pause : Accepted (press (number_text t.id) (lit "pause"))
    unfolding text_beq
    accepts_pause = by_press (lit "pause") (omega arith) refl refl pauses

    accepts_resume : Accepted (press (number_text t.id) (lit "resume"))
    unfolding text_beq
    accepts_resume = by_press (lit "resume") (omega arith) refl refl resumes

    accepts_stop : in_flight t ≡ true → Accepted (press (number_text t.id) (lit "stop"))
    unfolding text_beq
    accepts_stop h = by_press (lit "stop") (omega arith) refl refl (stops h)

    accepts_restart : t.status ≡ stopped → Accepted (press (number_text t.id) (lit "restart"))
    unfolding text_beq
    accepts_restart h = by_press (lit "restart") (omega arith) refl refl (restarts h)

    module _ (format : ℕ → Text) (addr : Text) (like : Text → Text → Bool) where
      offers :
          (k : ScheduleType) (st : Status) (e : Bool)
          → t.type ≡ k
          → t.status ≡ st
          → t.enabled ≡ e
          → All Accepted (template_buttons (seen format addr like t))
      unfolding template_buttons type_text status_text text_beq
      offers cron st true k q e = rw (k, e) (tt, (accepts_pause, (by_delete removes, tt)))
      offers cron st false k q e = rw (k, e) (tt, (accepts_resume, (by_delete removes, tt)))
      offers once pending _ k q e = rw (k, q) (accepts_stop (rw q refl), (by_delete removes, tt))
      offers once running _ k q e = rw (k, q) (accepts_stop (rw q refl), (by_delete removes, tt))
      offers once stopped _ k q e = rw (k, q) (accepts_restart q, (by_delete removes, tt))
      offers once success _ k q e = rw (k, q) (by_delete removes, tt)
      offers once failed _ k q e = rw (k, q) (by_delete removes, tt)
      offers once dead _ k q e = rw (k, q) (by_delete removes, tt)

      -- Where the database answers and the token is empty or visible ASCII, for a task of the table
      -- whose id is an int64 above the least one: every press of a button that the template offers
      -- in the row of the task, with the id as the string that html/template writes of the row's
      -- string field, sends a request, and the handler of /api/tasks/{id} answers it with 200.
      pub offers_lem :
          (r : TaskRow) → task_row format addr like t ≡ some r → All Accepted (template_buttons r)
      offers_lem r e =
          let written = task_row-some format addr like t low high in
          let same : r ≡ seen format addr like t = cc in
          rw same (offers t.type t.status t.enabled refl refl refl)
