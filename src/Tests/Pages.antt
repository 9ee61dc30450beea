-- ===== src/Tests/Pages.antt =====
-- internal/server/ui_template.go: the theorems on the list's page, at concrete pages.
use worker_lightweight.Base.{
  trim_space, some, ◌==◌, text_eq, if◌then◌else◌, ◌≡◌, refl, true, [], ◌∷◌, All, head, text_beq,
  pos, Text, lit, arith, ◌+◌, ◌-◌, ◌^◌, ℕ, Bool, ◌&&◌, none, leb, ltb_ℤ,
}
use worker_lightweight.Server.Types.{Request, State, tasks, store_error}
use worker_lightweight.Server.Auth.{auth}
use worker_lightweight.Server.Routes.{World, handle_tasks}
use worker_lightweight.Server.Dashboard.Bar.{build_page_items}
use worker_lightweight.Server.Dashboard.Views.{UiData, shown, render_ui, rows_of}
use worker_lightweight.Store.Query.{list_tasks, count_tasks}
use worker_lightweight.Server.Registry.{list_workers}
use worker_lightweight.Server.Handlers.{parse_parent_id, total_pages, page_of}
use worker_lightweight.Server.Dashboard.Agreement.{Agrees}
use worker_lightweight.Model.{CreateTaskRequest, once, cron}
use worker_lightweight.Server.Handlers.{validate}
use worker_lightweight.Server.Page.Form.{NewTask, validate_create_form, payload, parse_number}
use worker_lightweight.Server.Page.Html.{number_text}
use worker_lightweight.Server.Page.Script.{Browser, IsBrowser}
use worker_lightweight.Server.Page.Submission.{payload-accepted}
use worker_lightweight.Model.Json.{to_json}
use worker_lightweight.Server.Page.Rows.{
  shown_cells, render_row, template_row, template_buttons, seen, task_row-some, render_row-Same,
}
use worker_lightweight.Server.Page.Bar.{page_buttons, script_items, script_items-Same}
use worker_lightweight.Exchange.{all_of, is_visible}
use worker_lightweight.Server.Page.Board.{load}
use worker_lightweight.Server.Page.Browse.{list_request}
use worker_lightweight.Server.Page.Refresh.{IsExpressible, refresh-Agrees}
use worker_lightweight.Server.Page.Lost.{refresh_all, refresh_all-blank}
use worker_lightweight.Server.Page.Offers.{Accepted, offers_lem}
use worker_lightweight.Tests.Data.{table, backup, like_all}
use worker_lightweight.Tests.Oldest.{oldest_row}
use worker_lightweight.Tests.Services.{pull_request, server, format, some_crons}
use worker_lightweight.Tests.Boards.{ui_request}

abbrev here : Text
here = lit "here"

-- A browser that keeps what an input is given.
abbrev kept : Text → Text
kept s = s

-- A browser whose sums stop at 2 ^ 53, whose numbers must fit an int64 to be stored, and that sends
-- headers of printable ASCII.
abbrev is_printable : ℕ → Bool
is_printable c = leb 32 c && leb c 126

abbrev plain_browser : Browser
plain_browser = record {
  read = λ z. z;
  write = number_text;
  plus = λ a b. if leb (a + b) (2 ^ 53) then a + b else 2 ^ 53;
  minus = ◌-◌;
  stored = λ z. if ltb_ℤ z (pos (2 ^ 63)) then some z else none;
  carried = λ v. if all_of is_printable v then some v else none;
}

printable : (token : Text) → all_of is_visible token ≡ true → all_of is_printable token ≡ true
printable [] h = refl
printable (c ∷ s) h = ground (arith, printable s)

plain_browser-IsBrowser : IsBrowser plain_browser
plain_browser-IsBrowser = record {
  reads = λ z h. refl;
  writes = λ z h. refl;
  adds = λ a b h. ground arith;
  subtracts = λ a b h k. refl;
  stores = λ z h. ground arith;
  bearer = λ token h k. rw (printable token h) refl;
}

-- There the loop over the pages from 2 ^ 53 on does not end.
stuck : script_items plain_browser (2 ^ 53) (2 ^ 53) ≡ none
unfolding script_items page_buttons
stuck = refl

abbrev calm : World
calm = record { faults = []; now = 70; now' = 71; allowed = true }

abbrev bare : State
bare = server (record { tasks = []; last_id = 0 })

-- The page of an empty table.
abbrev blank_page : UiData
blank_page = record {
  tasks = [];
  workers = [];
  now = lit "now";
  server = here;
  token = lit "secret";
  current_status = lit "all";
  filter = record {
    name = [];
    command = [];
    type = [];
    status = [];
    worker = [];
    enabled = [];
    parent_id = pos 0;
  };
  parent_id = pos 0;
  parent_name = [];
  page = pos 1;
  page_size = pos 20;
  total = 0;
  total_pages = 1;
  pages = [];
}

renders : (render_ui format here like_all ui_request calm.faults calm.now bare).0 ≡ shown blank_page
unfolding render_ui list_tasks count_tasks rows_of list_workers parse_parent_id total_pages
    build_page_items
renders = refl

expressible : IsExpressible kept ui_request
unfolding page_of parse_parent_id text_beq
expressible = record {
  name = refl;
  command = refl;
  worker = refl;
  type = refl;
  enabled = refl;
  status = refl;
  page = omega arith;
  parent_low = omega arith;
  parent_high = omega arith;
}

refreshed_blank :
    (q : Request) × (list_request plain_browser pull_request (load plain_browser kept blank_page)
      ≡ some q)
    × Agrees format here like_all
        (auth (handle_tasks oldest_row like_all some_crons calm) q bare).0.payload
        (shown blank_page)
refreshed_blank =
    refresh-Agrees kept format here like_all oldest_row some_crons plain_browser
      plain_browser-IsBrowser pull_request ui_request calm bare blank_page expressible refl renders

still_blank :
    let b =
      refresh_all plain_browser format
        (store_error ∷ tasks (backup ∷ []) 1 (pos 1) (pos 20) (pos 1) ∷ [])
        (load plain_browser kept blank_page) in
    (b.rows ≡ []) × (b.items ≡ [])
still_blank =
    refresh_all-blank plain_browser format kept blank_page
      (store_error ∷ tasks (backup ∷ []) 1 (pos 1) (pos 20) (pos 1) ∷ []) refl (omega arith)

bar_5_of_9 : script_items plain_browser 5 9 ≡ some (build_page_items 5 9)
bar_5_of_9 =
    script_items-Same plain_browser plain_browser-IsBrowser 5 9 (omega arith) (omega arith)
      (omega arith)

backup_row :
    shown_cells (render_row plain_browser (to_json format backup))
    ≡ record (template_row (seen format here like_all backup)) { result = backup.result }
backup_row =
    render_row-Same format here like_all plain_browser plain_browser-IsBrowser backup
      (seen format here like_all backup) (omega arith)
      (task_row-some format here like_all backup (omega arith) (omega arith))

backup_offers :
    All
      (Accepted backup calm
        (server table)
        (head refl)
        refl
        (omega arith)
        (omega arith)
        plain_browser
        plain_browser-IsBrowser
        pull_request
        (lit "secret")
        refl)
      (template_buttons (seen format here like_all backup))
backup_offers =
    offers_lem backup calm (server table) (head refl) refl (omega arith) (omega arith) plain_browser
      plain_browser-IsBrowser pull_request (lit "secret") refl format here like_all
      (seen format here like_all backup)
      (task_row-some format here like_all backup (omega arith) (omega arith))

abbrev midnight : NewTask
midnight = record {
  name = lit " backup ";
  command = lit "true";
  type = lit "cron";
  cron_expr = lit "0 0 0 * * *";
  max_retry = lit "3";
  timeout_sec = lit "300";
}

midnight_passes : validate_create_form midnight ≡ []
unfolding validate_create_form
midnight_passes = refl

midnight_parses :
    (midnight.type == lit "cron") ≡ true → some_crons (trim_space midnight.cron_expr) ≡ true
unfolding trim_space
midnight_parses e = refl

midnight_timeout : parse_number midnight.timeout_sec ≡ some (pos 300)
unfolding parse_number
midnight_timeout = refl

midnight_accepted :
    (req : CreateTaskRequest) × (payload plain_browser midnight ≡ some req)
    × ((validate some_crons req).0 ≡ (if midnight.type == lit "cron" then some cron else some once))
    × (parse_number midnight.max_retry ≡ some req.max_retry)
    × (req.timeout_sec ≡ pos 300)
midnight_accepted =
    payload-accepted plain_browser plain_browser-IsBrowser some_crons midnight (pos 300)
      midnight_passes midnight_timeout (omega arith) midnight_parses
