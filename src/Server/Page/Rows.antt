-- ===== src/Server/Page/Rows.antt =====
-- internal/server/ui_template.go: the rows of the task table, as the template writes them and as
-- renderRow of the script does. A cell of the template is its value, which html/template escapes.
use worker_lightweight.Base.{
  ◌≡◌, refl, ap, ◌∙◌, ℕ, Bool, true, false, ◌||◌, List, [], ◌∷◌, ◌++◌, some, pos, negsuc, ◌<ℤ◌,
  ◌≤ℤ◌, ◌^◌, ◌-◌, Text, lit, text_beq, ◌==◌, text_eq, nat_eq, if◌then◌else◌, arith,
}
use worker_lightweight.Model.{
  Task, type_text, status_text, ScheduleType, Status, once, cron, pending, running, success, failed,
  dead, stopped,
}
use worker_lightweight.Model.Json.{JsonTask, to_json}
use worker_lightweight.Server.Dashboard.Texts.{truncate}
use worker_lightweight.Server.Dashboard.Views.{TaskRow, task_row}
use worker_lightweight.Server.Page.Numbers.{number_text-itoa, number_text-IsWord, shown_text-IsWord}
use worker_lightweight.Server.Page.Script.{Browser, IsBrowser, IsSafe}
use worker_lightweight.Server.Page.Html.{
  escape_html, number_text, shown_text, shown_text-escape_html,
}

-- The link to the children of a definition, and a button that calls taskAction with this argument. The
-- field ID of a TaskRow is a Go string, which html/template writes as a quoted string of JavaScript;
-- renderRow writes a number.
pub data Button : Type 0 where
  history : (id : Text) → Button
  press : (id action : Text) → Button

pub record Cells : Type 0 where
  pub id : Text
  pub name : Text
  pub command : Text
  pub type : Text
  pub status : Text
  pub enabled : Text
  pub worker : Text
  pub result : Text
  pub updated : Text
  pub buttons : List Button

-- The cell of `enabled` shows its text in a badge if it is "paused".
abbrev pub enabled_cell : Bool → Text
enabled_cell enabled = if enabled then lit "yes" else lit "paused"

-- The actions of `{{range .Tasks}}`.
unfoldable pub template_buttons : TaskRow → List Button
unfolding text_beq
template_buttons r =
    (if r.type == lit "cron"
      then history r.id
        ∷ (if r.enabled then press r.id (lit "pause") else press r.id (lit "resume"))
        ∷ []
      else if r.status == lit "stopped"
      then press r.id (lit "restart") ∷ []
      else if r.status == lit "running" || r.status == lit "pending"
      then press r.id (lit "stop") ∷ []
      else [])
    ++ press r.id (lit "delete") ∷ []

unfoldable pub template_row : TaskRow → Cells
unfolding template_buttons
template_row r = record {
  id = r.id;
  name = r.name;
  command = r.command;
  type = r.type;
  status = r.status;
  enabled = enabled_cell r.enabled;
  worker = r.worker;
  result = r.result;
  updated = r.updated;
  buttons = template_buttons r;
}

-- How the script writes the id that it has read from the JSON.
module _ (js : Browser) where
  abbrev pub written_id : JsonTask → Text
  written_id t = js.write (js.read t.id)

  -- The string `actions` of renderRow.
  unfoldable pub script_buttons : JsonTask → List Button
  unfolding text_beq
  script_buttons t =
      let id = written_id t in
      (if t.type == lit "cron"
        then history id
          ∷ (if t.enabled then press id (lit "pause") ∷ [] else press id (lit "resume") ∷ [])
        else if t.status == lit "stopped"
        then press id (lit "restart") ∷ []
        else if t.status == lit "running" || t.status == lit "pending"
        then press id (lit "stop") ∷ []
        else [])
      ++ press id (lit "delete") ∷ []

  -- renderRow: the HTML of each cell. The type and the status are not escaped, and a member that
  -- the JSON leaves out is the empty text.
  unfoldable pub render_row : JsonTask → Cells
  unfolding escape_html script_buttons
  render_row t = record {
    id = written_id t;
    name = escape_html t.name;
    command = escape_html t.command;
    type = t.type;
    status = t.status;
    enabled = enabled_cell t.enabled;
    worker = escape_html t.worker_id;
    result = escape_html t.result;
    updated = escape_html t.updated_at;
    buttons = script_buttons t;
  }

-- What the browser shows of cells that hold HTML.
abbrev pub shown_cells : Cells → Cells
shown_cells c = record c {
  id = shown_text 0 c.id;
  name = shown_text 0 c.name;
  command = shown_text 0 c.command;
  type = shown_text 0 c.type;
  status = shown_text 0 c.status;
  enabled = shown_text 0 c.enabled;
  worker = shown_text 0 c.worker;
  result = shown_text 0 c.result;
  updated = shown_text 0 c.updated;
}

type_shown : (t : ScheduleType) → shown_text 0 (type_text t) ≡ type_text t
unfolding type_text shown_text
type_shown once = refl
type_shown cron = refl

status_shown : (st : Status) → shown_text 0 (status_text st) ≡ status_text st
unfolding status_text shown_text
status_shown pending = refl
status_shown running = refl
status_shown success = refl
status_shown failed = refl
status_shown dead = refl
status_shown stopped = refl

enabled_shown : (b : Bool) → shown_text 0 (enabled_cell b) ≡ enabled_cell b
unfolding shown_text
enabled_shown true = refl
enabled_shown false = refl

module _ (format : ℕ → Text) (addr : Text) (like : Text → Text → Bool) where
  -- The row of the template, with the decimal text of the id.
  abbrev pub seen : Task → TaskRow
  seen t = record {
    id = number_text t.id;
    name = t.name;
    command = t.command;
    type = type_text t.type;
    status = status_text t.status;
    worker = t.worker_id;
    result = truncate t.result 200;
    created = format t.created_at;
    updated = format t.updated_at;
    enabled = t.enabled;
  }

  pub task_row-some :
      (t : Task)
      → negsuc (2 ^ 63 - 1) <ℤ t.id
      → t.id ≤ℤ pos (2 ^ 63 - 1)
      → task_row format addr like t ≡ some (seen t)
  unfolding task_row
  task_row-some t low high = rw (number_text-itoa t.id low high) refl

  -- For a task whose id a double holds (at most 2 ^ 53 away from 0) and that the dashboard can show,
  -- the browser shows of the row that the script writes from the JSON of the task just what it
  -- shows of the row of the template, with the same buttons for the same id, but with the whole
  -- result, which the script does not cut.
  pub render_row-Same :
      (js : Browser)
      → IsBrowser js
      → (t : Task) (r : TaskRow) → IsSafe t.id
      → task_row format addr like t ≡ some r
      → shown_cells (render_row js (to_json format t))
        ≡ record (template_row r) { result = t.result }
  unfolding render_row template_row to_json template_buttons script_buttons
  render_row-Same js exact t r safe e =
      let written = task_row-some t (omega arith) (omega arith) in
      let same : r ≡ seen t = cc in
      let id : js.write (js.read t.id) ≡ number_text t.id =
        ap js.write (exact.reads t.id safe) ∙ exact.writes t.id safe in
      rw (same, id)
        (simp
          (
            shown_text-escape_html,
            type_shown,
            status_shown,
            enabled_shown,
            shown_text-IsWord (number_text t.id) (number_text-IsWord t.id),
          )
          (ground arith))
