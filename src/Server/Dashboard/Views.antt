-- ===== src/Server/Dashboard/Views.antt =====
-- internal/server/ui.go: what renderUI and renderTaskDetail give to their templates.
use worker_lightweight.Base.{
  ℕ, Bool, true, false, List, [], ◌∷◌, Option, none, some, ℤ, pos, pos_part, ltb_ℤ, leb_ℤ, Text,
  lit, parse_int, after_prefix, ◌==◌, text_eq, if◌then◌else◌,
}
use worker_lightweight.Model.{Task, WorkerInfo, cron, status_text, type_text, type_eq}
use worker_lightweight.Store.Db.{Db, Faults, Outcome, ok, err}
use worker_lightweight.Store.Tasks.{get}
use worker_lightweight.Store.Query.{ListFilter, list_tasks, count_tasks}
use worker_lightweight.Server.Types.{Request, State}
use worker_lightweight.Server.Registry.{list_workers}
use worker_lightweight.Server.Auth.{ui_auth}
use worker_lightweight.Server.Handlers.{page_of, page_size_of, offset_of, total_pages, filter_of}
use worker_lightweight.Server.Dashboard.Texts.{itoa, truncate}
use worker_lightweight.Server.Dashboard.Bar.{PageItem, build_page_items}

pub record TaskRow : Type 0 where
  pub id : Text
  pub name : Text
  pub command : Text
  pub type : Text
  pub status : Text
  pub worker : Text
  pub result : Text
  pub created : Text
  pub updated : Text
  pub enabled : Bool

pub record UiData : Type 0 where
  pub tasks : List TaskRow
  pub workers : List WorkerInfo
  pub now : Text
  pub server : Text
  pub token : Text
  pub current_status : Text
  pub filter : ListFilter
  pub parent_id : ℤ
  pub parent_name : Text
  pub page : ℤ
  pub page_size : ℤ
  pub total : ℕ
  pub total_pages : ℕ
  pub pages : List PageItem

-- The anonymous struct of renderTaskDetail.
pub record Detail : Type 0 where
  pub task : Task
  pub server : Text
  pub now : Text
  pub token : Text
  pub rows : List TaskRow

-- What a page handler writes: an error with its status, or a view handed to the template, which may
-- refuse it. `panicked` is a panic, which net/http recovers from.
pub data Page {ℓ} (A : Type ℓ) : Type ℓ where
  failed : (status : ℕ) → Text → Page A
  shown : A → Page A
  panicked : Page A

-- time.Format, the address of the listener and LIKE.
module _ (format : ℕ → Text) (addr : Text) (like : Text → Text → Bool) where
  abbrev row_with : Text → Task → Option Text → Option TaskRow
  row_with result t none = none
  row_with result t (some id) = some (record {
    id = id;
    name = t.name;
    command = t.command;
    type = type_text t.type;
    status = status_text t.status;
    worker = t.worker_id;
    result = result;
    created = format t.created_at;
    updated = format t.updated_at;
    enabled = t.enabled;
  })

  -- The row of the list, whose result is cut, and the row of a child on the page of its definition.
  unfoldable pub task_row : Task → Option TaskRow
  unfolding itoa truncate type_text status_text
  task_row t = row_with (truncate t.result 200) t (itoa t.id)

  unfoldable pub child_row : Task → Option TaskRow
  unfolding itoa type_text status_text
  child_row t = row_with t.result t (itoa t.id)

  abbrev cons_row : Option TaskRow → Option (List TaskRow) → Option (List TaskRow)
  cons_row (some r) (some rs) = some (r ∷ rs)
  cons_row _ _ = none

  unfoldable pub rows_of : (Task → Option TaskRow) → List Task → Option (List TaskRow)
  rows_of row [] = some []
  rows_of row (t ∷ ts) = cons_row (row t) (rows_of row ts)

  -- `all` is the tab without a filter.
  abbrev pub ui_filter : Request → ListFilter
  ui_filter r =
      let f = filter_of r in record f { status = if f.status == lit "all" then [] else f.status }

  abbrev name_of : Outcome Task → Text
  name_of (ok t) = t.name
  name_of (err e) = []

  abbrev pub parent_name_of : ℤ → Faults → Db → Text
  parent_name_of parent fs db = if ltb_ℤ (pos 0) parent then name_of (get parent fs db).0 else []

  abbrev pub dashboard_rows :
      Request → ListFilter → ℕ → ℕ → Faults → State → Option (List TaskRow) → Page UiData × State
  dashboard_rows r f total now fs s none = (panicked, s)
  dashboard_rows r f total now fs s (some rows) =
      let page = page_of (r.query (lit "page")) in
      let size = page_size_of (r.query (lit "page_size")) in
      let pages = total_pages total (pos_part size) in
      let live = list_workers now s.registry in
      (
        shown (record {
          tasks = rows;
          workers = live.0;
          now = format now;
          server = addr;
          token = s.token;
          current_status = if f.status == [] then lit "all" else f.status;
          filter = f;
          parent_id = f.parent_id;
          parent_name = parent_name_of f.parent_id fs s.db;
          page = page;
          page_size = size;
          total = total;
          total_pages = pages;
          pages = build_page_items (pos_part page) pages;
        }),
        record s { registry = live.1 },
      )

  abbrev pub dashboard_counted :
      Request → ListFilter → List Task → ℕ → Outcome ℕ × Faults × Db → State → Page UiData × State
  dashboard_counted r f tasks now (err e, fs, db) s = (failed 500 (lit "failed to count tasks"), s)
  dashboard_counted r f tasks now (ok total, fs, db) s =
      dashboard_rows r f total now fs s (rows_of task_row tasks)

  abbrev pub dashboard_listed :
      Request → ListFilter → ℕ → Outcome (List Task) × Faults × Db → State → Page UiData × State
  dashboard_listed r f now (err e, fs, db) s = (failed 500 (lit "failed to load tasks"), s)
  dashboard_listed r f now (ok tasks, fs, db) s =
      dashboard_counted r f tasks now (count_tasks like f fs db) s

  -- renderUI, up to the template.
  unfoldable pub render_ui : Request → Faults → ℕ → State → Page UiData × State
  unfolding ui_auth page_of page_size_of offset_of
  render_ui r fs now s =
      let f = ui_filter r in
      let page = page_of (r.query (lit "page")) in
      let size = page_size_of (r.query (lit "page_size")) in
      if ui_auth s.token r
      then dashboard_listed r f now (list_tasks like f (offset_of page size) size fs s.db) s
      else (failed 401 (lit "unauthorized"), s)

  abbrev detail_with : Task → ℕ → State → Option (List TaskRow) → Page Detail
  detail_with t now s none = panicked
  detail_with t now s (some rows) =
      shown (record { task = t; server = addr; now = format now; token = s.token; rows = rows })

  abbrev pub children_of : ℤ → ListFilter
  children_of id = record {
    name = [];
    command = [];
    type = [];
    status = [];
    worker = [];
    enabled = [];
    parent_id = id;
  }

  -- The children of a cron definition; a failure of the list leaves the page without them.
  abbrev kids : Outcome (List Task) → Option (List TaskRow)
  kids (ok ts) = rows_of child_row ts
  kids (err e) = some []

  abbrev pub detail_found : ℕ → State → Outcome Task × Faults × Db → Page Detail
  detail_found now s (err e, fs, db) = failed 404 (lit "task not found")
  detail_found now s (ok t, fs, db) = detail_with t now s (
      if t.type == cron
      then kids (list_tasks like (children_of t.id) (pos 0) (pos 100) fs db).0
      else some [])

  abbrev pub detail_by_id : ℕ → State → Faults → ℤ × Bool → Page Detail
  detail_by_id now s fs (id, false) = failed 400 (lit "invalid task id")
  detail_by_id now s fs (id, true) =
      if leb_ℤ id (pos 0)
      then failed 400 (lit "invalid task id")
      else detail_found now s (get id fs s.db)

  -- strings.TrimPrefix.
  abbrev trimmed : Text → Option Text → Text
  trimmed path none = path
  trimmed path (some rest) = rest

  -- renderTaskDetail, up to the template.
  unfoldable pub render_task_detail : Request → Faults → ℕ → State → Page Detail
  unfolding ui_auth after_prefix parse_int
  render_task_detail r fs now s =
      if ui_auth s.token r
      then detail_by_id now s fs (parse_int (trimmed r.path (after_prefix (lit "/tasks/") r.path)))
      else failed 401 (lit "unauthorized")
