-- ===== src/Server/Page/Board.antt =====
-- internal/server/ui_template.go: the state of the list's page in the browser, as the template
-- leaves it, and how the script renders an answer of the API.
use worker_lightweight.Base.{
  ℕ, Bool, true, false, List, [], ◌∷◌, map, Option, none, some, ℤ, pos, pos_part, ltb, leb_ℤ, Text,
  lit, text_beq, ◌==◌, text_eq, int_eq, if◌then◌else◌,
}
use worker_lightweight.Model.{Task}
use worker_lightweight.Model.Json.{to_json}
use worker_lightweight.Server.Types.{Payload, tasks}
use worker_lightweight.Server.Dashboard.Bar.{PageItem}
use worker_lightweight.Server.Dashboard.Views.{UiData}
use worker_lightweight.Server.Page.Html.{number_text}
use worker_lightweight.Server.Page.Script.{Browser}
use worker_lightweight.Server.Page.Rows.{Cells, template_row, render_row}
use worker_lightweight.Server.Page.Bar.{script_items}

-- The search form; an input that the page does not have is empty. FormData skips it.
pub record Form : Type 0 where
  pub parent_id : Text
  pub name : Text
  pub command : Text
  pub type : Text
  pub worker : Text
  pub enabled : Text

-- The page's elements `taskBody` and `pagination` may be missing. A page or a size that is `none` is
-- JavaScript's undefined. `active` is the status of the active tab, or empty.
pub record Board : Type 0 where
  pub form : Form
  pub active : Text
  pub page : Option ℤ
  pub page_size : Option ℤ
  pub has_table : Bool
  pub rows : List Cells
  pub has_bar : Bool
  pub bar_shown : Bool
  pub items : List PageItem
  pub total : Option ℕ
  pub token : Text

-- `<select>`: the option that is marked, or else the first one, whose value is empty.
abbrev pub selected : (options : List Text) → Text → Text
selected [] value = []
selected (o ∷ os) value = if value == o then o else selected os value

-- `{{if .ParentID}}<input type="hidden" name="parent_id" value="{{.ParentID}}">{{end}}`.
abbrev pub hidden_parent : ℤ → Text
hidden_parent parent = if parent == pos 0 then [] else number_text parent

abbrev pub tabs : List Text
tabs =
    lit "all"
    ∷ lit "pending"
    ∷ lit "running"
    ∷ lit "success"
    ∷ lit "failed"
    ∷ lit "stopped"
    ∷ lit "done"
    ∷ []

-- The numbers `{{.Page}}` and `{{.PageSize}}` of the script, and what a text input makes of its value:
-- browsers drop the line breaks.
module _ (js : Browser) (single_line : Text → Text) where
  -- The page that uiTmpl renders.
  unfoldable pub load : UiData → Board
  unfolding text_beq number_text template_row
  load d = record {
    form = record {
      parent_id = hidden_parent d.parent_id;
      name = single_line d.filter.name;
      command = single_line d.filter.command;
      type = selected (lit "once" ∷ lit "cron" ∷ []) d.filter.type;
      worker = single_line d.filter.worker;
      enabled = selected (lit "true" ∷ lit "false" ∷ []) d.filter.enabled;
    };
    active = selected tabs d.current_status;
    page = some (js.read d.page);
    page_size = some (js.read d.page_size);
    has_table = elim d.tasks [ [] ↦ false | _ ∷ _ ↦ true ];
    rows = map template_row d.tasks;
    has_bar = ltb 1 d.total_pages;
    bar_shown = ltb 1 d.total_pages;
    items = if ltb 1 d.total_pages then d.pages else [];
    total = some d.total;
    token = d.token;
  }

-- renderRows: the rows, where the page has the table.
abbrev pub render_rows : List Cells → Board → Board
render_rows rows b = if b.has_table then record b { rows = rows } else b

-- Setting innerHTML of an element that is missing throws; where the loop over the pages does not end,
-- the script does not get there.
abbrev pub with_items : Option (List PageItem) → Board → Board
with_items none b = if b.has_bar then record b { bar_shown = true } else b
with_items (some items) b = if b.has_bar then record b { bar_shown = true; items = items } else b

-- renderPagination of the numbers of the answer to the list, as the script has read them.
abbrev pub render_pagination :
    Browser → (total : ℕ) (page page_size total_pages : ℤ) → Board → Board
render_pagination js total page size pages b =
    if leb_ℤ pages (pos 1)
    then record b { total = some total; bar_shown = false }
    else with_items (script_items js (pos_part page) (pos_part pages))
        (record b { total = some total; page = some page; page_size = some size })

-- What the script makes of the answer of /api/tasks, which it reads whatever its status is: any other
-- object has neither tasks nor numbers.
module _ (js : Browser) (format : ℕ → Text) where
  abbrev pub script_rows : List Task → List Cells
  script_rows ts = map (λ t. render_row js (to_json format t)) ts

  unfoldable pub refreshed : Payload → Board → Board
  unfolding render_row to_json script_items
  refreshed (tasks ts total page size pages) b =
      render_pagination js (pos_part (js.read (pos total))) (js.read page) (js.read size)
        (js.read pages) (render_rows (script_rows ts) b)
  refreshed _ b =
      with_items (some [])
        (record (render_rows [] b) { total = none; page = none; page_size = none })
