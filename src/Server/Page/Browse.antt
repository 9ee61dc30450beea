-- ===== src/Server/Page/Browse.antt =====
-- internal/server/ui_template.go: what the controls of the list's page change, and the requests that
-- its script sends. The address that URLSearchParams writes is read by net/http as its pairs.
use mathlib.Core.Option
use worker_lightweight.Base.{
  List, [], ◌∷◌, ◌++◌, Option, none, some, ℤ, pos, ltb_ℤ, Text, lit, text_beq, parse_int, ◌==◌,
  text_eq, int_eq, if◌then◌else◌,
}
use worker_lightweight.Server.Types.{Request, Method, get, post, delete}
use worker_lightweight.Server.Page.Script.{Browser}
use worker_lightweight.Server.Page.Board.{Board, Form}

abbrev pub Params : Type 0
Params = List (Text × Text)

-- `if (v) params.set(k, v)`; no key is set twice.
abbrev pub set_unless_empty : Text → Text → Params → Params
set_unless_empty k v rest = if v == [] then rest else (k, v) ∷ rest

-- A tab other than `all`.
abbrev pub tab_params : Text → Params
tab_params s = if s == [] then [] else if s == lit "all" then [] else (lit "status", s) ∷ []

-- r.URL.Query().Get.
abbrev pub value_of : Params → Text → Text
value_of [] key = []
value_of ((k, v) ∷ ps) key = if key == k then v else value_of ps key

module _ (js : Browser) where
  -- `undefined > 1` is false, and `undefined !== 20` is true.
  abbrev pub page_params : Option ℤ → Params
  page_params none = []
  page_params (some p) = if ltb_ℤ (pos 1) p then (lit "page", js.write p) ∷ [] else []

  abbrev pub size_params : Option ℤ → Params
  size_params none = (lit "page_size", lit "undefined") ∷ []
  size_params (some n) = if n == pos 20 then [] else (lit "page_size", js.write n) ∷ []

  -- currentQueryString, with the inputs in the order of the form.
  unfoldable pub current_query : Board → Params
  unfolding text_beq
  current_query b = set_unless_empty (lit "parent_id") b.form.parent_id (
      set_unless_empty (lit "name") b.form.name (
        set_unless_empty (lit "command") b.form.command (
          set_unless_empty (lit "type") b.form.type (
            set_unless_empty (lit "worker") b.form.worker (
              set_unless_empty (lit "enabled") b.form.enabled
                (tab_params b.active ++ (page_params b.page ++ size_params b.page_size)))))))

  -- The Authorization header that the server finds of a request with authHeaders, and whether fetch
  -- sends the request at all.
  abbrev pub sent_headers : Text → Option (Text → Text)
  sent_headers token =
      if token == []
      then some (λ key. [])
      else Option.map (λ value key. if key == lit "Authorization" then value else [])
          (js.carried (lit "Bearer " ++ token))

  -- A request of the script without a body; `from` is the browser's connection.
  abbrev pub request : (from : Request) → Method → Text → Params → Text → Option Request
  request from method path ps token =
      Option.map
        (λ header. record from {
          method = method;
          path = path;
          query = value_of ps;
          header = header;
          create_body = none;
          result_body = none;
          worker_body = none;
        })
        (sent_headers token)

  -- The first request of refreshTable.
  unfoldable pub list_request : Request → Board → Option Request
  unfolding current_query
  list_request from b = request from get (lit "/api/tasks") (current_query b) b.token

  -- taskAction, once the user has confirmed a deletion, with the text of the id that the path takes. The
  -- template calls it with the string field ID of its row, which html/template writes in quotes, so
  -- that the text arrives as it is; a row of the script calls it with a number, whose text is that of
  -- written_id in Rows.
  unfoldable pub action_request : Request → Text → (id action : Text) → Option Request
  unfolding text_beq
  action_request from token id action =
      if action == lit "delete"
      then request from delete (lit "/api/tasks/" ++ id) [] token
      else request from post (lit "/api/tasks/" ++ (id ++ (lit "/" ++ action))) [] token

-- The controls; each then calls refreshTable.
unfoldable pub go_page : ℤ → Board → Board
go_page n b = record b { page = some (if ltb_ℤ n (pos 1) then pos 1 else n) }

-- `parseInt(sz, 10) || 20`, of an option of the page.
unfoldable pub change_page_size : Text → Board → Board
unfolding parse_int
change_page_size sz b =
    let n = (parse_int sz).0 in
    record b { page_size = some (if n == pos 0 then pos 20 else n); page = some (pos 1) }

-- The submission of the search form, once its inputs hold `form`, and a click on a tab.
unfoldable pub search : Form → Board → Board
search form b = record b { form = form }

unfoldable pub click_tab : Text → Board → Board
click_tab status b = record b { active = status }

-- The hidden input keeps its value.
unfoldable pub reset_search : Board → Board
reset_search b = record b {
  form = record {
    parent_id = b.form.parent_id;
    name = [];
    command = [];
    type = [];
    worker = [];
    enabled = [];
  };
  active = lit "all";
  page = some (pos 1);
}
