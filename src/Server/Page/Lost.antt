-- ===== src/Server/Page/Lost.antt =====
-- internal/server/ui_template.go: a page that was rendered without a table or without a pagination
-- bar.
use worker_lightweight.Base.{◌≡◌, refl, ℕ, ◌≤◌, false, List, [], ◌∷◌, Text, arith}
use worker_lightweight.Server.Types.{
  Payload, error, store_error, done, task, tasks, pulled, workers,
}
use worker_lightweight.Server.Dashboard.Views.{UiData}
use worker_lightweight.Server.Page.Script.{Browser}
use worker_lightweight.Server.Page.Board.{Board, load, refreshed}

-- The page shows no row and no page button, and has nowhere to put them.
record IsBlank (b : Board) : Type 0 where
  table : b.has_table ≡ false
  rows : b.rows ≡ []
  bar : b.has_bar ≡ false
  items : b.items ≡ []

module _ (js : Browser) (format : ℕ → Text) where
  -- The answers to any number of refreshes.
  abbrev pub refresh_all : List Payload → Board → Board
  refresh_all [] b = b
  refresh_all (p ∷ ps) b = refresh_all ps (refreshed js format p b)

  error-IsBlank : (b : Board) → IsBlank b → IsBlank (refreshed js format done b)
  unfolding refreshed
  error-IsBlank b h = record {
    table = ground (arith, h.table, h.bar);
    rows = ground (arith, h.table, h.bar, h.rows);
    bar = ground (arith, h.table, h.bar);
    items = ground (arith, h.table, h.bar, h.items);
  }

  refreshed-IsBlank : (p : Payload) (b : Board) → IsBlank b → IsBlank (refreshed js format p b)
  unfolding refreshed
  refreshed-IsBlank (tasks ts total page size pages) b h = record {
    table = ground (arith, h.table, h.bar);
    rows = ground (arith, h.table, h.bar, h.rows);
    bar = ground (arith, h.table, h.bar);
    items = ground (arith, h.table, h.bar, h.items);
  }
  refreshed-IsBlank (error m) b h = error-IsBlank b h
  refreshed-IsBlank store_error b h = error-IsBlank b h
  refreshed-IsBlank done b h = error-IsBlank b h
  refreshed-IsBlank (task t) b h = error-IsBlank b h
  refreshed-IsBlank (pulled r) b h = error-IsBlank b h
  refreshed-IsBlank (workers ws) b h = error-IsBlank b h

  refresh_all-IsBlank : (ps : List Payload) (b : Board) → IsBlank b → IsBlank (refresh_all ps b)
  refresh_all-IsBlank [] b h = h
  refresh_all-IsBlank (p ∷ ps) b h = refresh_all-IsBlank ps _ (refreshed-IsBlank p b h)

  module _ (single_line : Text → Text) where
    -- A page that the dashboard rendered with no rows and on one page never shows a row or a page
    -- button, however often its script refreshes it and whatever the API answers.
    pub refresh_all-blank :
        (d : UiData) (ps : List Payload)
        → d.tasks ≡ []
        → d.total_pages ≤ 1
        → let b = refresh_all ps (load js single_line d) in (b.rows ≡ []) × (b.items ≡ [])
    unfolding load
    refresh_all-blank d ps empty one =
        let blank : IsBlank (load js single_line d) = record {
          table = rw empty refl;
          rows = rw empty refl;
          bar = ground arith;
          items = ground arith;
        } in
        let h = refresh_all-IsBlank ps (load js single_line d) blank in (h.rows, h.items)
