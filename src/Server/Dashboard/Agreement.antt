-- ===== src/Server/Dashboard/Agreement.antt =====
-- internal/server/ui.go and internal/server/server.go: the dashboard and the task list of the API.
use worker_lightweight.Base.{
  ◌≡◌, ◌≢◌, refl, ℕ, Bool, true, List, Option, none, some, ℤ, pos, pos_part, Text, lit, text_eq,
  ne→beq,
}
use worker_lightweight.Model.{Task}
use worker_lightweight.Store.Db.{Db, Faults, Outcome, ok, err}
use worker_lightweight.Store.Query.{ListFilter, list_tasks, count_tasks}
use worker_lightweight.Server.Types.{
  Request, State, Payload, error, store_error, done, task, tasks, pulled, workers,
}
use worker_lightweight.Server.Auth.{ui_auth}
use worker_lightweight.Server.Handlers.{
  page_of, page_size_of, offset_of, filter_of, listed, count_page, list_page,
}
use worker_lightweight.Server.Dashboard.Bar.{build_page_items}
use worker_lightweight.Server.Dashboard.Views.{
  TaskRow, UiData, Page, failed, shown, panicked, task_row, rows_of, dashboard_rows,
  dashboard_counted, dashboard_listed, render_ui, ui_filter,
}

module _ (format : ℕ → Text) (addr : Text) (like : Text → Text → Bool) where
  abbrev rows : List Task → Option (List TaskRow)
  rows = rows_of format addr like (task_row format addr like)

  -- The dashboard shows what the API lists: the same rows, counts and pages, and it fails where the
  -- API does.
  abbrev pub Agrees : Payload → Page UiData → Type 0
  Agrees (tasks ts total page size pages) (shown d) =
      (rows ts ≡ some d.tasks)
      × (d.total ≡ total)
      × (d.page ≡ page)
      × (d.page_size ≡ size)
      × (pos d.total_pages ≡ pages)
      × (d.pages ≡ build_page_items (pos_part page) (pos_part pages))
  Agrees (tasks ts total page size pages) panicked = rows ts ≡ none
  Agrees (tasks ts total page size pages) (failed status message) = ⊥
  Agrees store_error (failed status message) = status ≡ 500
  Agrees store_error (shown d) = ⊥
  Agrees store_error panicked = ⊥
  Agrees (error message) p = ⊥
  Agrees done p = ⊥
  Agrees (task t) p = ⊥
  Agrees (pulled r) p = ⊥
  Agrees (workers ws) p = ⊥

  module _ (r : Request) (f : ListFilter) (now : ℕ) (s : State) where
    abbrev page : ℤ
    page = page_of (r.query (lit "page"))

    abbrev size : ℤ
    size = page_size_of (r.query (lit "page_size"))

    counted-Agrees :
        (ts : List Task) (c : Outcome ℕ × Faults × Db)
        → Agrees
            (listed page size ts c.0).payload
            (dashboard_counted format addr like r f ts now c s).0
    counted-Agrees ts (err e, fs, db) = refl
    counted-Agrees ts (ok total, fs, db) = from (rows ts) refl
      where
        from :
            (o : Option (List TaskRow))
            → rows ts ≡ o
            → Agrees
                (listed page size ts (ok total)).payload
                (dashboard_rows format addr like r f total now fs s o).0
        from none e = e
        from (some shown_rows) e = (e, refl, refl, refl, refl, refl)

    listed-Agrees :
        (o : Outcome (List Task) × Faults × Db)
        → Agrees
            (count_page like f page size o).payload
            (dashboard_listed format addr like r f now o s).0
    listed-Agrees (err e, fs, db) = refl
    listed-Agrees (ok ts, fs, db) = counted-Agrees ts (count_tasks like f fs db)

  -- Another request that asks the task list of the API for what `r` asks the dashboard.
  pub record AsksAlike (r r' : Request) : Type 0 where
    pub filters : filter_of r' ≡ ui_filter format addr like r
    pub pages : page_of (r'.query (lit "page")) ≡ page_of (r.query (lit "page"))
    pub sizes : page_size_of (r'.query (lit "page_size")) ≡ page_size_of (r.query (lit "page_size"))

  pub list_page-Agrees :
      (r r' : Request) (fs : Faults) (now : ℕ) (s : State)
      → ui_auth s.token r ≡ true
      → AsksAlike r r'
      → Agrees (list_page like r' fs s).0.payload (render_ui format addr like r fs now s).0
  unfolding render_ui list_page
  list_page-Agrees r r' fs now s auth alike =
      let f = ui_filter format addr like r in
      let p = page_of (r.query (lit "page")) in
      let n = page_size_of (r.query (lit "page_size")) in
      rw (auth, alike.filters, alike.pages, alike.sizes)
        (listed-Agrees r f now s (list_tasks like f (offset_of p n) n fs s.db))

  -- For a request that is let in and does not ask for the tab of all tasks, and for whatever faults,
  -- the dashboard shows the rows, the counts and the pages that the task list of the API answers,
  -- and fails where it fails.
  pub render_ui-Agrees :
      (r : Request) (now : ℕ) (s : State) (fs : Faults)
      → ui_auth s.token r ≡ true
      → r.query (lit "status") ≢ lit "all"
      → Agrees (list_page like r fs s).0.payload (render_ui format addr like r fs now s).0
  render_ui-Agrees r now s fs auth status = list_page-Agrees r r fs now s auth (record {
    filters = rw (ne→beq (r.query (lit "status")) (lit "all") status) refl;
    pages = refl;
    sizes = refl;
  })
