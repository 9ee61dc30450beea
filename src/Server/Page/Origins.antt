-- ===== src/Server/Page/Origins.antt =====
-- internal/server/ui_template.go: the values that a page takes from the request that it was rendered
-- for, and how the server reads them when the script gives them back.
use worker_lightweight.Base.{
  ◌≡◌, refl, sym, subst, ℕ, ◌-◌, ◌^◌, Bool, true, false, List, [], ◌∷◌, Option, none, some, ℤ, pos,
  negsuc, ltb_ℤ, ◌<ℤ◌, ◌≤ℤ◌, Text, lit, text_beq, parse_int, ◌==◌, text_eq, int_eq, if◌then◌else◌,
  Bool-cases, inl, inr, arith, beq→eq,
}
use worker_lightweight.Model.{Task}
use worker_lightweight.Store.Db.{Db, Faults, Outcome, ok, err}
use worker_lightweight.Store.Query.{count_tasks, list_tasks}
use worker_lightweight.Server.Types.{Request, State}
use worker_lightweight.Server.Auth.{ui_auth}
use worker_lightweight.Server.Handlers.{page_of, page_size_of, offset_of, parse_parent_id}
use worker_lightweight.Server.Dashboard.Views.{
  TaskRow, UiData, Page, failed, shown, panicked, task_row, rows_of, dashboard_rows,
  dashboard_counted, dashboard_listed, render_ui, ui_filter,
}
use worker_lightweight.Server.Page.Html.{number_text}
use worker_lightweight.Server.Page.Script.{Browser, IsBrowser}
use worker_lightweight.Server.Page.Numbers.{parse_int-number_text}
use worker_lightweight.Server.Page.Board.{selected, hidden_parent, tabs}
use worker_lightweight.Server.Page.Query.{size_text, page_text, tab_text}

-- A text that is read as a number is not empty.
pub read-filled : (p : ℤ) (s : Text) → parse_int s ≡ (p, true) → (s == []) ≡ false
unfolding parse_int text_beq
read-filled p [] h = cc
read-filled p (c ∷ s) h = refl

pub parent_read :
    (p : ℤ)
    → negsuc (2 ^ 63 - 1) <ℤ p
    → p ≤ℤ pos (2 ^ 63 - 1)
    → parse_parent_id (hidden_parent p) ≡ p
unfolding parse_parent_id
parent_read p low high = elim (Bool-cases (p == pos 0)) [
  | inl e ↦ rw e (unfold text_beq in sym (beq→eq p (pos 0) e))
  | inr e ↦
      let read = parse_int-number_text p low high in
      rw (e, read-filled p (number_text p) read, read) refl
]

module _ (js : Browser) (exact : IsBrowser js) where
  pub page_read : (p : ℤ) → pos 1 ≤ℤ p → p ≤ℤ pos (2 ^ 53) → page_of (page_text js (some p)) ≡ p
  unfolding page_of
  page_read p low high = elim (Bool-cases (ltb_ℤ (pos 1) p)) [
    | inl e ↦
        rw (e, exact.writes p (omega arith), parse_int-number_text p (omega arith) (omega arith))
          (ground arith)
    | inr e ↦ rw e (unfold parse_int in (ground arith))
  ]

  pub size_read : (n : ℤ) → pos 1 ≤ℤ n → n ≤ℤ pos 500 → page_size_of (size_text js (some n)) ≡ n
  unfolding page_size_of
  size_read n low high = elim (Bool-cases (n == pos 20)) [
    | inl e ↦ rw e (unfold parse_int in sym (beq→eq n (pos 20) e))
    | inr e ↦
        rw (e, exact.writes n (omega arith), parse_int-number_text n (omega arith) (omega arith))
          (ground arith)
  ]

pub page_of-low : (s : Text) → pos 1 ≤ℤ page_of s
unfolding page_of
page_of-low s = ground arith

pub page_size_of-low : (s : Text) → pos 1 ≤ℤ page_size_of s
unfolding page_size_of
page_size_of-low s = ground arith

pub page_size_of-high : (s : Text) → page_size_of s ≤ℤ pos 500
unfolding page_size_of
page_size_of-high s = ground arith

-- The tab that the template marks, and what the script asks for on it.
pub status_read :
    (q : Text)
    → selected tabs q ≡ q
    → let f = if q == lit "all" then [] else q in
      tab_text (selected tabs (if f == [] then lit "all" else f)) ≡ f
status_read q kept = elim (Bool-cases (q == lit "all")) [
  | inl e ↦ rw e (unfold text_beq in refl)
  | inr e ↦ elim (Bool-cases (q == [])) [
    | inl f ↦ rw (e, f) (unfold text_beq in sym (beq→eq q [] f))
    | inr f ↦ rw (e, f, kept, e) refl
  ]
]

-- Where the page comes from.
pub record Comes (addr : Text) (like : Text → Text → Bool) (format : ℕ → Text) (r : Request)
    (s : State) (d : UiData) : Type 0 where
  pub filter : d.filter ≡ ui_filter format addr like r
  pub parent : d.parent_id ≡ d.filter.parent_id
  pub status : d.current_status ≡ (if d.filter.status == [] then lit "all" else d.filter.status)
  pub page : d.page ≡ page_of (r.query (lit "page"))
  pub size : d.page_size ≡ page_size_of (r.query (lit "page_size"))
  pub token : d.token ≡ s.token

module _ (format : ℕ → Text) (addr : Text) (like : Text → Text → Bool) where
  abbrev AllCome : Request → State → Page UiData → Type 0
  AllCome r s (failed status message) = Unit
  AllCome r s panicked = Unit
  AllCome r s (shown d) = Comes addr like format r s d

  module _ (r : Request) (now : ℕ) (s : State) where
    rows-AllCome :
        (fs : Faults) (total : ℕ) (o : Option (List TaskRow))
        → AllCome r s
            (dashboard_rows format addr like r (ui_filter format addr like r) total now fs s o).0
    rows-AllCome fs total none = tt
    rows-AllCome fs total (some rows) = record {
      filter = refl;
      parent = refl;
      status = refl;
      page = refl;
      size = refl;
      token = refl;
    }

    counted-AllCome :
        (ts : List Task) (c : Outcome ℕ × Faults × Db)
        → AllCome r s
            (dashboard_counted format addr like r (ui_filter format addr like r) ts now c s).0
    counted-AllCome ts (err e, fs, db) = tt
    counted-AllCome ts (ok total, fs, db) =
        rows-AllCome fs total (rows_of format addr like (task_row format addr like) ts)

    listed-AllCome :
        (o : Outcome (List Task) × Faults × Db)
        → AllCome r s (dashboard_listed format addr like r (ui_filter format addr like r) now o s).0
    listed-AllCome (err e, fs, db) = tt
    listed-AllCome (ok ts, fs, db) =
        counted-AllCome ts (count_tasks like (ui_filter format addr like r) fs db)

  pub render_ui-Comes :
      (r : Request) (fs : Faults) (now : ℕ) (s : State) (d : UiData)
      → (render_ui format addr like r fs now s).0 ≡ shown d
      → (ui_auth s.token r ≡ true) × Comes addr like format r s d
  unfolding render_ui
  render_ui-Comes r fs now s d e = elim (Bool-cases (ui_auth s.token r)) [
    | inr out ↦ absurd (cc (rw out at e))
    | inl entered ↦ (
      entered,
      subst (AllCome r s) (rw entered at e) (
          listed-AllCome r now s (
            list_tasks like (ui_filter format addr like r)
              (offset_of (page_of (r.query (lit "page")))
                (page_size_of (r.query (lit "page_size"))))
              (page_size_of (r.query (lit "page_size"))) fs s.db)),
    )
  ]
