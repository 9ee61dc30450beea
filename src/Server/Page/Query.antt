-- ===== src/Server/Page/Query.antt =====
-- internal/server/ui_template.go: what the script of a loaded page asks the API for.
use worker_lightweight.Base.{
  ◌≡◌, refl, sym, [], ◌++◌, Option, none, some, ℤ, pos, ltb_ℤ, Text, lit, text_beq, ◌==◌, text_eq,
  int_eq, if◌then◌else◌, Bool-cases, inl, inr, arith, beq→eq,
}
use worker_lightweight.Server.Page.Script.{Browser}
use worker_lightweight.Server.Page.Board.{Board}
use worker_lightweight.Server.Page.Browse.{
  Params, set_unless_empty, tab_params, page_params, size_params, current_query, value_of,
}

set_lem :
    (k v : Text) (rest : Params) (key : Text)
    → value_of (set_unless_empty k v rest) key
      ≡ (if key == k then (if v == [] then value_of rest key else v) else value_of rest key)
set_lem k v rest key = ground arith

-- The text itself is empty where the test says so.
kept_text : (v : Text) → (if v == [] then [] else v) ≡ v
kept_text v = elim (Bool-cases (v == [])) [ inl e ↦ rw e (sym (beq→eq v [] e)) | inr e ↦ rw e refl ]

abbrev pub tab_text : Text → Text
tab_text s = if s == lit "all" then [] else s

tab_lem :
    (s : Text) (rest : Params) (key : Text)
    → value_of rest (lit "status") ≡ []
    → value_of (tab_params s ++ rest) key
      ≡ (if key == lit "status" then tab_text s else value_of rest key)
tab_lem s rest key h = elim (Bool-cases (key == lit "status")) [
  | inl e ↦ rw (beq→eq key (lit "status") e) (unfold text_beq in ground (arith, kept_text s))
  | inr e ↦ rw e (ground arith)
]

module _ (js : Browser) where
  abbrev pub size_text : Option ℤ → Text
  size_text none = lit "undefined"
  size_text (some n) = if n == pos 20 then [] else js.write n

  abbrev pub page_text : Option ℤ → Text
  page_text none = []
  page_text (some n) = if ltb_ℤ (pos 1) n then js.write n else []

  size_lem :
      (n : Option ℤ) (key : Text)
      → value_of (size_params js n) key ≡ (if key == lit "page_size" then size_text n else [])
  size_lem none key = refl
  size_lem (some n) key = ground arith

  page_lem :
      (p : Option ℤ) (rest : Params) (key : Text)
      → value_of rest (lit "page") ≡ []
      → value_of (page_params js p ++ rest) key
        ≡ (if key == lit "page" then page_text p else value_of rest key)
  page_lem none rest key h = elim (Bool-cases (key == lit "page")) [
    | inl e ↦ rw (e, beq→eq key (lit "page") e) h
    | inr e ↦ rw e refl
  ]
  page_lem (some p) rest key h = elim (Bool-cases (key == lit "page")) [
    | inl e ↦ rw (beq→eq key (lit "page") e) (unfold text_beq in ground (arith))
    | inr e ↦ rw e (ground (arith))
  ]

  module _ (b : Board) where
    pub asks_name : value_of (current_query js b) (lit "name") ≡ b.form.name
    unfolding current_query text_beq
    asks_name = simp (set_lem, tab_lem, page_lem, size_lem, kept_text)

    pub asks_command : value_of (current_query js b) (lit "command") ≡ b.form.command
    unfolding current_query text_beq
    asks_command = simp (set_lem, tab_lem, page_lem, size_lem, kept_text)

    pub asks_type : value_of (current_query js b) (lit "type") ≡ b.form.type
    unfolding current_query text_beq
    asks_type = simp (set_lem, tab_lem, page_lem, size_lem, kept_text)

    pub asks_worker : value_of (current_query js b) (lit "worker") ≡ b.form.worker
    unfolding current_query text_beq
    asks_worker = simp (set_lem, tab_lem, page_lem, size_lem, kept_text)

    pub asks_enabled : value_of (current_query js b) (lit "enabled") ≡ b.form.enabled
    unfolding current_query text_beq
    asks_enabled = simp (set_lem, tab_lem, page_lem, size_lem, kept_text)

    pub asks_parent_id : value_of (current_query js b) (lit "parent_id") ≡ b.form.parent_id
    unfolding current_query text_beq
    asks_parent_id = simp (set_lem, tab_lem, page_lem, size_lem, kept_text)

    pub asks_status : value_of (current_query js b) (lit "status") ≡ tab_text b.active
    unfolding current_query text_beq
    asks_status = simp (set_lem, tab_lem, page_lem, size_lem)

    pub asks_page : value_of (current_query js b) (lit "page") ≡ page_text b.page
    unfolding current_query text_beq
    asks_page = simp (set_lem, tab_lem, page_lem, size_lem)

    pub asks_page_size : value_of (current_query js b) (lit "page_size") ≡ size_text b.page_size
    unfolding current_query text_beq
    asks_page_size = simp (set_lem, tab_lem, page_lem, size_lem)
