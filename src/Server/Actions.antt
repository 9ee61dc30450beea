-- ===== src/Server/Actions.antt =====
-- internal/server/server.go: what a request to /api/tasks/{id} does to the table, by its method and its
-- path, behind the rate limiter and the authentication.
use worker_lightweight.Base.{
  ◌≡◌, refl, ◌∙◌, ap, ◌-◌, ◌^◌, Bool, true, false, ◌⊎◌, inl, inr, List, [], ◌∷◌, ◌++◌, Option, ℤ,
  pos, negsuc, ◌<ℤ◌, ◌≤ℤ◌, Text, lit, text_beq, ◌==◌, text_eq, Bool-cases, beq-ne, arith,
}
use worker_lightweight.Model.{Task}
use worker_lightweight.Store.Db.{Db, Outcome, ok, err}
use worker_lightweight.Store.Tasks.{delete}
use worker_lightweight.Store.Control.{set_enabled, stop_task, resume_task}
use worker_lightweight.Server.Types.{Request, State, Method, get, post}
use worker_lightweight.Server.Auth.{Handler, Presents, auth, auth_lem}
use worker_lightweight.Server.Handlers.{
  get_task, delete_task, set_task_enabled, stop_one, restart_one, enabled_state,
}
use worker_lightweight.Server.Routes.{
  World, one_task, act, action_of, path_parts, task_by_id, by_parts, rate_limit, serve,
}
use worker_lightweight.Server.Page.Html.{number_text}
use worker_lightweight.Server.Page.Numbers.{IsWord, number_text-IsWord, parse_int-number_text}
use worker_lightweight.Server.Page.Origins.{read-filled}
use worker_lightweight.Server.Page.Paths.{path_parts-id, path_parts-action}

-- The requests that the API documents for one task.
pub data Wish : Type 0 where
  reads deletes pauses resumes stops restarts : Wish

abbrev pub method_of : Wish → Method
method_of reads = get
method_of deletes = Method.delete
method_of _ = post

abbrev pub path_of : Wish → ℤ → Text
path_of reads id = lit "/api/tasks/" ++ number_text id
path_of deletes id = lit "/api/tasks/" ++ number_text id
path_of pauses id = lit "/api/tasks/" ++ (number_text id ++ lit "/pause")
path_of resumes id = lit "/api/tasks/" ++ (number_text id ++ lit "/resume")
path_of stops id = lit "/api/tasks/" ++ (number_text id ++ lit "/stop")
path_of restarts id = lit "/api/tasks/" ++ (number_text id ++ lit "/restart")

-- The table after it.
abbrev pub table_after : Wish → ℤ → World → Db → Db
table_after reads id w db = db
table_after deletes id w db = (delete id w.faults db).2
table_after pauses id w db = (set_enabled id false w.now w.now' w.faults db).2
table_after resumes id w db = (set_enabled id true w.now w.now' w.faults db).2
table_after stops id w db = (stop_task id w.now w.faults db).2
table_after restarts id w db = (resume_task id w.now w.now' w.faults db).2

state_kept : (o : Outcome (Unit {0})) (s : State) → (enabled_state o s).db ≡ s.db
state_kept (ok _) s = refl
state_kept (err e) s = refl

let_in :
    (handler : Handler) (r : Request) (s : State)
    → (s.token ≡ []) ⊎ Presents s.token r
    → auth handler r s ≡ handler r s
let_in handler r s (inl e) = unfold auth in (rw e refl)
let_in handler r s (inr p) = elim (Bool-cases (s.token == [])) [
  | inl e ↦ unfold auth in (rw e refl)
  | inr e ↦ elim (auth_lem handler r s (beq-ne s.token [] e)) [
    | inl (_, q) ↦ q
    | inr (n, _) ↦ absurd (n p)
  ]
]

serve_allowed :
    (oldest : List Task → Option Task) (like : Text → Text → Bool) (cron_parses : Text → Bool)
    (w : World) (r : Request) (s : State)
    → w.allowed ≡ true
    → serve oldest like cron_parses one_task w r s ≡ auth (task_by_id w) r s
unfolding serve rate_limit
serve_allowed oldest like cron_parses w r s passes = rw passes refl

module _ (id : ℤ) (low : negsuc (2 ^ 63 - 1) <ℤ id) (high : id ≤ℤ pos (2 ^ 63 - 1)) (w : World)
    (s : State) where
  at_id :
      (m : Method)
      → (by_parts (number_text id ∷ []) m w s).1.db ≡ (act (action_of m []) id w s).1.db
  at_id m = rw (parse_int-number_text id low high) refl

  at_action :
      (m : Method) (a : Text)
      → (by_parts (number_text id ∷ a ∷ []) m w s).1.db ≡ (act (action_of m a) id w s).1.db
  at_action m a = rw (parse_int-number_text id low high) refl

  full : (number_text id == []) ≡ false
  full = read-filled id (number_text id) (parse_int-number_text id low high)

  parts_of :
      (a : Text)
      → IsWord a
      → (a == []) ≡ false
      → path_parts (lit "/api/tasks/" ++ (number_text id ++ (lit "/" ++ a)))
        ≡ number_text id ∷ a ∷ []
  parts_of a word named =
      path_parts-action (number_text id) a (number_text-IsWord id) full word named

  routed :
      (r : Request) (m : Method) (path : Text) (ps : List Text)
      → r.method ≡ m
      → r.path ≡ path
      → path_parts path ≡ ps
      → (task_by_id w r s).1.db ≡ (by_parts ps m w s).1.db
  unfolding task_by_id
  routed r m path ps e p q =
      let parts : path_parts r.path ≡ ps = ap path_parts p ∙ q in rw (parts, e) refl

  by_action :
      (r : Request) (a : Text)
      → r.method ≡ post
      → r.path ≡ lit "/api/tasks/" ++ (number_text id ++ (lit "/" ++ a))
      → IsWord a
      → (a == []) ≡ false
      → (task_by_id w r s).1.db ≡ (act (action_of post a) id w s).1.db
  by_action r a m p word named =
      routed r post _ (number_text id ∷ a ∷ []) m p (parts_of a word named) ∙ at_action post a

  by_id :
      (r : Request) (m : Method)
      → r.method ≡ m
      → r.path ≡ lit "/api/tasks/" ++ number_text id
      → (task_by_id w r s).1.db ≡ (act (action_of m []) id w s).1.db
  by_id r m e p =
      routed r m _ (number_text id ∷ []) e p
        (path_parts-id (number_text id) (number_text-IsWord id) full)
      ∙ at_id m

  by_wish :
      (a : Wish) (r : Request)
      → r.method ≡ method_of a
      → r.path ≡ path_of a id
      → (task_by_id w r s).1.db ≡ table_after a id w s.db
  unfolding act action_of text_beq get_task delete_task set_task_enabled stop_one restart_one
  by_wish reads r m p = by_id r get m p
  by_wish deletes r m p = by_id r Method.delete m p
  by_wish pauses r m p = by_action r (lit "pause") m p (omega arith) refl ∙ state_kept _ _
  by_wish resumes r m p = by_action r (lit "resume") m p (omega arith) refl ∙ state_kept _ _
  by_wish stops r m p = by_action r (lit "stop") m p (omega arith) refl
  by_wish restarts r m p = by_action r (lit "restart") m p (omega arith) refl

  -- A request to /api/tasks/{id}, or to pause, resume, stop or restart below it, by its method and its
  -- path, for the decimal text of an int64 above the least one: if the limiter lets it pass, and no
  -- token is configured or the request presents the token, then whatever faults the database meets,
  -- it leaves the table as the store's operation on this very id does: a GET leaves it as it is, a
  -- DELETE as Delete does, a pause as SetEnabled with false and a resume with true, a stop as
  -- StopTask, and a restart as ResumeTask.
  pub serve-wish :
      (oldest : List Task → Option Task) (like : Text → Text → Bool) (cron_parses : Text → Bool)
      (a : Wish) (r : Request)
      → r.method ≡ method_of a
      → r.path ≡ path_of a id
      → w.allowed ≡ true
      → (s.token ≡ []) ⊎ Presents s.token r
      → (serve oldest like cron_parses one_task w r s).1.db ≡ table_after a id w s.db
  serve-wish oldest like cron_parses a r m p passes known =
      ap (λ o. o.1.db)
        (serve_allowed oldest like cron_parses w r s passes ∙ let_in (task_by_id w) r s known)
      ∙ by_wish a r m p
