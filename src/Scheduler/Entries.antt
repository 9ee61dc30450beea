-- ===== src/Scheduler/Entries.antt =====
-- internal/server/scheduler.go: which definitions fire after a resync.
use worker_lightweight.Base.{
  ◌≡◌, refl, ◌∙◌, sym, Bool, true, ◌&&◌, List, [], ◌∷◌, ◌++◌, Text, select, arith, Bool-cases, inl,
  inr, ◌==◌,
}
use mathlib.Core.List.{append-nil, append_assoc}
use worker_lightweight.Model.{Task, cron, type_eq}
use worker_lightweight.Store.Db.{Db, Faults}
use worker_lightweight.Store.Control.{list_cron}
use worker_lightweight.Scheduler.{add_all, remove_all, resync}

abbrev pub is_scheduled : (Text → Bool) → Task → Bool
is_scheduled cron_parses d = (d.type == cron && d.enabled) && cron_parses d.cron_expr

remove_all-nil : (es : List Task) → remove_all es ≡ []
unfolding remove_all
remove_all-nil [] = refl
remove_all-nil (e ∷ es) = remove_all-nil es

add_all-append :
    (cron_parses : Text → Bool) (ds es : List Task)
    → add_all cron_parses ds es ≡ es ++ select (λ d. cron_parses d.cron_expr) ds
unfolding add_all
add_all-append cron_parses [] es = sym (append-nil es)
add_all-append cron_parses (d ∷ ds) es = elim (Bool-cases (cron_parses d.cron_expr)) [
  | inl e ↦ rw e (add_all-append cron_parses ds (es ++ d ∷ []) ∙ append_assoc es (d ∷ []) _)
  | inr e ↦ rw e (add_all-append cron_parses ds es)
]

pub select-select :
    (p q : Task → Bool) (ts : List Task) → select q (select p ts) ≡ select (λ t. p t && q t) ts
select-select p q [] = refl
select-select p q (t ∷ ts) = ground (arith, select-select p q ts)

-- When the database answers, the entries after a resync are exactly the enabled cron definitions
-- whose expression the cron library accepts, in the order of the table, whatever the entries were;
-- a resync that fails leaves the entries.
pub resync_lem :
    (cron_parses : Text → Bool) (db : Db) (entries : List Task) (fs : Faults)
    → (resync cron_parses [] db entries ≡ select (is_scheduled cron_parses) db.tasks)
      × (resync cron_parses (true ∷ fs) db entries ≡ entries)
unfolding resync list_cron
resync_lem cron_parses db entries fs = (
  rw (remove_all-nil entries) (
      add_all-append cron_parses (select (λ t. t.type == cron && t.enabled) db.tasks) []
      ∙ select-select _ _ db.tasks),
  refl,
)
