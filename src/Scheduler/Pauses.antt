-- ===== src/Scheduler/Pauses.antt =====
-- internal/server/scheduler.go and internal/store/store.go: a pause and the round after it.
use worker_lightweight.Base.{
  ◌≡◌, refl, ◌∙◌, ap, ℕ, Bool, false, ◌&&◌, List, [], ◌∷◌, ℤ, Text, select, arith, ◌==◌, int_eq,
  if◌then◌else◌, lit,
}
use worker_lightweight.Model.{Task, type_eq}
use worker_lightweight.Store.Db.{Db, update_rows}
use worker_lightweight.Store.Rules.{Ensures, Ensures-weaken}
use worker_lightweight.Store.Control.{in_flight, toggled, halted, set_enabled}
use worker_lightweight.Store.Control.Effects.{Refused, Ensures-set_enabled}
use worker_lightweight.Store.Control.Intents.{switched}
use worker_lightweight.Scheduler.{Loop, resync_now, Wake, ticked, signalled, round}
use worker_lightweight.Scheduler.Entries.{is_scheduled, resync_lem, select-select}

-- A test that fails on every row as two updates leave it.
select-updated :
    (r p q : Task → Bool) (f g : Task → Task)
    → ((t : Task) → let u = (if p t then f t else t) in r (if q u then g u else u) ≡ false)
    → (ts : List Task) → select r (update_rows q g (update_rows p f ts)) ≡ []
select-updated r p q f g h [] = refl
select-updated r p q f g h (t ∷ ts) = rw (h t) (select-updated r p q f g h ts)

-- The entries of a loop for the definition.
abbrev pub entries_of : ℤ → Loop → List Task
entries_of id l = select (λ e. e.id == id) l.entries

module _ (cron_parses : Text → Bool) (id : ℤ) (now now' : ℕ) where
  paused : Task → Task
  paused t = if t.id == id then toggled false now t else t

  stopped_child : Task → Task
  stopped_child t =
      if t.parent_id == id && in_flight t then halted (lit "stopped: cron paused") now' t else t

  not_scheduled :
      (t : Task)
      → (is_scheduled cron_parses (stopped_child (paused t)) && (stopped_child (paused t)).id == id)
        ≡ false
  unfolding paused stopped_child
  not_scheduled t = ground arith

  none_scheduled :
      (ts : List Task)
      → select (λ e. e.id == id) (select (is_scheduled cron_parses) (switched id false now now' ts))
        ≡ []
  unfolding paused stopped_child
  none_scheduled ts =
      select-select (is_scheduled cron_parses) (λ e. e.id == id) (switched id false now now' ts)
      ∙ select-updated (λ t. is_scheduled cron_parses t && t.id == id) (λ t. t.id == id)
          (λ t. t.parent_id == id && in_flight t) (toggled false now)
          (halted (lit "stopped: cron paused") now') not_scheduled ts

  round_entries :
      (w : Wake) (db : Db) (l : Loop)
      → (round cron_parses w [] db (resync_now l)).entries
        ≡ select (is_scheduled cron_parses) db.tasks
  unfolding round resync_now
  round_entries ticked db l = (resync_lem cron_parses db l.entries []).0
  round_entries signalled db l = (resync_lem cron_parses db l.entries []).0

  gone :
      (db db' : Db) (w : Wake) (l : Loop)
      → db' ≡ record db { tasks = switched id false now now' db.tasks }
      → entries_of id (round cron_parses w [] db' (resync_now l)) ≡ []
  gone db db' w l e =
      ap (select (λ t. t.id == id)) (round_entries w db' l) ∙ rw e (none_scheduled db.tasks)

  -- Whatever faults SetEnabled meets, if it disables a definition, and ResyncNow is called, then in the
  -- next round of the scheduler, whether it comes by the ticker or by the signal, in which the database
  -- answers, no entry of the definition is left; if it fails, it changes nothing.
  pub paused_unscheduled :
      (w : Wake) (l : Loop) (db : Db)
      → Ensures
          (set_enabled id false now now')
          (λ _ db'. entries_of id (round cron_parses w [] db' (resync_now l)) ≡ [])
          (Refused db (λ t. t.id == id))
          db
  paused_unscheduled w l db =
      Ensures-weaken (λ a db' q. gone db db' w l q.1) (Ensures-set_enabled id false now now' db)
