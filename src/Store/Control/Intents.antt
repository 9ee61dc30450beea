-- ===== src/Store/Control/Intents.antt =====
-- internal/store/store.go: what the operations of Control are to do to the rows, in terms of the columns
-- and not of their code.
use worker_lightweight.Base.{
  ◌≡◌, refl, ℕ, inl, inr, Bool, true, false, ◌&&◌, ◌||◌, List, [], ◌∷◌, ℤ, pos, Text, lit, select,
  ◌==◌, int_eq, ltb_ℤ, Bool-cases,
}
use worker_lightweight.Model.{Task, pending, running, stopped, cron, status_eq, type_eq}
use worker_lightweight.Store.Db.{update_rows}

-- What the statements are to do to a row: stop it for a reason, or switch it on or off.
abbrev pub stopped_for : Text → ℕ → Task → Task
stopped_for reason now t = record t { status = stopped; result = reason; updated_at = now }

abbrev pub switched_to : Bool → ℕ → Task → Task
switched_to enabled now t = record t { enabled = enabled; updated_at = now }

-- The row may still be run: it waits or runs.
abbrev pub waits_or_runs : Task → Bool
waits_or_runs t = t.status == pending || t.status == running

-- No row of the result of an UPDATE passes a test that no updated row passes.
pub select-update_none :
    (p : Task → Bool) (f : Task → Task) (ts : List Task)
    → ((t : Task) → p (f t) ≡ false)
    → select p (update_rows p f ts) ≡ []
select-update_none p f [] h = refl
select-update_none p f (t ∷ ts) h = elim (Bool-cases (p t)) [
  | inl e ↦ rw (e, h t) (select-update_none p f ts h)
  | inr e ↦ rw (e, e) (select-update_none p f ts h)
]

-- What a resume is to do to a row: back to the queue, due at once, with no owner and no result.
abbrev pub queued_again : ℕ → ℕ → Task → Task
queued_again now now' t = record t {
  status = pending;
  worker_id = [];
  result = [];
  updated_at = now;
  next_run_at = now';
}

-- The children of a definition that wait or run.
abbrev pub live_child_of : ℤ → Task → Bool
live_child_of id t = t.parent_id == id && waits_or_runs t

-- The rows after SetEnabled.
abbrev pub switched : ℤ → Bool → ℕ → ℕ → List Task → List Task
switched id true now now' ts = update_rows (λ t. t.id == id) (switched_to true now) ts
switched id false now now' ts =
    update_rows (live_child_of id) (stopped_for (lit "stopped: cron paused") now')
      (update_rows (λ t. t.id == id) (switched_to false now) ts)

-- The rows after the first statement of StopAllCron.
abbrev pub paused_defs : ℕ → List Task → List Task
paused_defs now = update_rows (λ t. t.type == cron) (switched_to false now)

abbrev pub is_live_child : Task → Bool
is_live_child t = ltb_ℤ (pos 0) t.parent_id && waits_or_runs t
