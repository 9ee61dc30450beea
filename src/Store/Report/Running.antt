-- ===== src/Store/Report/Running.antt =====
-- internal/store/store.go: a report on a task that was just claimed.
use worker_lightweight.Base.{
  ◌≡◌, refl, ◌∙◌, ap, sym, ℕ, Bool, true, false, ◌&&◌, List, [], ◌∷◌, ℤ, pos, Text, some, find, In,
  head, tail, ◌==◌, int_eq, text_eq, beq_self, beq→eq, if◌then◌else◌, Bool-cases, inl, inr, arith,
}
use worker_lightweight.Model.{
  Task, Result, Status, pending, running, success, failed, dead, stopped, status_eq,
}
use worker_lightweight.Store.Db.{Db, ok, update, update_rows}
use worker_lightweight.Store.Claim.{claimed}
use worker_lightweight.Store.Report.{requeued, settled, write_outcome, report_result}
use worker_lightweight.Store.Report.Effects.{has_id, next_status, next_retry, outcome_rows}
use worker_lightweight.Store.Life.Rows.{IsValid, In-unique}

-- What a report on the running `row` makes of it.
abbrev pub finished : Result → ℕ → Task → Task → Task
finished r now row t =
    if next_status r now row == pending
    then requeued r (next_retry r now row) now t
    else settled r (next_status r now row) (next_retry r now row) now t

write_now :
    (r : Result) (s : Status) (retry : ℤ) (now : ℕ) (db : Db)
    → write_outcome r s retry now [] db
      ≡ (ok tt, [], record db { tasks = outcome_rows r now s retry db.tasks })
unfolding update
write_now r pending retry now db = refl
write_now r running retry now db = refl
write_now r success retry now db = refl
write_now r failed retry now db = refl
write_now r dead retry now db = refl
write_now r stopped retry now db = refl

report_running :
    (r : Result) (now : ℕ) (db : Db) (row : Task)
    → find (has_id r now) db.tasks ≡ some row
    → row.worker_id ≡ r.worker_id
    → row.status ≡ running
    → report_result r now [] db ≡ (
      ok tt,
      [],
      record db {
        tasks = outcome_rows r now (next_status r now row) (next_retry r now row) db.tasks;
      },
    )
unfolding report_result
report_running r now db row found owner was =
    rw
      (
        found,
        owner,
        beq_self r.worker_id,
        was,
        write_now r (next_status r now row) (next_retry r now row) now db,
      )
      refl

-- Two updates of which the second selects what the first did.
merged :
    (p q : Task → Bool) (f g : Task → Task) (ts : List Task)
    → ((t : Task) → In t ts → q (if p t then f t else t) ≡ p t)
    → update_rows q g (update_rows p f ts) ≡ update_rows p (λ t. g (f t)) ts
merged p q f g [] h = refl
merged p q f g (t ∷ ts) h =
    let rest = merged p q f g ts (λ u i. h u (tail i)) in
    let here = h t (head refl) in ground (arith, rest)

later_row :
    (id : ℤ) (row t : Task) (ts : List Task)
    → In row (t ∷ ts)
    → (row.id == id) ≡ true
    → (t.id == id) ≡ false
    → In row ts
later_row id row t ts (head h) same other = absurd (clash (rw h at same) other)
  where
    clash : (t.id == id) ≡ true → (t.id == id) ≡ false → ⊥
    clash p q = ground arith
later_row id row t ts (tail i) same other = i

-- The row that the UPDATE of the claim selects, and what the SELECT of the report finds of it.
pub find-claimed :
    (p : Task → Bool) (f : Task → Task) (id : ℤ) (row : Task) (ts : List Task)
    → ((t : Task) → (f t).id ≡ t.id)
    → ((t : Task) → In t ts → (t.id == id) ≡ true → t ≡ row)
    → In row ts
    → (row.id == id) ≡ true
    → p row ≡ true
    → find (λ t. t.id == id) (update_rows p f ts) ≡ some (f row)
find-claimed p f id row [] keeps only i same hit = elim i [ ]
find-claimed p f id row (t ∷ ts) keeps only i same hit = elim (Bool-cases (t.id == id)) [
  | inl e ↦ let here = only t (head refl) e in rw (here, hit, keeps row, same) refl
  | inr e ↦
      let kept : (if p t then f t else t).id ≡ t.id = ground (arith, keeps t) in
      rw (kept, e)
        (find-claimed p f id row ts keeps (λ u j. only u (tail j)) (later_row id row t ts i same e)
          same hit)
]

-- A claim of `row` and a report on it, with a database that answers, replace the row by its outcome.
pub report_claimed :
    (r : Result) (worker : Text) (now now' : ℕ) (db : Db) (row : Task)
    → IsValid db
    → In row db.tasks
    → row.status ≡ pending
    → r.task_id ≡ row.id
    → r.worker_id ≡ worker
    → let p = λ (t : Task). t.id == row.id && t.status == pending in
      report_result r now' [] (record db { tasks = update_rows p (claimed worker now) db.tasks })
      ≡ (
        ok tt,
        [],
        record db {
          tasks = update_rows p (λ t. finished r now' row (claimed worker now t)) db.tasks;
        },
      )
report_claimed r worker now now' db row v i waits same own =
    report_running r now' mid (claimed worker now row) found (sym own) refl
    ∙ ap (λ ts. (ok tt, [], record db { tasks = ts })) (go (next_status r now' row) refl)
  where
    p : Task → Bool
    p t = t.id == row.id && t.status == pending

    mid : Db
    mid = record db { tasks = update_rows p (claimed worker now) db.tasks }

    only : (t : Task) → In t db.tasks → (t.id == row.id) ≡ true → t ≡ row
    only t j e = In-unique (pos 0) t row db.tasks v.ascends j i (beq→eq t.id row.id e)

    found : find (has_id r now') mid.tasks ≡ some (claimed worker now row)
    found = rw same (
        find-claimed p (claimed worker now) row.id row db.tasks (λ t. refl) only i (beq_self row.id)
          (rw (beq_self row.id, waits) refl))

    settles :
        (t : Task)
        → In t db.tasks
        → ((if p t then claimed worker now t else t).id == r.task_id) ≡ p t
    settles t j = elim (Bool-cases (t.id == row.id)) [
      | inl e ↦ rw (only t j e, same, beq_self row.id, waits, beq_self row.id) refl
      | inr e ↦ rw (same, e, e) refl
    ]

    requeues :
        (t : Task)
        → In t db.tasks
        → ((if p t then claimed worker now t else t).id == r.task_id
            && (if p t then claimed worker now t else t).status == running)
          ≡ p t
    requeues t j = elim (Bool-cases (t.id == row.id)) [
      | inl e ↦ rw (only t j e, same, beq_self row.id, waits, beq_self row.id) refl
      | inr e ↦ rw (same, e, e) refl
    ]

    settle_all :
        (s : Status)
        → update_rows (λ t. t.id == r.task_id) (settled r s (next_retry r now' row) now') mid.tasks
          ≡ update_rows p
              (λ t. settled r s (next_retry r now' row) now' (claimed worker now t))
              db.tasks
    settle_all s =
        merged p (λ t. t.id == r.task_id) (claimed worker now)
          (settled r s (next_retry r now' row) now') db.tasks settles

    go :
        (s : Status)
        → next_status r now' row ≡ s
        → outcome_rows r now' (next_status r now' row) (next_retry r now' row) mid.tasks
          ≡ update_rows p (λ t. finished r now' row (claimed worker now t)) db.tasks
    go pending e = rw e (
        merged p (λ t. t.id == r.task_id && t.status == running) (claimed worker now)
          (requeued r (next_retry r now' row) now') db.tasks requeues)
    go running e = rw e (settle_all running)
    go success e = rw e (settle_all success)
    go failed e = rw e (settle_all failed)
    go dead e = rw e (settle_all dead)
    go stopped e = rw e (settle_all stopped)
