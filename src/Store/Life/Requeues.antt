-- ===== src/Store/Life/Requeues.antt =====
-- internal/store/store.go: how often a run of the store sends a task back to the queue, as the tables
-- of the run show it.
use worker_lightweight.Base.{
  ◌≡◌, refl, ap, ◌∙◌, ℕ, ◌+◌, inl, inr, Bool, true, false, ◌&&◌, List, [], ◌∷◌, ℤ, pos, ◌<ℤ◌, ◌≤ℤ◌,
  Option, none, some, find, In, head, tail, Bool-cases, Option-cases, beq→eq, beq_self, ◌==◌,
  int_eq, if◌then◌else◌, arith,
}
use worker_lightweight.Model.{Task, Status, pending, running, status_eq}
use worker_lightweight.Store.Db.{Db}
use worker_lightweight.Store.Claim.Effects.{IsOldest}
use worker_lightweight.Store.Report.Effects.{next_retry}
use worker_lightweight.Store.Life.{
  Edit, toggle, halt, resume, detach, claim, requeue, settle, Edits-id,
}
use worker_lightweight.Store.Life.Rows.{IsValid, In-AtMost, In-unique, find-In}
use worker_lightweight.Store.Life.Evolution.{
  Change, kept, edited, switched_halted, Source, before, inserted, Change-Edits, Evolves, Moves,
}
use worker_lightweight.Store.Life.Reach.{
  Reach, start, step, Reach-Evolves, Step-Moves, empty_db, empty_db-IsValid,
}
use worker_lightweight.Store.Life.Bounds.{is_live, new_status-final}
use worker_lightweight.Store.Life.Retries.{Counted, requeue-Counted, max_int}

-- The row of an id, and whether it is in a status.
abbrev pub row_of : ℤ → Db → Option Task
row_of id db = find (λ t. t.id == id) db.tasks

abbrev pub has_status : Status → Option Task → Bool
has_status st none = false
has_status st (some t) = t.status == st

abbrev count : Bool → ℕ
count b = if b then 1 else 0

-- One for a step from a table in which the task runs to one in which it is pending.
abbrev pub sent_back : ℤ → Db → Db → ℕ
sent_back id a b = count (has_status running (row_of id a) && has_status pending (row_of id b))

-- The number of such steps of a run.
unfoldable pub times_sent_back :
    {oldest : List Task → Option Task} → (id : ℤ) (a b : Db) → Reach oldest a b → ℕ
times_sent_back id a b start = 0
times_sent_back id a b (step {a = c} r s) = times_sent_back id a c r + sent_back id c b

-- The same of a row that an operation has changed.
abbrev back : Task → Task → ℕ
back t u = count (t.status == running && u.status == pending)

module _ (t u : Task) (k : ℕ) where
  abbrev Before : Type 0
  Before = is_live t ≡ true → t.max_retry <ℤ max_int → Counted t k

  Edit-Counted :
      Edit t u → u.max_retry <ℤ max_int → is_live u ≡ true → Before → Counted u (k + back t u)
  Edit-Counted (toggle enabled now e) m l ih =
      let c = ih (ground arith) (ground arith) in ground arith
  Edit-Counted (halt reason now h e) m l ih =
      let c = ih (ground arith) (ground arith) in ground arith
  Edit-Counted (resume now now' h e) m l ih =
      let c = ih (ground arith) (ground arith) in ground arith
  Edit-Counted (detach h e) m l ih = let c = ih (ground arith) (ground arith) in ground arith
  Edit-Counted (claim worker now now' h e) m l ih =
      let c = ih (ground arith) (ground arith) in ground arith
  Edit-Counted (requeue r now h o p e) m l ih =
      let c = ih (ground arith) (ground arith) in
      let after = requeue-Counted r.success t.retry_count t.max_retry k c.0 c.1 (ground arith) p in
      ground arith
  Edit-Counted (settle r now h o p e) m l ih =
      ground (arith, new_status-final r.success (next_retry r now t) t.max_retry p)

  Change-Counted :
      Change t u → u.max_retry <ℤ max_int → is_live u ≡ true → Before → Counted u (k + back t u)
  Change-Counted (kept e) m l ih = let c = ih (ground arith) (ground arith) in ground arith
  Change-Counted (edited e) m l ih = Edit-Counted e m l ih
  Change-Counted (switched_halted v enabled now reason now' e h f) m l ih =
      let c = ih (ground arith) (ground arith) in ground arith

find-some :
    (p : Task → Bool) (u : Task) (ts : List Task)
    → In u ts
    → p u ≡ true
    → (v : Task) × (find p ts ≡ some v)
find-some p u [] i h = elim i [ ]
find-some p u (t ∷ ts) (head e) h = (t, rw (← e, h) refl)
find-some p u (t ∷ ts) (tail i) h = elim (Bool-cases (p t)) [
  | inl e ↦ (t, rw e refl)
  | inr e ↦ rw e (find-some p u ts i h)
]

module _ (db : Db) (v : IsValid db) where
  row_of-In : (u : Task) → In u db.tasks → row_of u.id db ≡ some u
  row_of-In u i =
      let (w, e) = find-some (λ t. t.id == u.id) u db.tasks i (beq_self u.id) in
      let at = find-In (λ t. t.id == u.id) db.tasks w e in
      let same = In-unique (pos 0) w u db.tasks v.ascends at.0 i (beq→eq w.id u.id at.1) in
      e ∙ ap some same

  row_of-none : (id : ℤ) → pos db.last_id <ℤ id → row_of id db ≡ none
  row_of-none id above = elim (Option-cases (row_of id db)) [
    | inl e ↦ e
    | inr (w, e) ↦
        let at = find-In (λ t. t.id == id) db.tasks w e in
        let low : w.id ≤ℤ pos db.last_id = In-AtMost (pos db.last_id) w db.tasks v.given_out at.0 in
        let same : w.id ≡ id = beq→eq w.id id at.1 in absurd (ground arith)
  ]

module _ (oldest : List Task → Option Task) (law : IsOldest oldest) where
  reached : (b : Db) → Reach oldest empty_db b → Evolves empty_db b
  reached b r = Reach-Evolves oldest law empty_db b empty_db-IsValid r

  never_before :
      (b : Db) (id : ℤ) (r : Reach oldest empty_db b)
      → pos b.last_id <ℤ id
      → times_sent_back id empty_db b r ≡ 0
  unfolding times_sent_back
  never_before b id start above = refl
  never_before b id (step {a = c} r s) above =
      let first = (reached c r).valid in
      let moves = Step-Moves oldest law c b first s in
      let below : pos c.last_id <ℤ id = omega (arith, moves.grows) in
      rw (row_of-none c first id below) (omega (arith, never_before c id r below))

  -- In every table that a run of the store from the empty table leads to, whatever faults are met:
  -- the retry count of a row that is pending, running or stopped and whose limit is below the
  -- greatest int is exactly the number of steps of this run that found the task running and left
  -- it pending, and this number is 0 or within the limit.
  pub Reach-requeues :
      (b : Db) (u : Task) (r : Reach oldest empty_db b)
      → In u b.tasks
      → u.max_retry <ℤ max_int
      → is_live u ≡ true
      → Counted u (times_sent_back u.id empty_db b r)
  unfolding times_sent_back
  Reach-requeues b u start i m l = elim i [ ]
  Reach-requeues b u (step {a = c} r s) i m l =
      from (λ t j limit live. Reach-requeues c t r j limit live) (moves.source u i)
    where
      first : IsValid c
      first = (reached c r).valid

      moves : Moves c b
      moves = Step-Moves oldest law c b first s

      now : row_of u.id b ≡ some u
      now = row_of-In b moves.valid u i

      from :
          ((t : Task)
            → In t c.tasks
            → t.max_retry <ℤ max_int
            → is_live t ≡ true
            → Counted t (times_sent_back t.id empty_db c r))
          → Source c.last_id c.tasks u
          → Counted u (times_sent_back u.id empty_db c r + sent_back u.id c b)
      from ih (inserted n above) =
          rw (row_of-none c first u.id above, never_before c u.id r above) (n.untried, inl refl)
      from ih (before t j ch) =
          let same : u.id ≡ t.id = Edits-id (Change-Edits t u ch) in
          let then_row : row_of u.id c ≡ some t = rw same (row_of-In c first t j) in
          rw (then_row, now)
            (Change-Counted t u (times_sent_back u.id empty_db c r) ch m l
              (λ live limit. rw same (ih t j limit live)))
