-- ===== src/Store/Claim/Progress.antt =====
-- internal/store/store.go: with a database that answers, polling workers get every due task.
use worker_lightweight.Base.{
  ◌≡◌, ◌≤ℤ◌, refl, ap, ℕ, suc, Bool, true, false, not, ◌&&◌, List, [], ◌∷◌, ℤ, pos, ◌<ℤ◌, Option,
  none, some, Text, length, select, In, head, tail, All, ltb, if◌then◌else◌, ◌==◌, nat_eq, int_eq,
  beq_self, arith,
}
use worker_lightweight.Model.{Task, pending, running, status_eq, type_eq}
use worker_lightweight.Store.Db.{Db, ok, err, not_found, update_rows, matching}
use worker_lightweight.Store.Claim.{is_due, claimed, claim_pending}
use worker_lightweight.Store.Claim.Effects.{
  IsOldest, IsChosen-intro, due_rows, is_claim_of, claims_row, no_due,
}
use worker_lightweight.Store.Claim.Exclusive.{Poll, claim_all}
use worker_lightweight.Store.Life.Rows.{IsValid, Ascending, In-above, IsValid-update}

module _ (now now' : ℕ) (worker : Text) (row : Task) where
  abbrev hits : Task → Bool
  hits t = t.id == row.id && t.status == pending

  hits-above : (t : Task) → row.id <ℤ t.id → hits t ≡ false
  hits-above t h = ground arith

  hits-below : (t : Task) → t.id <ℤ row.id → hits t ≡ false
  hits-below t h = ground arith

  hits_self : (t : Task) → row ≡ t → is_due now row ≡ true → hits t ≡ true
  hits_self t e d = rw (← e, beq_self row.id) (ground arith)

  -- Above the row's id the UPDATE finds nothing.
  untouched :
      (lo : ℤ) (ts : List Task)
      → Ascending lo ts
      → row.id ≤ℤ lo
      → update_rows hits (claimed worker now') ts ≡ ts
  untouched lo [] a h = refl
  untouched lo (t ∷ ts) a h =
      rw (hits-above t (omega arith)) (ap (◌∷◌ t) (untouched t.id ts a.1 (omega arith)))

  not_due : (t : Task) → is_due now (claimed worker now' t) ≡ false
  not_due t = ground arith

  -- The UPDATE takes one row out of those that are due.
  one_less :
      (lo : ℤ) (ts : List Task)
      → Ascending lo ts
      → In row ts
      → is_due now row ≡ true
      → suc (length (select (is_due now) (update_rows hits (claimed worker now') ts)))
        ≡ length (select (is_due now) ts)
  one_less lo [] a i d = elim i [ ]
  one_less lo (t ∷ ts) a (head e) d =
      let due_t : is_due now t ≡ true = rw e at d in
      let same : row.id ≤ℤ t.id = rw e (omega arith) in
      rw (hits_self t e d, due_t, not_due t, untouched t.id ts a.1 same) refl
  one_less lo (t ∷ ts) a (tail i) d =
      rw (hits-below t (In-above t.id row ts a.1 i)) (ground (arith, one_less t.id ts a.1 i d))

module _ (oldest : List Task → Option Task) (law : IsOldest oldest) (worker : Text) (now now' : ℕ)
    (db : Db) where
  abbrev pub due : List Task
  due = due_rows oldest law worker now now' db

  abbrev pub after_claim : Task → Db
  after_claim row = record db {
    tasks =
        update_rows (is_claim_of oldest law worker now now' db row) (claimed worker now') db.tasks;
  }

  pub claim_some :
      (row : Task)
      → oldest due ≡ some row
      → claim_pending oldest worker now now' [] db
        ≡ (ok (record row { status = running; worker_id = worker }), [], after_claim row)
  unfolding claim_pending
  claim_some row e =
      let n =
        claims_row oldest law worker now now' db row
          (IsChosen-intro oldest law worker now now' db row e) in
      let found : not (matching (is_claim_of oldest law worker now now' db row) db == 0) ≡ true =
        ground arith in
      rw (e, found) refl

  nothing_due : due ≡ [] → (o : Option Task) → oldest due ≡ o → o ≡ none
  nothing_due e none q = refl
  nothing_due e (some t) q = absurd (not_in t (rw e at (law.picks due t q).0))
    where
      not_in : (t : Task) → In t [] → ⊥
      not_in t i = elim i [ ]

  claim_none : due ≡ [] → claim_pending oldest worker now now' [] db ≡ (err not_found, [], db)
  unfolding claim_pending
  claim_none e = let none_left = nothing_due e (oldest due) refl in rw none_left refl

-- How many rows are due.
abbrev pub due_count : ℕ → Db → ℕ
due_count now db = length (select (is_due now) db.tasks)

module _ (oldest : List Task → Option Task) (law : IsOldest oldest) where
  after_claim-IsValid :
      (worker : Text) (now now' : ℕ) (db : Db) (row : Task)
      → IsValid db
      → IsValid (after_claim oldest law worker now now' db row)
  after_claim-IsValid worker now now' db row v =
      IsValid-update (is_claim_of oldest law worker now now' db row) (claimed worker now')
        (λ t. refl) db v

  -- In a valid table, with a database that answers, and nothing else going on, polls at one time
  -- hand out exactly one task each until no due task is left: of any number of polls, in any order
  -- of the workers, as many succeed as there are due tasks, and all of them if there are more.
  pub length-claim_all :
      (now : ℕ) (ps : List Poll) (db : Db)
      → IsValid db
      → All (λ p. p.now ≡ now) ps
      → length (claim_all oldest ps [] db)
        ≡ (if ltb (length ps) (due_count now db) then length ps else due_count now db)
  unfolding claim_all
  length-claim_all now [] db v same = ground arith
  length-claim_all now (p ∷ ps) db v same = rw same.0 (
      go (oldest (due_rows oldest law p.worker now p.now' db)) refl
        (λ d w. length-claim_all now ps d w same.1))
    where
      goal : Type 0
      goal =
          length (claim_all oldest (record p { now = now } ∷ ps) [] db)
          ≡ (if ltb (suc (length ps)) (due_count now db) then suc (length ps) else due_count now db)

      Rest : Type 0
      Rest =
          (d : Db)
          → IsValid d
          → length (claim_all oldest ps [] d)
            ≡ (if ltb (length ps) (due_count now d) then length ps else due_count now d)

      go : (o : Option Task) → oldest (due_rows oldest law p.worker now p.now' db) ≡ o → Rest → goal
      go none e ih =
          let idle =
            no_due oldest law p.worker now p.now' db (due_rows oldest law p.worker now p.now' db)
              e in
          let zero_due : due_count now db ≡ 0 = ap length idle in
          rw (claim_none oldest law p.worker now p.now' db idle) (ground (arith, ih db v))
      go (some row) e ih =
          let c = IsChosen-intro oldest law p.worker now p.now' db row e in
          let rest =
            ih (after_claim oldest law p.worker now p.now' db row)
              (after_claim-IsValid p.worker now p.now' db row v) in
          let fewer = one_less now p.now' p.worker row (pos 0) db.tasks v.ascends c.stands c.due in
          rw (claim_some oldest law p.worker now p.now' db row e) (ground (arith, rest, fewer))
