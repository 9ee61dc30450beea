-- ===== src/Store/Claim/Exclusive.antt =====
-- internal/store/store.go: ClaimPending hands a task to one worker only.
use worker_lightweight.Base.{
  ◌≡◌, ◌≢◌, ◌∙◌, ℕ, ◌⊎◌, inl, inr, Bool, true, false, List, [], ◌∷◌, ℤ, Text, Option, All, In,
  int_eq, arith,
}
use worker_lightweight.Model.{Task, pending, status_eq}
use worker_lightweight.Store.Db.{Db, Faults, Outcome, ok, err, update_rows}
use worker_lightweight.Store.Rules.{OnOutcome}
use worker_lightweight.Store.Claim.{claim_pending, claimed}
use worker_lightweight.Store.Claim.Effects.{
  IsOldest, IsChosen, Claims, ClaimFails, is_claim_of, Ensures-claim,
}
use worker_lightweight.Store.Life.Rows.{In-update}

-- A worker's poll, and the two times that ClaimPending reads.
pub record Poll : Type 0 where
  pub worker : Text
  pub now : ℕ
  pub now' : ℕ

abbrev pub granted : Outcome Task → List ℤ → List ℤ
granted (ok t) ids = t.id ∷ ids
granted (err e) ids = ids

-- The ids that a sequence of polls hands out.
unfoldable pub claim_all : (List Task → Option Task) → List Poll → Faults → Db → List ℤ
claim_all oldest [] fs db = []
claim_all oldest (p ∷ ps) fs db =
    let r = claim_pending oldest p.worker p.now p.now' fs db in
    granted r.0 (claim_all oldest ps r.1 r.2)

abbrev pub Distinct : List ℤ → Type 0
Distinct [] = Unit
Distinct (x ∷ xs) = All (λ y. x ≢ y) xs × Distinct xs

-- No row with this id waits.
abbrev Taken : ℤ → Db → Type 0
Taken i db = (u : Task) → In u db.tasks → u.id ≡ i → u.status ≢ pending

module _ (oldest : List Task → Option Task) (law : IsOldest oldest) where
  module _ (p : Poll) (db : Db) where
    abbrev Claimed : Task → Db → Type 0
    Claimed = Claims oldest law p.worker p.now p.now' db

    abbrev chosen_for : Task → Task → Bool
    chosen_for = is_claim_of oldest law p.worker p.now p.now' db

    due-pending :
        (row : Task) → IsChosen oldest law p.worker p.now p.now' db row → row.status ≡ pending
    due-pending row c = ground (arith, c.due)

    update-Taken :
        (row : Task) (i : ℤ)
        → Taken i db
        → Taken i
            (record db { tasks = update_rows (chosen_for row) (claimed p.worker p.now') db.tasks })
    update-Taken row i taken u j e = from (In-update (chosen_for row) _ u db.tasks j)
      where
        from :
            (t : Task) × In t db.tasks
              × ((chosen_for row t ≡ false) × (u ≡ t)
                  ⊎ (chosen_for row t ≡ true) × (u ≡ claimed p.worker p.now' t))
            → u.status ≢ pending
        from (t, k, inl (_, same)) h = taken t k (ground arith) (ground arith)
        from (t, k, inr (_, same)) h = ground arith

    -- The id that was handed out waits no longer.
    Claimed-Taken : (t : Task) (db' : Db) → Claimed t db' → Taken t.id db'
    Claimed-Taken t db' (row, c, told, q) =
        rw q λ u j e. from u (e ∙ ground arith) (In-update (chosen_for row) _ u db.tasks j)
      where
        from :
            (u : Task)
            → u.id ≡ row.id
            → (x : Task) × In x db.tasks
              × ((chosen_for row x ≡ false) × (u ≡ x)
                  ⊎ (chosen_for row x ≡ true) × (u ≡ claimed p.worker p.now' x))
            → u.status ≢ pending
        from u e (x, k, inl (other, same)) h =
            let same_id : x.id ≡ row.id = ground arith in
            ground (arith, (int_eq.beq_iff x.id row.id).1 same_id)
        from u e (x, k, inr (_, same)) h = ground arith

    -- An id that no pending row has is not handed out.
    Claimed-ne : (i : ℤ) (t : Task) (db' : Db) → Taken i db → Claimed t db' → i ≢ t.id
    Claimed-ne i t db' taken (row, c, told, q) e =
        taken row c.stands (ground arith) (due-pending row c)

  claim_all-ne :
      (i : ℤ) (ps : List Poll) (fs : Faults) (db : Db)
      → Taken i db
      → All (λ j. i ≢ j) (claim_all oldest ps fs db)
  unfolding claim_all
  claim_all-ne i [] fs db taken = tt
  claim_all-ne i (p ∷ ps) fs db taken =
      let r = claim_pending oldest p.worker p.now p.now' fs db in
      go r.0 r.2 (claim_all oldest ps r.1 r.2)
        ((Ensures-claim oldest law p.worker p.now p.now' db).holds fs) (claim_all-ne i ps r.1 r.2)
    where
      go :
          (o : Outcome Task) (db' : Db) (ids : List ℤ)
          → OnOutcome (Claimed p db) (ClaimFails oldest law p.worker p.now p.now' db) o db'
          → (Taken i db' → All (λ j. i ≢ j) ids)
          → All (λ j. i ≢ j) (granted o ids)
      go (ok t) db' ids (row, c, told, q) rest = (
        Claimed-ne p db i t db' taken (row, c, told, q),
        rest (rw q (update-Taken p db row i taken)),
      )
      go (err e) db' ids (q, _) rest = rest (rw q taken)

  -- However many workers poll, in whatever order and at whatever times, and whatever faults the
  -- database has: no task id is handed out twice (as long as nothing else changes the table).
  pub claim_all-Distinct :
      (ps : List Poll) (fs : Faults) (db : Db) → Distinct (claim_all oldest ps fs db)
  unfolding claim_all
  claim_all-Distinct [] fs db = tt
  claim_all-Distinct (p ∷ ps) fs db =
      let r = claim_pending oldest p.worker p.now p.now' fs db in
      go r.0 r.2 (claim_all oldest ps r.1 r.2)
        ((Ensures-claim oldest law p.worker p.now p.now' db).holds fs)
        (λ i taken. claim_all-ne i ps r.1 r.2 taken) (claim_all-Distinct ps r.1 r.2)
    where
      go :
          (o : Outcome Task) (db' : Db) (ids : List ℤ)
          → OnOutcome (Claimed p db) (ClaimFails oldest law p.worker p.now p.now' db) o db'
          → ((i : ℤ) → Taken i db' → All (λ j. i ≢ j) ids)
          → Distinct ids
          → Distinct (granted o ids)
      go (ok t) db' ids c apart rest = (apart t.id (Claimed-Taken p db t db' c), rest)
      go (err e) db' ids c apart rest = rest
