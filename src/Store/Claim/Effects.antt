-- ===== src/Store/Claim/Effects.antt =====
-- internal/store/store.go: what ClaimPending does to the table, on every path.
use worker_lightweight.Base.{
  ◌≡◌, ◌≢◌, refl, ℕ, ◌<◌, ◌≤◌, ◌⊎◌, inl, inr, Bool, true, not, ◌&&◌, List, [], ◌∷◌, Text, Option,
  none, some, select, All, In, In-select, select-In, In-length, beq_self, ◌==◌, nat_eq, int_eq,
  arith,
}
use worker_lightweight.Model.{Task, pending, running, status_eq}
use worker_lightweight.Store.Db.{
  Db, StoreError, not_found, db_error, ◌>>=◌, ◌>>◌, pure, guard, update, update_rows, with_tx,
  matching,
}
use worker_lightweight.Store.Rules.{
  Ensures, Ensures-pure, after, after_update, after_query, after_or_fail, after_guard, Ensures-tx,
}
use worker_lightweight.Store.Claim.{is_due, claimed, claim_tx, claim_pending}

-- What SQL says of `ORDER BY next_run_at ASC LIMIT 1`.
pub record IsOldest (oldest : List Task → Option Task) : Type 0 where
  pub finds : (t : Task) (ts : List Task) → oldest (t ∷ ts) ≢ none
  pub picks :
      (ts : List Task) (t : Task)
      → oldest ts ≡ some t
      → In t ts × All (λ u. t.next_run_at ≤ u.next_run_at) ts

module _ (oldest : List Task → Option Task) (law : IsOldest oldest) (worker : Text) (now now' : ℕ)
    (db : Db) where
  abbrev pub due_rows : List Task
  due_rows = select (is_due now) db.tasks

  -- The rows that the UPDATE of a claim of `row` selects.
  abbrev pub is_claim_of : Task → Task → Bool
  is_claim_of row t = t.id == row.id && t.status == pending

  -- The chosen row stands in the table, is due, and no due row is older.
  pub record IsChosen (row : Task) : Type 0 where
    pub chosen : oldest due_rows ≡ some row
    pub stands : In row db.tasks
    pub due : is_due now row ≡ true
    pub first : All (λ u. row.next_run_at ≤ u.next_run_at) due_rows

  abbrev pub Claims : Task → Db → Type 0
  Claims t db' =
      (row : Task) × IsChosen row
      × (t ≡ record row { status = running; worker_id = worker })
      × (db' ≡ record db { tasks = update_rows (is_claim_of row) (claimed worker now') db.tasks })

  abbrev pub ClaimFails : StoreError → Db → Type 0
  ClaimFails e db' = (db' ≡ db) × ((e ≡ db_error) ⊎ ((e ≡ not_found) × (due_rows ≡ [])))

  pub IsChosen-intro : (row : Task) → oldest due_rows ≡ some row → IsChosen row
  IsChosen-intro row e =
      let picked = law.picks due_rows row e in
      let found = In-select (is_due now) row db.tasks picked.0 in
      record { chosen = e; stands = found.0; due = found.1; first = picked.1 }

  pub no_due : (ts : List Task) → oldest ts ≡ none → ts ≡ []
  no_due [] e = refl
  no_due (t ∷ ts) e = absurd (law.finds t ts e)

  -- The row that SELECT chose is still pending at the UPDATE of the same transaction.
  pub claims_row : (row : Task) → IsChosen row → 0 < matching (is_claim_of row) db
  claims_row row c =
      In-length (select (is_claim_of row) db.tasks)
        (select-In (is_claim_of row) row db.tasks c.stands (ground (arith, c.due, beq_self row.id)))

  -- Whatever faults are met, ClaimPending either returns a due row than which no due row is older,
  -- as running and owned by the worker, and writes just that to the pending rows of its id; or it
  -- fails and changes nothing, by a fault of the database or because no row is due.
  pub Ensures-claim : Ensures (claim_pending oldest worker now now') Claims ClaimFails db
  unfolding claim_pending
  Ensures-claim =
      after (with_tx (claim_tx oldest worker now now'))
        (λ t. pure (record t { status = running; worker_id = worker }))
        (Ensures-tx (claim_tx oldest worker now now') (refl, inl refl)
          (after_query (λ ts. oldest (select (is_due now) ts)) _ (refl, inl refl)
            (after_or_fail (oldest due_rows) not_found _ (λ row e. write row (IsChosen-intro row e))
              (λ e. (refl, inr (refl, no_due due_rows e))))))
    where
      Q : Task → Db → Type 0
      Q t = Ensures (pure (record t { status = running; worker_id = worker })) Claims ClaimFails

      write :
          (row : Task)
          → IsChosen row
          → Ensures
              (do
                n ← update (is_claim_of row) (claimed worker now')
                guard (not (n == 0)) not_found
                pure row)
              Q
              (λ e _. ClaimFails e db)
              db
      write row c =
          after_update (is_claim_of row) (claimed worker now') _ (refl, inl refl)
            (after_guard _ not_found (pure row)
              (λ _. Ensures-pure row (Ensures-pure _ (row, c, refl, refl)))
              (λ lost. absurd (ground (arith, claims_row row c))))
