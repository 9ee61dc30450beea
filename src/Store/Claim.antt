-- ===== src/Store/Claim.antt =====
-- internal/store/store.go: ClaimPending.
pub mod Effects
pub mod Exclusive
pub mod Progress
use worker_lightweight.Base.{
  ℕ, Bool, not, ◌&&◌, List, Text, Option, select, ◌==◌, nat_eq, int_eq, leb,
}
use worker_lightweight.Model.{Task, pending, running, once, status_eq, type_eq}
use worker_lightweight.Store.Db.{
  M, not_found, ◌>>=◌, ◌>>◌, pure, guard, or_fail, update, query, with_tx,
}

-- `type='once' AND status='pending' AND next_run_at<=now`.
abbrev pub is_due : ℕ → Task → Bool
is_due now t = t.type == once && (t.status == pending && leb t.next_run_at now)

abbrev pub claimed : Text → ℕ → Task → Task
claimed worker now t = record t { status = running; worker_id = worker; updated_at = now }

-- SQLite's choice for `ORDER BY next_run_at ASC LIMIT 1`, which is free between equal times.
module _ (oldest : List Task → Option Task) where
  -- The transaction of ClaimPending, up to Commit.
  abbrev pub claim_tx : Text → ℕ → ℕ → M Task
  claim_tx worker now now' = do
    row ← query (λ ts. oldest (select (is_due now) ts))
    t ← or_fail row not_found
    n ← update (λ r. r.id == t.id && r.status == pending) (claimed worker now')
    guard (not (n == 0)) not_found
    pure t

  unfoldable pub claim_pending : Text → ℕ → ℕ → M Task
  unfolding query update with_tx
  claim_pending worker now now' = do
    t ← with_tx (claim_tx worker now now')
    pure (record t { status = running; worker_id = worker })
