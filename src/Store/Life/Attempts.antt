-- ===== src/Store/Life/Attempts.antt =====
-- internal/store/store.go: how often ClaimPending hands a task out.
use worker_lightweight.Base.{
  ◌≡◌, refl, ℕ, suc, ◌+◌, ◌≤◌, true, pos_part, ◌<ℤ◌, ne→beq, ◌==◌, if◌then◌else◌, arith,
}
use worker_lightweight.Model.{Task, pending, status_eq}
use worker_lightweight.Store.Report.Effects.{next_status}
use worker_lightweight.Store.Life.{
  toggle, halt, resume, detach, claim, requeue, settle, Edits, here, next, IsNew,
}
use worker_lightweight.Store.Life.Bounds.{is_live}
use worker_lightweight.Store.Life.Retries.{requeues, max_int, Edits-Counted}

-- How many of the changes hand the task to a worker, and how many are resumes by the user.
pub claims : {t u : Task} → Edits t u → ℕ
claims here = 0
claims (next s (claim worker now now' h e)) = suc (claims s)
claims (next s (requeue r now h o n e)) = claims s
claims (next s (toggle enabled now e)) = claims s
claims (next s (halt reason now h e)) = claims s
claims (next s (resume now now' h e)) = claims s
claims (next s (detach h e)) = claims s
claims (next s (settle r now h o n e)) = claims s

pub resumes : {t u : Task} → Edits t u → ℕ
resumes here = 0
resumes (next s (resume now now' h e)) = suc (resumes s)
resumes (next s (claim worker now now' h e)) = resumes s
resumes (next s (requeue r now h o n e)) = resumes s
resumes (next s (toggle enabled now e)) = resumes s
resumes (next s (halt reason now h e)) = resumes s
resumes (next s (detach h e)) = resumes s
resumes (next s (settle r now h o n e)) = resumes s

abbrev waiting : Task → ℕ
waiting t = if t.status == pending then 1 else 0

-- Each claim takes the row out of the queue, where an insertion, a retry or a resume had put it.
claims_paid :
    (t u : Task) (s : Edits t u) → IsNew t → claims s + waiting u ≤ suc (requeues s + resumes s)
unfolding claims resumes requeues
claims_paid t u here n = ground arith
claims_paid t u (next {u = w} s (toggle enabled now e)) n = ground (arith, claims_paid t w s n)
claims_paid t u (next {u = w} s (halt reason now h e)) n = ground (arith, claims_paid t w s n)
claims_paid t u (next {u = w} s (resume now now' h e)) n = ground (arith, claims_paid t w s n)
claims_paid t u (next {u = w} s (detach h e)) n = ground (arith, claims_paid t w s n)
claims_paid t u (next {u = w} s (claim worker now now' h e)) n = ground (arith, claims_paid t w s n)
claims_paid t u (next {u = w} s (requeue r now h o p e)) n = ground (arith, claims_paid t w s n)
claims_paid t u (next {u = w} s (settle r now h o p e)) n =
    let final = ne→beq (next_status r now w) pending p in ground (arith, claims_paid t w s n)

abbrev Within : Task → ℕ → Type 0
Within u k = k ≤ pos_part u.max_retry

-- Also a settled row was never sent back more often than its limit allows.
requeues-Within :
    (t u : Task) (s : Edits t u) → IsNew t → u.max_retry <ℤ max_int → Within u (requeues s)
unfolding requeues
requeues-Within t u here n m = omega arith
requeues-Within t u (next {u = w} s (toggle enabled now e)) n m =
    ground (arith, requeues-Within t w s n)
requeues-Within t u (next {u = w} s (halt reason now h e)) n m =
    ground (arith, requeues-Within t w s n)
requeues-Within t u (next {u = w} s (resume now now' h e)) n m =
    ground (arith, requeues-Within t w s n)
requeues-Within t u (next {u = w} s (detach h e)) n m = ground (arith, requeues-Within t w s n)
requeues-Within t u (next {u = w} s (claim worker now now' h e)) n m =
    ground (arith, requeues-Within t w s n)
requeues-Within t u (next {u = w} s (requeue r now h o p e)) n m =
    let live : is_live u ≡ true = rw e refl in
    let again = (Edits-Counted t u (next s (requeue r now h o p e)) n m live).1 in ground arith
requeues-Within t u (next {u = w} s (settle r now h o p e)) n m =
    ground (arith, requeues-Within t w s n)

-- Whatever happens to an inserted row whose retry limit is below the greatest int, it is handed to
-- a worker at most once, once more for each retry that its limit allows, and once more for each
-- time that the user resumes it; so, if nobody resumes it, workers stop getting it, however often
-- it fails.
pub claims-le :
    (t u : Task) (s : Edits t u)
    → IsNew t
    → u.max_retry <ℤ max_int
    → claims s ≤ 1 + pos_part u.max_retry + resumes s
claims-le t u s n m = omega (arith, claims_paid t u s n, requeues-Within t u s n m)
