-- ===== src/Store/Life/Retries.antt =====
-- internal/store/store.go: how often ReportResult sends a task back to the queue.
use worker_lightweight.Base.{
  ◌≡◌, refl, ap, ◌∙◌, ℕ, suc, ◌+◌, ◌-◌, ◌<◌, ◌^◌, ◌⊎◌, inl, inr, Bool, true, false, ℤ, pos, ◌+ℤ◌,
  wrap, wrap-pos, ◌<ℤ◌, ◌≤ℤ◌, arith,
}
use worker_lightweight.Model.{Task, pending}
use worker_lightweight.Store.Report.{new_retry, new_status}
use worker_lightweight.Store.Report.Effects.{next_retry}
use worker_lightweight.Store.Life.{
  toggle, halt, resume, detach, claim, requeue, settle, Edits, here, next, IsNew,
}
use worker_lightweight.Store.Life.Bounds.{is_live, new_status-live, new_status-final}

-- How many of the changes send the task back to the queue.
unfoldable pub requeues : {t u : Task} → Edits t u → ℕ
requeues here = 0
requeues (next s (requeue r now h o n e)) = suc (requeues s)
requeues (next s (toggle enabled now e)) = requeues s
requeues (next s (halt reason now h e)) = requeues s
requeues (next s (resume now now' h e)) = requeues s
requeues (next s (detach h e)) = requeues s
requeues (next s (claim worker now now' h e)) = requeues s
requeues (next s (settle r now h o n e)) = requeues s

-- The greatest `int`.
abbrev pub max_int : ℤ
max_int = pos (2 ^ 63 - 1)

pub add_one : (k : ℕ) → pos k +ℤ pos 1 ≡ pos (k + 1)
unfolding ◌+ℤ◌
add_one k = ground arith

-- A row that is sent back had a failed run, and `retry_count + 1` did not overflow.
new_status-pending :
    (s : Bool) (k : ℕ) (max_retry : ℤ)
    → k < 2 ^ 63 - 1
    → new_status s (new_retry s (pos k)) max_retry ≡ pending
    → new_retry s (pos k) ≡ pos (suc k)
unfolding new_status new_retry
new_status-pending true k max_retry h e = cc
new_status-pending false k max_retry h e =
    ap wrap (add_one k) ∙ (wrap-pos (k + 1) (omega arith) ∙ ap pos (omega arith))

pub requeue-Counted :
    (s : Bool) (retry_count max_retry : ℤ) (k : ℕ)
    → retry_count ≡ pos k
    → (k ≡ 0) ⊎ (pos k ≤ℤ max_retry)
    → max_retry <ℤ max_int
    → new_status s (new_retry s retry_count) max_retry ≡ pending
    → (new_retry s retry_count ≡ pos (suc k)) × (pos (suc k) ≤ℤ max_retry)
requeue-Counted s retry_count max_retry k e b m p =
    let again : new_status s (new_retry s (pos k)) max_retry ≡ pending = rw e at p in
    let counted = new_status-pending s k max_retry (omega arith) again in
    (rw e counted, rw counted at (new_status-live s (new_retry s (pos k)) max_retry again))

abbrev pub Counted : Task → ℕ → Type 0
Counted u k = (u.retry_count ≡ pos k) × ((k ≡ 0) ⊎ (pos k ≤ℤ u.max_retry))

pub Edits-Counted :
    (t u : Task) (s : Edits t u)
    → IsNew t
    → u.max_retry <ℤ max_int
    → is_live u ≡ true
    → Counted u (requeues s)
unfolding requeues
Edits-Counted t u here n m l = (n.untried, inl refl)
Edits-Counted t u (next {u = w} s (toggle enabled now e)) n m l =
    ground (arith, Edits-Counted t w s n)
Edits-Counted t u (next {u = w} s (halt reason now h e)) n m l =
    ground (arith, Edits-Counted t w s n)
Edits-Counted t u (next {u = w} s (resume now now' h e)) n m l =
    ground (arith, Edits-Counted t w s n)
Edits-Counted t u (next {u = w} s (detach h e)) n m l = ground (arith, Edits-Counted t w s n)
Edits-Counted t u (next {u = w} s (claim worker now now' h e)) n m l =
    ground (arith, Edits-Counted t w s n)
Edits-Counted t u (next {u = w} s (requeue r now h o p e)) n m l =
    let before = Edits-Counted t w s n (ground arith) (ground arith) in
    let after =
      requeue-Counted r.success w.retry_count w.max_retry (requeues s) before.0 before.1
        (ground arith) p in
    rw e (after.0, inr after.1)
Edits-Counted t u (next {u = w} s (settle r now h o p e)) n m l =
    ground (arith, new_status-final r.success (next_retry r now w) w.max_retry p)
