-- ===== src/Worker/Pool/Orphans.antt =====
-- internal/worker/pool.go: what a shutdown leaves behind.
use worker_lightweight.Base.{◌≡◌, refl, ℕ, zero, suc, ◌+◌, ◌<◌, inl, true, [], ◌∷◌, arith}
use worker_lightweight.Model.{Task}
use worker_lightweight.Worker.Pool.{Pool, started, signal, queued, returns, Reach, start, later}

-- A pool that was stopped with `t` in the channel, and `k` executors of `idle + k` gone.
abbrev leaving : ℕ → ℕ → Task → Pool
leaving idle k t = record (started idle) {
  jobs = t ∷ [];
  exited = k;
  cancelled = true;
  fetched = t ∷ [];
}

all_leave :
    (n idle k : ℕ) (t : Task)
    → Reach n (leaving idle k t)
    → (e : ℕ) × (e ≡ idle + k) × Reach n (leaving 0 e t)
all_leave n zero k t r = (k, omega arith, r)
all_leave n (suc idle) k t r =
    let (e, all_gone, run) = all_leave n idle (suc k) t (later r (returns idle refl (inl refl))) in
    (e, omega arith, run)

-- Whatever the number of executors, if there is one, there is a run of the pool in which Start
-- returns, since no executor is left, and a task that was fetched before has been neither started
-- nor finished.
pub orphan_lem :
    (n : ℕ) (t : Task)
    → 0 < n
    → (s : Pool) × Reach n s
      × (s.exited ≡ n)
      × (s.fetched ≡ t ∷ [])
      × (s.jobs ≡ t ∷ [])
      × (s.finished ≡ [])
orphan_lem n t some_executor =
    let (e, all_gone, run) =
      all_leave n n 0 t (later (later start (queued t refl (omega arith))) signal) in
    (leaving 0 e t, run, omega arith, refl, refl, refl)
