-- ===== src/Tests/Pools.antt =====
-- internal/worker/pool.go: the theorems on a running pool, at one task.
use worker_lightweight.Base.{◌≡◌, refl, [], ◌∷◌, arith}
use worker_lightweight.Worker.Pool.{Pool, started, Reach, start, later, queued, takes}
use worker_lightweight.Worker.Pool.Inventory.{IsKept, Reach-IsKept}
use worker_lightweight.Worker.Pool.Orphans.{orphan_lem}
use worker_lightweight.Tests.Data.{backup}

abbrev queue_full : Pool
queue_full = record (started 1) { jobs = backup ∷ []; fetched = backup ∷ [] }

abbrev busy : Pool
busy = record queue_full { jobs = []; idle = 0; starting = backup ∷ [] }

busy_run : Reach 1 busy
busy_run = later (later start (queued backup refl (omega arith))) (takes backup [] 0 refl refl)

busy-IsKept : IsKept 1 busy
busy-IsKept = Reach-IsKept busy_run

leaves_backup :
    (s : Pool) × Reach 1 s
    × (s.exited ≡ 1)
    × (s.fetched ≡ backup ∷ [])
    × (s.jobs ≡ backup ∷ [])
    × (s.finished ≡ [])
leaves_backup = orphan_lem 1 backup (omega arith)
