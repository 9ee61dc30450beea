-- ===== src/Worker/Pool/Inventory.antt =====
-- internal/worker/pool.go: where the tasks of a pool are.
use worker_lightweight.Base.{
  ◌≡◌, refl, ap, ℕ, suc, ◌+◌, ◌*◌, ◌≤◌, ◌<◌, ◌⊎◌, inl, inr, true, List, [], ◌∷◌, ◌++◌, ℤ, length,
  length-append, ◌==◌, int_eq, if◌then◌else◌, arith,
}
use worker_lightweight.Model.{Task}
use worker_lightweight.Worker.Pool.{
  Pool, Step, signal, stop_listed, queued, dropped_at_exit, closes, takes, registers, finishes,
  returns, Reach, start, later,
}

-- How often a task of this id stands in the list.
abbrev pub occurs : ℤ → List Task → ℕ
occurs i [] = 0
occurs i (t ∷ ts) = (if t.id == i then 1 else 0) + occurs i ts

occurs-append : (i : ℤ) (xs ys : List Task) → occurs i (xs ++ ys) ≡ occurs i xs + occurs i ys
occurs-append i [] ys = omega arith
occurs-append i (x ∷ xs) ys = omega (arith, occurs-append i xs ys)

-- Every executor is in one place, the channel holds what it can, and every task that was fetched is
-- queued, held by an executor, finished or dropped, and just once.
pub record IsKept (workers : ℕ) (s : Pool) : Type 0 where
  pub executors : s.idle + length s.starting + length s.running + s.exited ≡ workers
  pub room : length s.jobs ≤ 2 * workers
  pub conserved :
      (i : ℤ)
      → occurs i s.fetched
        ≡ occurs i s.jobs
          + occurs i s.starting
          + occurs i s.running
          + occurs i s.finished
          + occurs i s.dropped
  pub ending : (0 < s.exited) ⊎ (0 < length s.dropped) → s.cancelled ≡ true
  pub closing : s.closed ≡ true → s.cancelled ≡ true

occurs-middle :
    (i : ℤ) (t : Task) (xs ys : List Task)
    → occurs i (xs ++ t ∷ ys) ≡ occurs i (t ∷ []) + occurs i (xs ++ ys)
occurs-middle i t [] ys = omega arith
occurs-middle i t (x ∷ xs) ys = omega (arith, occurs-middle i t xs ys)

length-middle : (t : Task) (xs ys : List Task) → length (xs ++ t ∷ ys) ≡ suc (length (xs ++ ys))
length-middle t [] ys = refl
length-middle t (x ∷ xs) ys = ap suc (length-middle t xs ys)

Step-IsKept : {n : ℕ} {s t : Pool} → Step n s t → IsKept n s → IsKept n t
Step-IsKept signal k = record {
  executors = k.executors;
  room = k.room;
  conserved = k.conserved;
  ending = λ _. refl;
  closing = λ _. refl;
}
Step-IsKept (stop_listed ids) k = record {
  executors = k.executors;
  room = k.room;
  conserved = k.conserved;
  ending = k.ending;
  closing = k.closing;
}
Step-IsKept {s = s} (queued t still_open free) k = record {
  executors = k.executors;
  room = omega (arith, length-append s.jobs (t ∷ []));
  conserved = λ i. omega (arith, k.conserved i, occurs-append i s.jobs (t ∷ []));
  ending = k.ending;
  closing = k.closing;
}
Step-IsKept (dropped_at_exit t still_open done) k = record {
  executors = k.executors;
  room = k.room;
  conserved = λ i. omega (arith, k.conserved i);
  ending = λ _. done;
  closing = k.closing;
}
Step-IsKept (closes still_open done) k = record {
  executors = k.executors;
  room = k.room;
  conserved = k.conserved;
  ending = k.ending;
  closing = λ _. done;
}
Step-IsKept (takes t rest k' q w) k = record {
  executors = omega (arith, k.executors);
  room = omega (arith, k.room, ap length q);
  conserved = λ i. omega (arith, k.conserved i, ap (occurs i) q);
  ending = k.ending;
  closing = k.closing;
}
Step-IsKept (registers t before after q) k = record {
  executors = omega (arith, k.executors, ap length q, length-middle t before after);
  room = k.room;
  conserved = λ i. omega (arith, k.conserved i, ap (occurs i) q, occurs-middle i t before after);
  ending = k.ending;
  closing = k.closing;
}
Step-IsKept (finishes t before after q) k = record {
  executors = omega (arith, k.executors, ap length q, length-middle t before after);
  room = k.room;
  conserved = λ i. omega (arith, k.conserved i, ap (occurs i) q, occurs-middle i t before after);
  ending = k.ending;
  closing = k.closing;
}
Step-IsKept {s = s} (returns k' w why) k = record {
  executors = omega (arith, k.executors);
  room = k.room;
  conserved = k.conserved;
  ending = λ _. over why;
  closing = k.closing;
}
  where
    over : (s.cancelled ≡ true) ⊎ ((s.closed ≡ true) × (s.jobs ≡ [])) → s.cancelled ≡ true
    over (inl done) = done
    over (inr (shut, _)) = k.closing shut

-- In every run of a pool, whatever the goroutines' order: each executor is idle, holds one task or has
-- returned; the channel holds at most twice as many tasks as there are executors; every task that
-- was fetched is queued, held, finished or dropped, and just once; and none is dropped, and no
-- executor returns, before the context has ended.
pub Reach-IsKept : {n : ℕ} {s : Pool} → Reach n s → IsKept n s
Reach-IsKept start = record {
  executors = omega arith;
  room = omega arith;
  conserved = λ i. refl;
  ending = λ h. absurd (nothing h);
  closing = λ h. cc h;
}
  where
    nothing : (0 < 0) ⊎ (0 < 0) → ⊥
    nothing (inl h) = omega arith
    nothing (inr h) = omega arith
Reach-IsKept (later r st) = Step-IsKept st (Reach-IsKept r)
