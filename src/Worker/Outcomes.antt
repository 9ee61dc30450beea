-- ===== src/Worker/Outcomes.antt =====
-- internal/worker/pool.go: what leaves the worker for a task.
use worker_lightweight.Base.{
  text_eq, ◌≡◌, ◌↔◌, refl, ℕ, zero, suc, ◌⊎◌, ◌+◌, ◌*◌, ◌^◌, ◌≤◌, ◌<◌, true, false, [], ◌∷◌, none,
  some, pos, ◌*ℤ◌, wrap, wrap-pos, ◌∙◌, ap, Text, length, take, length-append, if◌then◌else◌, ◌==◌,
  arith, lit,
}
use worker_lightweight.Model.{Task, Result}
use worker_lightweight.Worker.{
  Config, Run, exited, broke, trunc_str, task_timeout, rejects_unlisted, rejects_listed, run_result,
  exec, run_task,
}

length-take-le : (n : ℕ) (s : Text) → length (take n s) ≤ n
length-take-le zero s = omega arith
length-take-le (suc n) [] = omega arith
length-take-le (suc n) (c ∷ s) = omega (arith, length-take-le n s)

length-trunc_str : (s : Text) (n : ℕ) → length (trunc_str s n) ≤ n + 14
unfolding trunc_str
length-trunc_str s n =
    ground (arith, length-append (take n s) (lit "...(truncated)"), length-take-le n s)

length-run_result : (r : Run) → length (run_result r).1 ≤ 4110
unfolding run_result
length-run_result (exited out) = omega (arith, length-trunc_str out 4096)
length-run_result (broke stderr error) =
    omega (arith, length-trunc_str (if stderr == [] then error else stderr) 4096)

-- Whatever the shell prints and whatever the filters are, the output that exec gives for the result
-- column has at most 4110 bytes.
pub length-exec :
    (c : Config) (shell : Text → Run) (command : Text) → length (exec c shell command).1 ≤ 4110
unfolding exec
length-exec c shell command = ground (arith, length-run_result (shell command))

-- A command that the filters reject never reaches the shell, whatever the shell would do: the
-- result is the same under any shell.
pub exec_rejected :
    (c : Config) (shell other : Text → Run) (command : Text)
    → (rejects_unlisted c.allowed command ≡ true) ⊎ (rejects_listed c.blocked command ≡ true)
    → ((exec c shell command).0 ≡ false) × (exec c shell command ≡ exec c other command)
unfolding exec
exec_rejected c shell other command h = ground arith

mul-second : (n : ℕ) → pos n *ℤ pos (10 ^ 9) ≡ pos (n * 10 ^ 9)
unfolding ◌*ℤ◌
mul-second n = ground arith

wrap_seconds : (n : ℕ) → n < 9223372037 → wrap (pos n *ℤ pos (10 ^ 9)) ≡ pos (n * 10 ^ 9)
wrap_seconds n small = ap wrap (mul-second n) ∙ wrap-pos (n * 10 ^ 9) (omega arith)

-- A positive timeout below 9223372037 seconds is that many nanoseconds, with no overflow.
pub task_timeout_lem :
    (t : Task) (n : ℕ)
    → t.timeout_sec ≡ pos (suc n)
    → suc n < 9223372037
    → task_timeout t ≡ pos (suc n * 10 ^ 9)
unfolding task_timeout
task_timeout_lem t n h small = rw h (ground (arith, wrap_seconds (suc n) small))

abbrev pub Passes : Config → Text → Type 0
Passes c command =
    (rejects_unlisted c.allowed command ≡ false) × (rejects_listed c.blocked command ≡ false)

exec-Passes :
    (c : Config) (shell : Text → Run) (command : Text)
    → (exec c shell command).0 ≡ true
    → Passes c command × ((run_result (shell command)).0 ≡ true)
unfolding exec
exec-Passes c shell command h = ground arith

exec_exited :
    (c : Config) (shell : Text → Run) (command out : Text)
    → Passes c command
    → shell command ≡ exited out
    → (exec c shell command).0 ≡ true
unfolding exec run_result
exec_exited c shell command out (p, q) e = rw (p, q, e) refl

run_result-exited : (run : Run) → (run_result run).0 ≡ true → (out : Text) × (run ≡ exited out)
unfolding run_result
run_result-exited (exited out) h = (out, refl)
run_result-exited (broke stderr error) h = cc

-- A task whose context has ended, by its timeout or by a stop, is never reported, whatever its
-- command did; any other is reported under the worker's and the task's id, as a success exactly if
-- the filters let the command pass and the shell exited without an error.
pub run_task_lem :
    (c : Config) (shell : Text → Run) (t : Task)
    → (run_task c shell true t ≡ none)
      × ((r : Result) × (run_task c shell false t ≡ some r)
          × (r.task_id ≡ t.id)
          × (r.worker_id ≡ c.id)
          × ((r.success ≡ true)
              ↔ (Passes c t.command × ((out : Text) × (shell t.command ≡ exited out)))))
unfolding run_task
run_task_lem c shell t = (
  refl,
  (
    reported,
    refl,
    refl,
    refl,
    (
      λ h.
          let p = exec-Passes c shell t.command h in (p.0, run_result-exited (shell t.command) p.1),
      λ q. exec_exited c shell t.command q.1.0 q.0 q.1.1,
    ),
  ),
)
  where
    reported : Result
    reported = record {
      task_id = t.id;
      worker_id = c.id;
      success = (exec c shell t.command).0;
      output = (exec c shell t.command).1;
    }
