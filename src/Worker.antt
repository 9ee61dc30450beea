-- ===== src/Worker.antt =====
-- internal/worker/pool.go: what a worker does with a task that it pulled.
pub mod Active
pub mod Outcomes
pub mod Pool
pub mod Client
use worker_lightweight.Base.{
  ℕ, ◌*◌, ◌^◌, ◌+◌, Bool, true, false, not, ◌&&◌, List, [], ◌∷◌, ◌++◌, Option, none, some, ℤ, pos,
  ◌*ℤ◌, wrap, leb_ℤ, Text, lit, text_beq, length, take, leb, ◌==◌, text_eq, int_eq, select,
  if◌then◌else◌,
}
use worker_lightweight.Model.{Task, Result}

-- A compiled filter, nil where it is not configured.
abbrev pub Filter : Type 0
Filter = Option (Text → Bool)

pub record Config : Type 0 where
  pub id : Text
  pub allowed : Filter
  pub blocked : Filter

-- truncStr: `len(s)` counts bytes.
unfoldable pub trunc_str : Text → ℕ → Text
trunc_str s n = if leb (length s) n then s else take n s ++ lit "...(truncated)"

-- 5 minutes, in nanoseconds.
abbrev pub default_timeout : ℤ
default_timeout = pos (5 * 60 * 10 ^ 9)

-- taskTimeout, a Duration, so an int64.
unfoldable pub task_timeout : Task → ℤ
task_timeout t =
    if leb_ℤ t.timeout_sec (pos 0) then default_timeout else wrap (t.timeout_sec *ℤ pos (10 ^ 9))

-- What `/bin/sh -c command` ends in under its context: its output, or stderr and cmd.Run's error.
pub data Run : Type 0 where
  exited : (stdout : Text) → Run
  broke : (stderr : Text) (error : Text) → Run

abbrev pub rejects_unlisted : Filter → Text → Bool
rejects_unlisted none command = false
rejects_unlisted (some re) command = not (re command)

abbrev pub rejects_listed : Filter → Text → Bool
rejects_listed none command = false
rejects_listed (some re) command = re command

abbrev pub not_allowed : Text
not_allowed = lit "command blocked by security policy (not matching allowed-commands)"

abbrev pub blocked_message : Text
blocked_message = lit "command blocked by security policy (matched blocked-commands)"

unfoldable pub run_result : Run → Bool × Text
unfolding trunc_str text_beq
run_result (exited stdout) = (true, trunc_str stdout 4096)
run_result (broke stderr error) = (false, trunc_str (if stderr == [] then error else stderr) 4096)

-- exec. `shell` is called only if the filters let the command pass.
unfoldable pub exec : Config → (Text → Run) → Text → Bool × Text
unfolding run_result
exec c shell command =
    if rejects_unlisted c.allowed command
    then (false, not_allowed)
    else if rejects_listed c.blocked command
    then (false, blocked_message)
    else run_result (shell command)

-- What runTask makes of exec's result when its context has ended, by a stop or by the timeout.
unfoldable pub settle_run : Bool → Bool × Text → Bool × Text
unfolding text_beq
settle_run false r = r
settle_run true (true, output) = (false, if output == [] then lit "stopped by user" else output)
settle_run true (false, output) = (false, output)

-- report: the request is made under the task's own context, and net/http does not send a request
-- whose context has ended.
unfoldable pub report : Bool → Result → Option Result
report true r = none
report false r = some r

-- runTask, up to the report that leaves the worker. `ended` says whether the task's context has
-- ended when exec returns.
unfoldable pub run_task : Config → (Text → Run) → Bool → Task → Option Result
unfolding exec settle_run report
run_task c shell ended t =
    let r = settle_run ended (exec c shell t.command) in
    report ended (record { task_id = t.id; worker_id = c.id; success = r.0; output = r.1 })
