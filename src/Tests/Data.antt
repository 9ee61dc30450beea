-- ===== src/Tests/Data.antt =====
-- The rows, tables and library functions that the examples run on.
use worker_lightweight.Base.{Bool, true, false, [], ◌∷◌, pos, Text, lit}
use worker_lightweight.Model.{Task, Result, once, cron, pending, running, stopped}
use worker_lightweight.Store.Db.{Db}
use worker_lightweight.Store.Query.{ListFilter}

abbrev pub backup : Task
backup = record {
  id = pos 1;
  name = lit "backup";
  command = lit "true";
  type = once;
  cron_expr = [];
  status = pending;
  max_retry = pos 2;
  retry_count = pos 0;
  timeout_sec = pos 30;
  worker_id = [];
  parent_id = pos 0;
  enabled = true;
  result = [];
  created_at = 10;
  updated_at = 10;
  next_run_at = 10;
}

abbrev pub nightly : Task
nightly = record backup { id = pos 2; name = lit "nightly"; type = cron; cron_expr = lit "@daily" }

abbrev pub child : Task
child = record backup {
  id = pos 3;
  name = lit "nightly#1";
  status = running;
  worker_id = lit "w1";
  parent_id = pos 2;
  next_run_at = 5;
}

abbrev pub halted_child : Task
halted_child = record child { id = pos 4; status = stopped }

abbrev pub later : Task
later = record backup { id = pos 5; name = lit "later"; next_run_at = 7 }

abbrev pub table : Db
table = record { tasks = backup ∷ nightly ∷ child ∷ halted_child ∷ later ∷ []; last_id = 5 }

abbrev pub failure : Result
failure = record { task_id = pos 3; worker_id = lit "w1"; success = false; output = lit "exit 1" }

-- A LIKE under which every pattern matches.
abbrev pub like_all : Text → Text → Bool
like_all pattern s = true

abbrev pub all_rows : ListFilter
all_rows = record {
  name = lit "a";
  command = [];
  type = lit "once";
  status = lit "pending, running";
  worker = [];
  enabled = [];
  parent_id = pos 0;
}
