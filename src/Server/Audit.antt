-- ===== src/Server/Audit.antt =====
-- internal/server/server.go: captureWriter and auditMiddleware.
use worker_lightweight.Base.{
  ℕ, List, [], ◌∷◌, ◌++◌, Option, none, some, Text, lit, split, after_prefix,
}
use worker_lightweight.Server.Types.{Request, Response, Method}
use worker_lightweight.Server.Auth.{client_ip}

pub record AuditEntry : Type 0 where
  pub ts : Text
  pub remote_ip : Text
  pub method : Method
  pub path : Text
  pub query : Text
  pub task_id : Text
  pub status : ℕ

-- The log, from its start; none where it is disabled.
abbrev pub AuditLog : Type 0
AuditLog = Option (List AuditEntry)

abbrev first_of : List Text → Text
first_of [] = []
first_of (p ∷ ps) = p

abbrev task_id_in : Option Text → Text
task_id_in none = []
task_id_in (some rest) = first_of (split b'/' rest)

unfoldable pub task_id_of : Text → Text
unfolding split after_prefix
task_id_of path = task_id_in (after_prefix (lit "/api/tasks/") path)

-- captureWriter keeps the status that the handler wrote.
unfoldable pub entry_of : Text → Request → Response → AuditEntry
unfolding task_id_of client_ip
entry_of ts r response = record {
  ts = ts;
  remote_ip = client_ip r;
  method = r.method;
  path = r.path;
  query = r.raw_query;
  task_id = task_id_of r.path;
  status = response.status;
}

abbrev pub append_entry : AuditEntry → AuditLog → AuditLog
append_entry e none = none
append_entry e (some log) = some (log ++ e ∷ [])
