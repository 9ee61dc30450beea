-- ===== src/Tests/Starts.antt =====
-- main.go and internal/store/store.go: the theorems on the start of a server, at concrete flags.
use worker_lightweight.Base.{
  Bool, true, false, [], Option, none, some, pos, Text, lit, text_eq, ◌==◌, if◌then◌else◌,
}
use worker_lightweight.Server.Lifecycle.{Options}
use worker_lightweight.Command.{signalled}
use worker_lightweight.Command.Starts.{Closing, actions, run_server-closes}
use worker_lightweight.Store.Schema.Opening.{Modes}

abbrev secured : Options
secured = record {
  addr = lit "0.0.0.0:8443";
  token = [];
  tls_cert = lit "cert.pem";
  tls_key = lit "key.pem";
  rate_limit = pos 0;
}

abbrev host_of : Text → Option Text
host_of addr = some (lit "0.0.0.0")

abbrev loopback_of : Text → Option Bool
loopback_of host = some false

closes_all : Closing (actions host_of loopback_of secured (lit "audit.log") true true signalled)
closes_all = run_server-closes host_of loopback_of secured (lit "audit.log") true true signalled

abbrev two_files : Modes
two_files p = if p == lit "d/t.db" then some 420 else if p == lit "d" then some 493 else none
