-- ===== src/Server/Lifecycle.antt =====
-- internal/server/server.go: New, Start, Shutdown and Close.
use worker_lightweight.Base.{
  Bool, true, false, not, ◌&&◌, List, [], ◌∷◌, Option, none, some, ℤ, pos, ltb_ℤ, Text, text_beq,
  ◌==◌, text_eq, if◌then◌else◌,
}
use worker_lightweight.Store.Db.{Db}
use worker_lightweight.Server.Limiter.{new_rate_limiter}
use worker_lightweight.Server.Limiter.Floats.{Float}
use worker_lightweight.Server.Audit.{AuditLog}
use worker_lightweight.Server.Gate.{Service}

-- What New is called with, besides the store and the files.
pub record Options : Type 0 where
  pub addr : Text
  pub token : Text
  pub tls_cert : Text
  pub tls_key : Text
  pub rate_limit : ℤ

-- What Start listens with.
pub data Listener : Type 0 where
  plain : Listener
  tls : (cert key : Text) → Listener

-- An error of the listener: the one that Shutdown causes, or another.
pub data ServeError : Type 0 where
  server_closed : ServeError
  broken : Text → ServeError

module _ {ℓ} {F : Type ℓ} ⦃fl : Float F⦄ where
  -- New, with a store that was opened, over its table.
  unfoldable pub new_service : Options → AuditLog → Db → Service F
  unfolding new_rate_limiter
  new_service o audit db = record {
    state = record { token = o.token; db = db; registry = []; resync_pending = false };
    limiter = if ltb_ℤ (pos 0) o.rate_limit then some (new_rate_limiter o.rate_limit) else none;
    audit = audit;
  }

-- Start: the listener that it runs.
unfoldable pub listener : Options → Listener
unfolding text_beq
listener o =
    if not (o.tls_cert == []) && not (o.tls_key == []) then tls o.tls_cert o.tls_key else plain

-- What Start makes of the listener's error; none is nil.
unfoldable pub start_result : ServeError → Option ServeError
start_result server_closed = none
start_result (broken message) = some (broken message)

-- The resources that Close gives back.
pub data Resource : Type 0 where
  audit_file store : Resource

-- Close: what it closes, in order, and whether it returns an error; an error of the audit file is
-- dropped.
unfoldable pub close_server : (has_audit audit_fails store_fails : Bool) → List Resource × Bool
close_server true audit_fails store_fails = (audit_file ∷ store ∷ [], store_fails)
close_server false audit_fails store_fails = (store ∷ [], store_fails)
