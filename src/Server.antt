-- ===== src/Server.antt =====
-- internal/server: the HTTP API over the store, the worker registry and the cron scheduler.
pub mod Types
pub mod Registry
pub mod Limiter
pub mod Auth
pub mod Handlers
pub mod Pulls
pub mod Routes
pub mod Actions
pub mod Audit
pub mod Gate
pub mod Lifecycle
pub mod Runs
pub mod Dashboard
pub mod Page
