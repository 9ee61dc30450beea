-- ===== src/Store.antt =====
-- internal/store/store.go: the task table and the operations on it.
pub mod Db
pub mod Rules
pub mod Tasks
pub mod Control
pub mod Claim
pub mod Report
pub mod Query
pub mod Life
pub mod Schema
