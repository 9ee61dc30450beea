-- ===== src/Tests.antt =====
-- Concrete tables, requests and runs at which the theorems are applied.
pub mod Oldest
pub mod Data
pub mod Stores
pub mod Runs
pub mod Services
pub mod Workers
pub mod Limits
pub mod Boards
mod Pages
pub mod Pools
pub mod Settled
pub mod Exchanges
pub mod Starts
