-- ===== src/Store.antt =====
-- internal/store: the tables and the transactions on them.
pub mod Schema
pub mod Table
pub mod Streak
pub mod Pacing
pub mod Emit
pub mod PingState
pub mod PingLog
pub mod Pings
pub mod Runs
pub mod Deliveries
pub mod Prune
pub mod Channels
pub mod JobRows
