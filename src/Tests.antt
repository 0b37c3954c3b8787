-- ===== src/Tests.antt =====
-- Runs of the model on concrete inputs.
pub mod Data
pub mod Beats
pub mod Alerts
pub mod Queue
pub mod Sends
pub mod Runs
