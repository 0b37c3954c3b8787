-- ===== src/Notify.antt =====
-- internal/notify: rules, channels and the pacing of failure alerts.
pub mod Pacing
pub mod Worker
