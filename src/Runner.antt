-- ===== src/Runner.antt =====
-- internal/jobs/runner.go: the scheduler, the reaper, and how a run that was claimed is recorded.
pub mod Tick
pub mod Finish
pub mod Redact
pub mod Reap
