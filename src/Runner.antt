-- ===== src/Runner.antt =====
-- internal/runner: the execution of borgmatic for the groups of volumes.
pub mod Locks
pub mod Results
pub mod Matching
pub mod Mentions
pub mod Outcomes
pub mod Verdict
