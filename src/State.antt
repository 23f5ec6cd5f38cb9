-- ===== src/State.antt =====
-- Persisted state (internal/state).
pub mod Outcome
pub mod RecordRun
pub mod Schedule
pub mod Store
pub mod GroupCache
