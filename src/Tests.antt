-- ===== src/Tests.antt =====
-- Concrete runs of the model, and the theorems at concrete inputs.
mod Layers
mod Repositories
mod Retired
mod SharedFile
mod Patterns
mod Wakes
mod Cycles
mod Triggers
mod Rounds
mod Labels
mod Locks
mod Judged
mod Swaps
mod Members
