-- ===== src/Config.antt =====
-- The configuration layer (internal/config).
pub mod Value
pub mod Merge
pub mod RepoKey
pub mod Repositories
pub mod ArchivePatterns
