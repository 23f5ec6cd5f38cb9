-- ===== src/Restore.antt =====
-- cmd/borgmatic-manager/restore_swap.go: the replacement of a volume's data by restored data.
pub mod Disk
pub mod Swap
pub mod Recovery
