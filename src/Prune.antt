-- ===== src/Prune.antt =====
-- internal/prune/prune.go: the dumps on disk that the set does not keep, offered and archived.
pub mod Model
pub mod Preview
pub mod Disk
pub mod Apply
pub mod Runner
pub mod Keepers
