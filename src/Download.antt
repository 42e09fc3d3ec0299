-- ===== src/Download.antt =====
-- internal/download and internal/db: what a failed download does, and the disc sets.
pub mod Model
pub mod Blocklist
pub mod Failure
pub mod Sets
pub mod Tests
