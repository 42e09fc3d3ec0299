-- ===== src/Collection.antt =====
-- internal/collection: a platform's set of games measured against the library.
pub mod Model
pub mod CloneList
pub mod Policy
pub mod Keeper
pub mod Build
pub mod Reconcile
