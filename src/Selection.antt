-- ===== src/Selection.antt =====
-- internal/selection: which release to download. `Model` holds the data of internal/models and
-- internal/db that the selector reads, `Filter` the hard filters and the pinned dump, `Rank` the
-- order of the candidates, `Groups` the disc sets, `Pick` the decision and `Name` the parser of names.
pub mod Model
pub mod Filter
pub mod Rank
pub mod Groups
pub mod Pick
pub mod Name
