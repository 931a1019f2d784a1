-- ===== src/Merge.antt =====
-- crates/wkp-core/src/merge.rs: the three-way merge of markdown files.
pub mod Scalars
pub mod Lists
pub mod Defs
pub mod Conflict
pub mod Clean
