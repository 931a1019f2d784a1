-- ===== src/Usage.antt =====
-- crates/wkp-core/src/usage/store.rs: the usage counters, in rings of three resolutions.
pub mod Store
pub mod Counts
pub mod Record
pub mod Query
pub mod Latest
pub mod Window
