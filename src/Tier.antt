-- ===== src/Tier.antt =====
-- crates/wkp-core/src/index/tier.rs: the tier of an item, and the calendar date of a day count.
pub mod Civil
pub mod Compute
pub mod Paths
pub mod Gate
