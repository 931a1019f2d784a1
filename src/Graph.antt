-- ===== src/Graph.antt =====
-- crates/wkp-core/src/graph.rs: the references between items.
pub mod Links
pub mod Paths
