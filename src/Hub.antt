-- ===== src/Hub.antt =====
-- crates/wkp-hub/src: the control plane of the hub, and its HTTP handlers.
pub mod Store
pub mod Control
pub mod Grants
pub mod Http
pub mod Reply
pub mod Gate
pub mod Enrol
pub mod Rows
pub mod Tables
pub mod Steps
pub mod Metrics
pub mod Front
