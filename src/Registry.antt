-- ===== src/Registry.antt =====
-- crates/wkp-hub/src/connection_registry.rs: the registry of open connections, and their streams.
pub mod Defs
pub mod Stream
mod Tokens
pub mod Close
pub mod Sweep
pub mod Listen
pub mod System
