-- ===== src/Frontmatter.antt =====
-- crates/wkp-core/src/frontmatter.rs: the OKF frontmatter of a markdown file.
pub mod Types
pub mod Lines
pub mod Values
pub mod Parse
pub mod Render
pub mod RoundTrip
