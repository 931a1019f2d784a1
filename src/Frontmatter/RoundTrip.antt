-- ===== src/Frontmatter/RoundTrip.antt =====
-- `parse` after `render`: the conditions, the pieces and the theorem are in the modules below.
pub mod Plain
mod Blocks
mod Steps
mod Provenance
mod Fields
mod Pieces
pub mod Conditions
mod Children
pub mod Whole
