-- ===== src/Git.antt =====
-- crates/wkp-git/src: what is read from git's output and from the file of signers. Git itself is
-- not modelled.
pub mod Signers
pub mod Changes
