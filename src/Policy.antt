-- ===== src/Policy.antt =====
-- DLP policies: crates/scrooge-policy.
pub mod Defs
pub mod Size
pub mod Validate
pub mod Compile
