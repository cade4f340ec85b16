-- ===== src/Conversion/Outcomes.antt =====
-- What single calls of conversion leave behind.
pub mod Failing
pub mod Starting
pub mod Planning
