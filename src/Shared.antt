-- ===== src/Shared.antt =====
-- The part of src/shared that the modules build on.
pub mod IdempotencyKey
pub mod Text
