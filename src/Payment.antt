-- ===== src/Payment.antt =====
-- Payments by Mobile Money (src/modules/payment).
pub mod MobileMoneyNumber
pub mod Status
pub mod Settlement
pub mod Store
pub mod Policy
pub mod Settler
pub mod Initiate
pub mod Sweep
pub mod Lifecycle
pub mod System
pub mod Replay
pub mod Expiry
pub mod Limits
pub mod Batch
pub mod Tests
