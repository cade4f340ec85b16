-- ===== src/Billing.antt =====
-- modules/billing.
pub mod Units
pub mod Allocation
pub mod Offers
pub mod Catalog
pub mod Store
pub mod UnitsLedger
pub mod Period
pub mod PurchaseLedger
pub mod ReserveQuota
pub mod RefundQuota
pub mod GrantOffer
pub mod Conservation
pub mod System
pub mod Tests
