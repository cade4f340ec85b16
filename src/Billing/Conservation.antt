-- ===== src/Billing/Conservation.antt =====
-- What the counters of billing stand for: the units that the reservations still hold, the units
-- bought, and the journal of the wallet. No operation may lose a unit or make one up.
pub mod Books
pub mod Reserve
pub mod Refund
pub mod Purchase
pub mod ReserveQuota
