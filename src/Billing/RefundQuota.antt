-- ===== src/Billing/RefundQuota.antt =====
-- billing/application/use-cases/refund-quota.use-case.ts
pub mod Cases
pub mod Once
use voxkivre_backend.Prelude.{
  ℕ, leb, min, Bool, false, Option, none, some, Outcome, done, ◌>>=◌, if◌then◌else◌,
}
use voxkivre_backend.Billing.Units.{units_for_chars}
use voxkivre_backend.Billing.Allocation.{split_refund}
use voxkivre_backend.Billing.Store.{Db}
use voxkivre_backend.Billing.UnitsLedger.{UnitsReservation, find_reservation, record_refund}

unfoldable pub refund_reservation :
    UnitsReservation → (chars now entry_id : ℕ) → Db → Outcome (Bool × Db)
refund_reservation r chars now entry_id db = do
  let refunded_chars = min chars r.chars
  units ← units_for_chars refunded_chars r.tier
  refund ← split_refund r.taken units
  record_refund r refund refunded_chars now entry_id db

abbrev pub refund_found :
    Option UnitsReservation → (chars now entry_id : ℕ) → Db → Outcome (Bool × Db)
refund_found none chars now entry_id db = done (false, db)
refund_found (some r) chars now entry_id db =
    if r.refunded then done (false, db) else refund_reservation r chars now entry_id db

unfoldable pub refund_quota : (reservation_id chars now entry_id : ℕ) → Db → Outcome (Bool × Db)
refund_quota reservation_id chars now entry_id db =
    if leb chars 0
    then done (false, db)
    else (do found ← find_reservation reservation_id db; refund_found found chars now entry_id db)
