-- ===== src/Conversion/FailConversion.antt =====
-- conversion/application/use-cases/fail-conversion.use-case.ts
use voxkivre_backend.Prelude.{
  ℕ, ◌-◌, Bool, true, false, Option, none, some, Outcome, done, ◌>>=◌, with_transaction,
}
use voxkivre_backend.Billing.RefundQuota.{refund_quota}
use voxkivre_backend.Conversion.Status.{ConversionFailureReason}
use voxkivre_backend.Conversion.Store.{World, FailedConversionCharge, mark_failed}

-- What is left of a reservation: nothing is refunded where more was consumed than reserved, as
-- the refund of a number that is not positive does nothing.
abbrev pub refund_of : FailedConversionCharge → ℕ
refund_of charge = charge.reserved_chars - charge.consumed_chars

abbrev pub refund_charge :
    ℕ → (now entry_id : ℕ) → Option FailedConversionCharge → World → Outcome (Bool × World)
refund_charge id now entry_id none w = done (false, w)
refund_charge id now entry_id (some charge) w = do
  (given, db) ← refund_quota id (refund_of charge) now entry_id w.billing
  done (true, record w { billing = db })

-- The callback of `withTransaction`.
unfoldable pub fail_and_refund :
    ℕ → ConversionFailureReason → (now entry_id : ℕ) → World → Outcome (Bool × World)
fail_and_refund id reason now entry_id w =
    let (charge, w') = mark_failed id reason now w in refund_charge id now entry_id charge w'

unfoldable pub fail_conversion :
    ℕ → ConversionFailureReason → (now entry_id : ℕ) → World → Outcome Bool × World
unfolding fail_and_refund
fail_conversion id reason now entry_id w =
    with_transaction (fail_and_refund id reason now entry_id) w
