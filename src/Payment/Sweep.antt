-- ===== src/Payment/Sweep.antt =====
-- The two ways a payment is concluded:
-- payment/application/use-cases/handle-payment-notification.use-case.ts and
-- payment/application/use-cases/reconcile-pending-payments.use-case.ts.
use voxkivre_backend.Prelude.{
  ℕ, ◌||◌, not, Bool, true, false, List, Option, none, some, Outcome, done, thrown, Result, ok, err,
  if◌then◌else◌,
}
use voxkivre_backend.Payment.Status.{
  PaymentStatus, webhook, sweep, PaymentProvider, PaymentFailureCode, no_provider_reference,
  Payment, PaymentRow, ProviderTransaction,
}
use voxkivre_backend.Payment.Store.{
  World, to_expired, find_by_provider_reference, find_by_external_reference, complete,
}
use voxkivre_backend.Payment.Policy.{is_expiry_due}
use voxkivre_backend.Payment.Settler.{
  SettlementOutcome, PaymentUnavailable, Stamps, settle_with_reference, settle,
}

pub record NotificationTarget : Type 0 where
  pub reference : ℕ
  pub external_reference : Option (List ℕ)

pub data NotificationOutcome : Type 0 where
  settled : SettlementOutcome → NotificationOutcome
  ignored : NotificationOutcome

pub data NotificationError : Type 0 where
  invalid_notification : NotificationError
  unavailable : PaymentUnavailable → NotificationError

-- The provider, as far as notifications and the sweep call it.
pub record Gateway (Payload : Type 0) : Type 0 where
  pub provider : Option PaymentProvider
  pub get_transaction : ℕ → Result ProviderTransaction PaymentUnavailable
  pub verify_notification : Payload → Option NotificationTarget

abbrev pub by_external : Option (List ℕ) → List PaymentRow → Option Payment
by_external none rows = none
by_external (some reference) rows = find_by_external_reference reference rows

abbrev pub or_else : Option Payment → Option Payment → Option Payment
or_else (some p) other = some p
or_else none other = other

abbrev pub payment_for : PaymentProvider → NotificationTarget → World → Option Payment
payment_for provider target world =
    or_else (find_by_provider_reference provider target.reference world.payments)
      (by_external target.external_reference world.payments)

abbrev pub NotificationAnswer : Type 0
NotificationAnswer = Outcome (Result NotificationOutcome NotificationError) × World

abbrev pub notified :
    Outcome (Result SettlementOutcome PaymentUnavailable) × World → NotificationAnswer
notified (done (ok outcome), world) = (done (ok (settled outcome)), world)
notified (done (err e), world) = (done (err (unavailable e)), world)
notified (thrown fault, world) = (thrown fault, world)

module _ {Payload : Type 0} where
  abbrev pub settle_found :
      Gateway Payload → NotificationTarget → Stamps → World → Option Payment → NotificationAnswer
  settle_found gateway target at world none = (done (ok ignored), world)
  settle_found gateway target at world (some payment) = notified (
      settle_with_reference payment target.reference webhook at
        (gateway.get_transaction target.reference) world)

  abbrev pub handle_target :
      Gateway Payload
      → PaymentProvider
      → Stamps
      → World
      → Option NotificationTarget
      → NotificationAnswer
  handle_target gateway provider at world none = (done (err invalid_notification), world)
  handle_target gateway provider at world (some target) =
      settle_found gateway target at world (payment_for provider target world)

  abbrev pub handle_if_enabled :
      Gateway Payload → Payload → Stamps → World → Option PaymentProvider → NotificationAnswer
  handle_if_enabled gateway payload at world none = (done (err invalid_notification), world)
  handle_if_enabled gateway payload at world (some provider) =
      handle_target gateway provider at world (gateway.verify_notification payload)

  unfoldable pub handle_notification :
      Gateway Payload → Payload → Stamps → World → NotificationAnswer
  handle_notification gateway payload at world =
      handle_if_enabled gateway payload at world gateway.provider

pub data ReconcileOutcome : Type 0 where
  settled : SettlementOutcome → ReconcileOutcome
  expired unavailable raced : ReconcileOutcome

abbrev pub is_waiting : SettlementOutcome → Bool
is_waiting SettlementOutcome.waiting = true
is_waiting SettlementOutcome.succeeded = false
is_waiting SettlementOutcome.failed = false
is_waiting SettlementOutcome.amount_mismatch = false
is_waiting SettlementOutcome.unchanged = false
is_waiting SettlementOutcome.raced = false
is_waiting SettlementOutcome.anomalous = false

abbrev pub expiry_code : Option ℕ → Option PaymentFailureCode
expiry_code none = some no_provider_reference
expiry_code (some reference) = none

abbrev pub expired_or_raced : Bool → ReconcileOutcome
expired_or_raced true = expired
expired_or_raced false = raced

unfoldable pub expire : Payment → (expired_at : ℕ) → World → Outcome ReconcileOutcome × World
expire payment expired_at world =
    let (moved, rows) =
      complete payment.id PaymentStatus.pending
        (to_expired (expiry_code payment.provider_reference)) expired_at world.payments in
    (done (expired_or_raced moved), record world { payments = rows })

unfoldable pub conclude_sweep :
    Payment
    → (checked_at expired_at : ℕ) → Outcome (Result SettlementOutcome PaymentUnavailable) × World
    → Outcome ReconcileOutcome × World
conclude_sweep payment checked_at expired_at (thrown fault, world) = (thrown fault, world)
conclude_sweep payment checked_at expired_at (done (err e), world) = (done unavailable, world)
conclude_sweep payment checked_at expired_at (done (ok outcome), world) =
    if not (is_waiting outcome) || not (is_expiry_due payment checked_at)
    then (done (settled outcome), world)
    else expire payment expired_at world

-- One payment of the sweep, with the clock at the test of its age and at its expiry.
unfoldable pub reconcile :
    (get_transaction : ℕ → Result ProviderTransaction PaymentUnavailable)
    → Payment
    → Stamps
    → (checked_at expired_at : ℕ) → World
    → Outcome ReconcileOutcome × World
reconcile get_transaction payment at checked_at expired_at world =
    conclude_sweep payment checked_at expired_at (settle payment sweep at get_transaction world)
