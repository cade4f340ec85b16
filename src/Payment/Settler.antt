-- ===== src/Payment/Settler.antt =====
-- payment/application/services/payment-settler.service.ts, with `grant` of
-- payment/infrastructure/billing/billing.adapter.ts. What runs outside a transaction stays
-- written when a later statement throws. Log lines are left out.
use voxkivre_backend.Prelude.{
  ℕ, Option, none, some, Bool, true, false, not, ◌&&◌, Outcome, done, thrown, ◌>>=◌,
  with_transaction, broken_invariant, Result, ok, err, if◌then◌else◌,
}
use voxkivre_backend.Billing.GrantOffer.{GrantOfferOutput, GrantError, grant_offer}
use voxkivre_backend.Payment.Status.{
  PaymentStatus, pending, ConfirmationChannel, Payment, ProviderTransaction,
}
use voxkivre_backend.Payment.Settlement.{
  Settlement, succeed, fail, flag_amount_mismatch, wait, nothing, anomaly, settlement_for,
}
use voxkivre_backend.Payment.Store.{
  World, to_succeeded, to_failed, to_amount_mismatch, is_unset, attach_provider_reference, complete,
}

pub data SettlementOutcome : Type 0 where
  succeeded failed amount_mismatch waiting unchanged raced anomalous : SettlementOutcome

pub data PaymentUnavailable : Type 0 where
  payment_unavailable : PaymentUnavailable

-- The times that the clock gives along one settlement, and the identifier of a new row of billing.
pub record Stamps : Type 0 where
  pub attached_at : ℕ
  pub settled_at : ℕ
  pub granted_at : ℕ
  pub granted_id : ℕ

abbrev pub granted_or_abort : Result GrantOfferOutput GrantError → World → Outcome (Bool × World)
granted_or_abort (ok granted) world = done (true, world)
granted_or_abort (err refusal) world = thrown broken_invariant

unfoldable pub grant_paid : Payment → Stamps → World → Outcome (Bool × World)
grant_paid payment at world = do
  (granted, db) ←
      grant_offer
        (record {
          payment_reference = payment.id;
          user_id = payment.user_id;
          offer_code = payment.offer_code;
        })
        at.granted_at at.granted_id world.billing
  granted_or_abort granted (record world { billing = db })

-- The callback of `withTransaction`.
unfoldable pub succeed_in_transaction :
    Payment → (from : PaymentStatus) → ConfirmationChannel → Stamps → World → Outcome (Bool × World)
succeed_in_transaction payment from via at world =
    let (completed, rows) =
      complete payment.id from (to_succeeded via) at.settled_at world.payments in
    if completed
    then grant_paid payment at (record world { payments = rows })
    else done (false, record world { payments = rows })

abbrev pub moved_or_raced : SettlementOutcome → Bool → SettlementOutcome
moved_or_raced outcome true = outcome
moved_or_raced outcome false = raced

abbrev pub reported : Outcome Bool × World → Outcome SettlementOutcome × World
reported (done moved, world) = (done (moved_or_raced succeeded moved), world)
reported (thrown fault, world) = (thrown fault, world)

unfoldable pub apply :
    Payment → Settlement → ConfirmationChannel → Stamps → World → Outcome SettlementOutcome × World
apply payment (succeed from) via at world =
    reported (with_transaction (succeed_in_transaction payment from via at) world)
apply payment (fail code) via at world =
    let (moved, rows) =
      complete payment.id pending (to_failed (some via) code) at.settled_at world.payments in
    (done (moved_or_raced failed moved), record world { payments = rows })
apply payment flag_amount_mismatch via at world =
    let (moved, rows) =
      complete payment.id payment.status (to_amount_mismatch via) at.settled_at world.payments in
    (done (moved_or_raced amount_mismatch moved), record world { payments = rows })
apply payment wait via at world = (done waiting, world)
apply payment nothing via at world = (done unchanged, world)
apply payment (anomaly reason) via at world = (done anomalous, world)

abbrev pub is_anomaly : Settlement → Bool
is_anomaly (succeed from) = false
is_anomaly (fail code) = false
is_anomaly flag_amount_mismatch = false
is_anomaly wait = false
is_anomaly nothing = false
is_anomaly (anomaly reason) = true

-- The reference is attached first, where it is missing.
unfoldable pub attach_if_missing : Payment → Settlement → (reference at : ℕ) → World → Outcome World
attach_if_missing payment decision reference at world =
    if is_unset payment.provider_reference && not (is_anomaly decision)
    then (do
      (attached, rows) ← attach_provider_reference payment.id reference at world.payments
      done (record world { payments = rows }))
    else done world

abbrev pub apply_after :
    Payment
    → Settlement
    → ConfirmationChannel
    → Stamps
    → World
    → Outcome World
    → Outcome SettlementOutcome × World
apply_after payment decision via at world (done attached) = apply payment decision via at attached
apply_after payment decision via at world (thrown fault) = (thrown fault, world)

abbrev pub as_result :
    Outcome SettlementOutcome × World
    → Outcome (Result SettlementOutcome PaymentUnavailable) × World
as_result (done outcome, world) = (done (ok outcome), world)
as_result (thrown fault, world) = (thrown fault, world)

-- `read` is the answer of the provider.
unfoldable pub settle_with_reference :
    Payment
    → (reference : ℕ) → ConfirmationChannel
    → Stamps
    → Result ProviderTransaction PaymentUnavailable
    → World
    → Outcome (Result SettlementOutcome PaymentUnavailable) × World
settle_with_reference payment reference via at (err unavailable) world =
    (done (err unavailable), world)
settle_with_reference payment reference via at (ok transaction) world =
    let decision = settlement_for payment transaction in
    as_result (
      apply_after payment decision via at world
        (attach_if_missing payment decision reference at.attached_at world))

abbrev pub settle_by :
    Option ℕ
    → Payment
    → ConfirmationChannel
    → Stamps
    → (get_transaction : ℕ → Result ProviderTransaction PaymentUnavailable) → World
    → Outcome (Result SettlementOutcome PaymentUnavailable) × World
settle_by none payment via at get_transaction world = (done (ok waiting), world)
settle_by (some reference) payment via at get_transaction world =
    settle_with_reference payment reference via at (get_transaction reference) world

-- The gateway, as far as a settlement uses it: a function of the reference asked for.
unfoldable pub settle :
    Payment
    → ConfirmationChannel
    → Stamps
    → (get_transaction : ℕ → Result ProviderTransaction PaymentUnavailable) → World
    → Outcome (Result SettlementOutcome PaymentUnavailable) × World
settle payment via at get_transaction world =
    settle_by payment.provider_reference payment via at get_transaction world
