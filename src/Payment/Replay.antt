-- ===== src/Payment/Replay.antt =====
-- A payment that is concluded, and another notification or sweep of it.
use voxkivre_backend.Prelude.{ℕ, ◌≡◌, Bool, true, false, done, ok, if◌then◌else◌, arith}
use voxkivre_backend.Payment.Status.{
  PaymentStatus, Payment, ConfirmationChannel, TransactionStatus, ProviderTransaction,
}
use voxkivre_backend.Payment.Settlement.{
  SettlementAnomaly, Settlement, anomaly, nothing, by_status, carries, settle_successful,
  settle_failed, settlement_for, is_amount_matching, reference_mismatch, successful_after_failure,
  failed_after_success,
}
use voxkivre_backend.Payment.Store.{World, is_unset}
use voxkivre_backend.Payment.Settler.{
  SettlementOutcome, Stamps, apply, apply_after, as_result, attach_if_missing,
  settle_with_reference,
}

-- A status that no answer of the provider changes.
pub data IsFinal : PaymentStatus → Type 0 where
  succeeded : IsFinal PaymentStatus.succeeded
  failed : IsFinal PaymentStatus.failed
  amount_mismatch : IsFinal PaymentStatus.amount_mismatch

-- What a settlement answers of a concluded payment: an anomaly is what contradicts it.
abbrev pub final_outcome : PaymentStatus → (carries : Bool) → TransactionStatus → SettlementOutcome
final_outcome s false t = SettlementOutcome.anomalous
final_outcome PaymentStatus.failed true TransactionStatus.successful = SettlementOutcome.anomalous
final_outcome PaymentStatus.succeeded true TransactionStatus.failed = SettlementOutcome.anomalous
final_outcome s true t = SettlementOutcome.unchanged

-- A decision that writes nothing, and what is reported of it.
data IsQuiet : Settlement → SettlementOutcome → Type 0 where
  leaves : IsQuiet nothing SettlementOutcome.unchanged
  reports : (reason : SettlementAnomaly) → IsQuiet (anomaly reason) SettlementOutcome.anomalous

by_status-IsQuiet :
    {s : PaymentStatus}
    → IsFinal s
    → (m : Bool) (t : TransactionStatus) → IsQuiet (by_status s m t) (final_outcome s true t)
unfolding settle_successful settle_failed
by_status-IsQuiet IsFinal.succeeded m TransactionStatus.pending = leaves
by_status-IsQuiet IsFinal.succeeded m TransactionStatus.successful = leaves
by_status-IsQuiet IsFinal.succeeded m TransactionStatus.failed = reports failed_after_success
by_status-IsQuiet IsFinal.failed m TransactionStatus.pending = leaves
by_status-IsQuiet IsFinal.failed m TransactionStatus.successful = reports successful_after_failure
by_status-IsQuiet IsFinal.failed m TransactionStatus.failed = leaves
by_status-IsQuiet IsFinal.amount_mismatch m TransactionStatus.pending = leaves
by_status-IsQuiet IsFinal.amount_mismatch m TransactionStatus.successful = leaves
by_status-IsQuiet IsFinal.amount_mismatch m TransactionStatus.failed = leaves

settlement_for-IsQuiet :
    (p : Payment) (t : ProviderTransaction)
    → IsFinal p.status
    → IsQuiet
        (settlement_for p t)
        (final_outcome p.status (carries p.external_reference t.external_reference) t.status)
unfolding settlement_for
settlement_for-IsQuiet p t f = ours (carries p.external_reference t.external_reference)
  where
    ours :
        (c : Bool)
        → IsQuiet
            (if c
              then by_status p.status (is_amount_matching p.amount_xaf t) t.status
              else anomaly reference_mismatch)
            (final_outcome p.status c t.status)
    ours true = by_status-IsQuiet f (is_amount_matching p.amount_xaf t) t.status
    ours false = reports reference_mismatch

quiet_settled :
    {d : Settlement} {o : SettlementOutcome} (p : Payment) (reference attached_at : ℕ)
    (via : ConfirmationChannel) (at : Stamps) (w : World)
    → IsQuiet d o
    → is_unset p.provider_reference ≡ false
    → as_result (apply_after p d via at w (attach_if_missing p d reference attached_at w))
      ≡ (done (ok o), w)
unfolding apply attach_if_missing
quiet_settled p reference a via at w leaves r = ground arith
quiet_settled p reference a via at w (reports reason) r = ground arith

-- For a payment that is succeeded, failed or flagged for its amount and has the reference of the
-- provider, a notification or a sweep writes nothing, whatever the provider answers: it reports
-- an anomaly when the transaction is not ours or contradicts the conclusion, and else that
-- nothing changed.
pub settle_with_reference-final :
    (p : Payment) (reference : ℕ) (via : ConfirmationChannel) (at : Stamps)
    (t : ProviderTransaction) (w : World)
    → IsFinal p.status
    → is_unset p.provider_reference ≡ false
    → settle_with_reference p reference via at (ok t) w ≡ (
      done (
          ok (final_outcome p.status (carries p.external_reference t.external_reference) t.status)),
      w,
    )
unfolding settle_with_reference
settle_with_reference-final p reference via at t w f r =
    quiet_settled p reference at.attached_at via at w (settlement_for-IsQuiet p t f) r
