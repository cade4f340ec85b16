-- ===== src/Payment/Settlement.antt =====
-- payment/domain/services/settlement.ts
pub mod Decisions
use voxkivre_backend.Prelude.{
  ℕ, ◌==◌, ◌+◌, leb, ◌&&◌, Bool, true, false, List, [], ◌∷◌, Option, none, some, ℤ, pos, negsuc,
  if◌then◌else◌,
}
use voxkivre_backend.Billing.Units.{max_safe_integer}
use voxkivre_backend.Payment.Status.{
  PaymentStatus, PaymentFailureCode, declined, same_text, to_lower_case, to_upper_case, Payment,
  TransactionStatus, Amount, integer, not_integer, ProviderTransaction,
}

pub data SettlementAnomaly : Type 0 where
  reference_mismatch successful_after_failure failed_after_success : SettlementAnomaly

pub data Settlement : Type 0 where
  succeed : (from : PaymentStatus) → Settlement
  fail : PaymentFailureCode → Settlement
  flag_amount_mismatch wait nothing : Settlement
  anomaly : SettlementAnomaly → Settlement

-- XAF
abbrev pub payment_currency : List ℕ
payment_currency = 88 ∷ 65 ∷ 70 ∷ []

abbrev pub is_safe_integer : ℤ → Bool
is_safe_integer (pos n) = leb n max_safe_integer
is_safe_integer (negsuc n) = leb (n + 1) max_safe_integer

abbrev pub equals : ℤ → ℕ → Bool
equals (pos n) m = n == m
equals (negsuc n) m = false

abbrev pub is_expected : (expected_xaf : ℕ) → Amount → Bool
is_expected expected_xaf (integer n) = is_safe_integer n && equals n expected_xaf
is_expected expected_xaf not_integer = false

unfoldable pub is_amount_matching : (expected_xaf : ℕ) → ProviderTransaction → Bool
is_amount_matching expected_xaf transaction =
    same_text (to_upper_case transaction.currency) payment_currency
    && is_expected expected_xaf transaction.amount

unfoldable pub settle_successful : PaymentStatus → (amount_matches : Bool) → Settlement
settle_successful PaymentStatus.pending true = succeed PaymentStatus.pending
settle_successful PaymentStatus.expired true = succeed PaymentStatus.expired
settle_successful PaymentStatus.pending false = flag_amount_mismatch
settle_successful PaymentStatus.expired false = flag_amount_mismatch
settle_successful PaymentStatus.failed m = anomaly successful_after_failure
settle_successful PaymentStatus.succeeded m = nothing
settle_successful PaymentStatus.amount_mismatch m = nothing

unfoldable pub settle_failed : PaymentStatus → Settlement
settle_failed PaymentStatus.pending = fail declined
settle_failed PaymentStatus.succeeded = anomaly failed_after_success
settle_failed PaymentStatus.expired = nothing
settle_failed PaymentStatus.failed = nothing
settle_failed PaymentStatus.amount_mismatch = nothing

abbrev pub still_pending : PaymentStatus → Settlement
still_pending PaymentStatus.pending = wait
still_pending PaymentStatus.succeeded = nothing
still_pending PaymentStatus.failed = nothing
still_pending PaymentStatus.expired = nothing
still_pending PaymentStatus.amount_mismatch = nothing

-- The reference that the provider sends back is ours, in any case of the letters.
abbrev pub carries : List ℕ → Option (List ℕ) → Bool
carries ours none = false
carries ours (some theirs) = same_text (to_lower_case theirs) (to_lower_case ours)

abbrev pub by_status : PaymentStatus → (amount_matches : Bool) → TransactionStatus → Settlement
by_status s m TransactionStatus.pending = still_pending s
by_status s m TransactionStatus.successful = settle_successful s m
by_status s m TransactionStatus.failed = settle_failed s

unfoldable pub settlement_for : Payment → ProviderTransaction → Settlement
settlement_for payment transaction =
    if carries payment.external_reference transaction.external_reference
    then by_status payment.status (is_amount_matching payment.amount_xaf transaction)
        transaction.status
    else anomaly reference_mismatch
