-- ===== src/Payment/Settlement/Decisions.antt =====
-- When `settlementFor` decides what.
use voxkivre_backend.Prelude.{
  ℕ, ◌≡◌, refl, ◌⊎◌, inl, inr, Bool, true, false, Bool-cases, pos, negsuc, arith,
}
use voxkivre_backend.Payment.Status.{
  PaymentStatus, Payment, to_upper_case, TransactionStatus, Amount, integer, not_integer,
  ProviderTransaction,
}
use voxkivre_backend.Shared.Text.{same_text-eq}
use voxkivre_backend.Payment.Settlement.{
  reference_mismatch, Settlement, succeed, flag_amount_mismatch, anomaly, carries, by_status,
  settle_successful, settle_failed, settlement_for, is_amount_matching, payment_currency,
  is_expected,
}

-- Open, in the sense that the provider's confirmation is still honoured.
pub data IsOpen : PaymentStatus → Type 0 where
  pending : IsOpen PaymentStatus.pending
  expired : IsOpen PaymentStatus.expired

settle_successful-succeed :
    (s from : PaymentStatus) (m : Bool)
    → settle_successful s m ≡ succeed from
    → (from ≡ s) × IsOpen s × (m ≡ true)
unfolding settle_successful
settle_successful-succeed PaymentStatus.pending from true h = (ground arith, pending, refl)
settle_successful-succeed PaymentStatus.expired from true h = (ground arith, expired, refl)
settle_successful-succeed PaymentStatus.pending from false h = absurd (cc)
settle_successful-succeed PaymentStatus.expired from false h = absurd (cc)
settle_successful-succeed PaymentStatus.failed from m h = absurd (cc)
settle_successful-succeed PaymentStatus.succeeded from m h = absurd (cc)
settle_successful-succeed PaymentStatus.amount_mismatch from m h = absurd (cc)

pub by_status-succeed :
    (s from : PaymentStatus) (m : Bool) (t : TransactionStatus)
    → by_status s m t ≡ succeed from
    → (from ≡ s) × IsOpen s × (m ≡ true) × (t ≡ TransactionStatus.successful)
unfolding settle_failed
by_status-succeed s from m TransactionStatus.successful h =
    let (e, o, k) = settle_successful-succeed s from m h in (e, o, k, refl)
by_status-succeed PaymentStatus.pending from m TransactionStatus.pending h = absurd (cc)
by_status-succeed PaymentStatus.expired from m TransactionStatus.pending h = absurd (cc)
by_status-succeed PaymentStatus.failed from m TransactionStatus.pending h = absurd (cc)
by_status-succeed PaymentStatus.succeeded from m TransactionStatus.pending h = absurd (cc)
by_status-succeed PaymentStatus.amount_mismatch from m TransactionStatus.pending h = absurd (cc)
by_status-succeed PaymentStatus.pending from m TransactionStatus.failed h = absurd (cc)
by_status-succeed PaymentStatus.expired from m TransactionStatus.failed h = absurd (cc)
by_status-succeed PaymentStatus.failed from m TransactionStatus.failed h = absurd (cc)
by_status-succeed PaymentStatus.succeeded from m TransactionStatus.failed h = absurd (cc)
by_status-succeed PaymentStatus.amount_mismatch from m TransactionStatus.failed h = absurd (cc)

pub by_status-flag :
    (s : PaymentStatus) (m : Bool) (t : TransactionStatus)
    → by_status s m t ≡ flag_amount_mismatch
    → IsOpen s
unfolding settle_successful settle_failed
by_status-flag PaymentStatus.pending m t h = pending
by_status-flag PaymentStatus.expired m t h = expired
by_status-flag PaymentStatus.failed m TransactionStatus.pending h = absurd (cc)
by_status-flag PaymentStatus.failed m TransactionStatus.successful h = absurd (cc)
by_status-flag PaymentStatus.failed m TransactionStatus.failed h = absurd (cc)
by_status-flag PaymentStatus.succeeded m TransactionStatus.pending h = absurd (cc)
by_status-flag PaymentStatus.succeeded m TransactionStatus.successful h = absurd (cc)
by_status-flag PaymentStatus.succeeded m TransactionStatus.failed h = absurd (cc)
by_status-flag PaymentStatus.amount_mismatch m TransactionStatus.pending h = absurd (cc)
by_status-flag PaymentStatus.amount_mismatch m TransactionStatus.successful h = absurd (cc)
by_status-flag PaymentStatus.amount_mismatch m TransactionStatus.failed h = absurd (cc)

-- Either the provider sends back our reference, and the statuses decide, or it is an anomaly.
pub settlement_for-cases :
    (payment : Payment) (t : ProviderTransaction) (d : Settlement)
    → settlement_for payment t ≡ d
    → ((carries payment.external_reference t.external_reference ≡ true)
        × (by_status payment.status (is_amount_matching payment.amount_xaf t) t.status ≡ d))
      ⊎ (d ≡ anomaly reference_mismatch)
unfolding settlement_for
settlement_for-cases payment t d h =
    elim (Bool-cases (carries payment.external_reference t.external_reference)) [
      | inl e ↦ inl (e, ground arith)
      | inr e ↦ inr (ground arith)
    ]

is_expected-integer : (n : ℕ) (a : Amount) → is_expected n a ≡ true → a ≡ integer (pos n)
is_expected-integer n (integer (pos m)) h = ground arith
is_expected-integer n (integer (negsuc m)) h = ground arith
is_expected-integer n not_integer h = absurd (cc)

-- A payment is settled as a success only if it is pending or expired, the provider says that the
-- transaction with our reference is successful, its currency is XAF in any case of the letters,
-- and its amount is the price of the payment exactly.
pub settlement_for-succeed :
    (payment : Payment) (t : ProviderTransaction) (from : PaymentStatus)
    → settlement_for payment t ≡ succeed from
    → (from ≡ payment.status)
      × IsOpen payment.status
      × (carries payment.external_reference t.external_reference ≡ true)
      × (t.status ≡ TransactionStatus.successful)
      × (to_upper_case t.currency ≡ payment_currency)
      × (t.amount ≡ integer (pos payment.amount_xaf))
unfolding is_amount_matching
settlement_for-succeed payment t from h = elim (settlement_for-cases payment t (succeed from) h) [
  | inr e ↦ absurd (cc)
  | inl (c, e) ↦
      let (same, open_, m, s) = by_status-succeed payment.status from _ t.status e in
      (
        same,
        open_,
        c,
        s,
        same_text-eq (to_upper_case t.currency) payment_currency (ground (arith, m)),
        is_expected-integer payment.amount_xaf t.amount (ground (arith, m)),
      )
]
