-- ===== src/Payment/Expiry.antt =====
-- When the sweep gives a payment up.
use voxkivre_backend.Prelude.{
  ℕ, ◌≡◌, ◌≤◌, ◌-◌, refl, inl, inr, true, false, not, ◌||◌, Bool-cases, Option, none, some, Outcome,
  done, thrown, Result, ok, err, if◌then◌else◌, leb, arith,
}
use voxkivre_backend.Payment.Status.{
  PaymentStatus, same_status, sweep, Payment, ProviderTransaction,
}
use voxkivre_backend.Payment.Store.{World, is_unset}
use voxkivre_backend.Payment.Policy.{is_expiry_due, pending_ttl_ms, unreferenced_ttl_ms}
use voxkivre_backend.Payment.Settler.{
  SettlementOutcome, waiting, PaymentUnavailable, Stamps, settle,
}
use voxkivre_backend.Payment.Sweep.{expired, is_waiting, conclude_sweep, reconcile}

is_waiting-eq : (o : SettlementOutcome) → is_waiting o ≡ true → o ≡ waiting
is_waiting-eq SettlementOutcome.waiting h = refl
is_waiting-eq SettlementOutcome.succeeded h = absurd (cc)
is_waiting-eq SettlementOutcome.failed h = absurd (cc)
is_waiting-eq SettlementOutcome.amount_mismatch h = absurd (cc)
is_waiting-eq SettlementOutcome.unchanged h = absurd (cc)
is_waiting-eq SettlementOutcome.raced h = absurd (cc)
is_waiting-eq SettlementOutcome.anomalous h = absurd (cc)

-- The age from which a payment may be given up.
abbrev pub ttl_of : Option ℕ → ℕ
ttl_of none = 900_000
ttl_of (some reference) = 86_400_000

is_expiry_due-age :
    (p : Payment) (now : ℕ)
    → is_expiry_due p now ≡ true
    → (same_status p.status PaymentStatus.pending ≡ true)
      × (ttl_of p.provider_reference ≤ now - p.created_at)
unfolding is_expiry_due
is_expiry_due-age p now h = aged p.provider_reference h
  where
    aged :
        (o : Option ℕ)
        → (if same_status p.status PaymentStatus.pending
            then (if is_unset o
                then leb unreferenced_ttl_ms (now - p.created_at)
                else leb pending_ttl_ms (now - p.created_at))
            else false)
          ≡ true
        → (same_status p.status PaymentStatus.pending ≡ true) × (ttl_of o ≤ now - p.created_at)
    aged none h = (ground arith, ground arith)
    aged (some x) h = (ground arith, ground arith)

conclude_sweep-expired :
    (p : Payment) (checked_at expired_at : ℕ)
    (o : Outcome (Result SettlementOutcome PaymentUnavailable) × World) (w' : World)
    → conclude_sweep p checked_at expired_at o ≡ (done expired, w')
    → (w : World) × (o ≡ (done (ok waiting), w)) × (is_expiry_due p checked_at ≡ true)
unfolding conclude_sweep
conclude_sweep-expired p c e (thrown f, w₁) w' h = absurd (cc)
conclude_sweep-expired p c e (done (err x), w₁) w' h = absurd (cc)
conclude_sweep-expired p c e (done (ok outcome), w₁) w' h =
    elim (Bool-cases (not (is_waiting outcome) || not (is_expiry_due p c))) [
      | inl b ↦ absurd (ground arith)
      | inr b ↦
          let due : is_expiry_due p c ≡ true = ground arith in
          let still : is_waiting outcome ≡ true = ground arith in
          let same = is_waiting-eq outcome still in (w₁, rw same refl, due)
    ]

-- The sweep gives a payment up only after the provider, asked once more if there is a reference,
-- left it waiting; the payment was pending, and its age had reached 15 minutes if it has no
-- reference of the provider, 24 hours if it has one.
pub reconcile-expired :
    (get : ℕ → Result ProviderTransaction PaymentUnavailable) (p : Payment) (at : Stamps)
    (checked_at expired_at : ℕ) (w w' : World)
    → reconcile get p at checked_at expired_at w ≡ (done expired, w')
    → ((w₁ : World) × (settle p sweep at get w ≡ (done (ok waiting), w₁)))
      × (same_status p.status PaymentStatus.pending ≡ true)
      × (ttl_of p.provider_reference ≤ checked_at - p.created_at)
unfolding reconcile
reconcile-expired get p at c e w w' h =
    let (w₁, asked, due) = conclude_sweep-expired p c e (settle p sweep at get w) w' h in
    let (is_pending, aged) = is_expiry_due-age p c due in ((w₁, asked), is_pending, aged)
