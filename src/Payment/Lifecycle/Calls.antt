-- ===== src/Payment/Lifecycle/Calls.antt =====
-- Each call of the module respects the life of a payment, however old the payment that it holds
-- and whatever the provider answers.
use voxkivre_backend.Prelude.{
  ℕ, ◌≡◌, refl, sym, subst, ap, ◌∙◌, inl, inr, Bool, true, Bool-cases, Outcome, done, thrown,
  >>=-eq-done, with_transaction, committed, Result, ok, err, arith, ◌&&◌, not,
}
use voxkivre_backend.Billing.Store.{Db}
use voxkivre_backend.Billing.GrantOffer.{grant_offer, GrantOfferOutput, GrantError}
use voxkivre_backend.Payment.Status.{
  PaymentStatus, Payment, ConfirmationChannel, ProviderTransaction,
}
use voxkivre_backend.Payment.Settlement.{
  Settlement, succeed, fail, flag_amount_mismatch, wait, nothing, anomaly, settlement_for,
}
use voxkivre_backend.Payment.Settlement.Decisions.{
  IsOpen, settlement_for-succeed, settlement_for-cases, by_status-flag,
}
use voxkivre_backend.Payment.Store.{
  World, to_succeeded, is_unset, complete, attach_provider_reference,
}
use voxkivre_backend.Payment.Settler.{
  SettlementOutcome, PaymentUnavailable, Stamps, granted_or_abort, grant_paid,
  succeed_in_transaction, apply, apply_after, as_result, attach_if_missing, settle_with_reference,
  is_anomaly, reported,
}
use voxkivre_backend.Payment.Lifecycle.{may_become, Evolves, Evolves-refl, Evolves-trans}
use voxkivre_backend.Payment.Lifecycle.Writes.{complete-Evolves, attach_provider_reference-Evolves}

-- The tables of payments of two worlds.
abbrev pub Follows : World → World → Type 0
Follows w w' = Evolves w.payments w'.payments

pub IsOpen-may_succeed :
    {s : PaymentStatus} → IsOpen s → may_become s PaymentStatus.succeeded ≡ true
IsOpen-may_succeed IsOpen.pending = refl
IsOpen-may_succeed IsOpen.expired = refl

IsOpen-may_mismatch :
    {s : PaymentStatus} → IsOpen s → may_become s PaymentStatus.amount_mismatch ≡ true
IsOpen-may_mismatch IsOpen.pending = refl
IsOpen-may_mismatch IsOpen.expired = refl

granted_or_abort-done :
    (g : Result GrantOfferOutput GrantError) (w : World) (b : Bool) (w' : World)
    → granted_or_abort g w ≡ done (b, w')
    → (w ≡ w') × (b ≡ true)
granted_or_abort-done (ok g) w b w' h = (ground arith, ground arith)
granted_or_abort-done (err e) w b w' h = absurd (cc)

-- A grant that comes through leaves the payments alone, and billing as the grant left it.
pub grant_paid-done :
    (p : Payment) (at : Stamps) (w : World) (b : Bool) (w' : World)
    → grant_paid p at w ≡ done (b, w')
    → (b ≡ true)
      × (w'.payments ≡ w.payments)
      × ((g : GrantOfferOutput) × (grant_offer
              (record { payment_reference = p.id; user_id = p.user_id; offer_code = p.offer_code })
              at.granted_at
              at.granted_id
              w.billing
            ≡ done (ok g, w'.billing)))
unfolding grant_paid
grant_paid-done p at w b w' h =
    let ((g, db), e, k) =
      >>=-eq-done
        (grant_offer
          (record { payment_reference = p.id; user_id = p.user_id; offer_code = p.offer_code })
          at.granted_at at.granted_id w.billing)
        _ h in
    concluded g db e k
  where
    concluded :
        (g : Result GrantOfferOutput GrantError) (db : Db)
        → grant_offer
            (record { payment_reference = p.id; user_id = p.user_id; offer_code = p.offer_code })
            at.granted_at
            at.granted_id
            w.billing
          ≡ done (g, db)
        → granted_or_abort g (record w { billing = db }) ≡ done (b, w')
        → (b ≡ true)
          × (w'.payments ≡ w.payments)
          × ((g : GrantOfferOutput) × (grant_offer
                  (record {
                    payment_reference = p.id;
                    user_id = p.user_id;
                    offer_code = p.offer_code;
                  })
                  at.granted_at
                  at.granted_id
                  w.billing
                ≡ done (ok g, w'.billing)))
    concluded (ok g) db e k =
        let (same, t) = granted_or_abort-done (ok g) (record w { billing = db }) b w' k in
        (t, ap (λ x. x.payments) (sym same), (g, e ∙ ap (λ x. done (ok g, x.billing)) same))
    concluded (err x) db e k = absurd (cc)

succeed-Follows :
    (p : Payment) (from : PaymentStatus) (via : ConfirmationChannel) (at : Stamps) (w : World)
    (b : Bool) (w' : World)
    → may_become from PaymentStatus.succeeded ≡ true
    → succeed_in_transaction p from via at w ≡ done (b, w')
    → Follows w w'
unfolding succeed_in_transaction
succeed-Follows p from via at w b w' m h =
    let moved = complete p.id from (to_succeeded via) at.settled_at w.payments in
    let evolved = complete-Evolves p.id from (to_succeeded via) at.settled_at w.payments m in
    elim (Bool-cases moved.0) [
      | inl e ↦
          let k : grant_paid p at (record w { payments = moved.1 }) ≡ done (b, w') = ground arith in
          subst (λ x. Evolves w.payments x) (sym (grant_paid-done p at _ b w' k).1) evolved
      | inr e ↦
          let same : record w { payments = moved.1 } ≡ w' = ground arith in
          subst (λ x. Follows w x) same evolved
    ]

pub reported-world : (o : Outcome Bool × World) → (reported o).1 ≡ o.1
reported-world (done b, w) = refl
reported-world (thrown f, w) = refl

pub transaction_keeps :
    (P : World → Type 0) (w : World) (o : Outcome (Bool × World))
    → ((b : Bool) (w' : World) → o ≡ done (b, w') → P w')
    → P w
    → P (committed w o).1
transaction_keeps P w (done (b, w')) h p = h b w' refl
transaction_keeps P w (thrown f) h p = p

apply-Follows :
    (p : Payment) (t : ProviderTransaction) (d : Settlement) (via : ConfirmationChannel)
    (at : Stamps) (w : World)
    → settlement_for p t ≡ d
    → Follows w (apply p d via at w).1
unfolding apply
apply-Follows p t (succeed from) via at w e =
    let (same, open_, _, _, _, _) = settlement_for-succeed p t from e in
    subst (λ x. Follows w x)
      (sym (reported-world (with_transaction (succeed_in_transaction p from via at) w)))
      (transaction_keeps (Follows w) w (succeed_in_transaction p from via at w)
        (λ b w' k.
          succeed-Follows p from via at w b w'
            (ap (λ s. may_become s PaymentStatus.succeeded) same ∙ IsOpen-may_succeed open_) k)
        (Evolves-refl w.payments))
apply-Follows p t (fail code) via at w e = complete-Evolves p.id _ _ at.settled_at w.payments refl
apply-Follows p t flag_amount_mismatch via at w e =
    elim (settlement_for-cases p t flag_amount_mismatch e) [
      | inl (c, k) ↦
          complete-Evolves p.id p.status _ at.settled_at w.payments
            (IsOpen-may_mismatch (by_status-flag p.status _ t.status k))
      | inr k ↦ absurd (cc)
    ]
apply-Follows p t wait via at w e = Evolves-refl w.payments
apply-Follows p t nothing via at w e = Evolves-refl w.payments
apply-Follows p t (anomaly reason) via at w e = Evolves-refl w.payments

pub attach_if_missing-done :
    (p : Payment) (d : Settlement) (reference at : ℕ) (w w' : World)
    → attach_if_missing p d reference at w ≡ done w'
    → Follows w w' × (w'.billing ≡ w.billing)
unfolding attach_if_missing
attach_if_missing-done p d reference at w w' h =
    elim (Bool-cases (is_unset p.provider_reference && not (is_anomaly d))) [
      | inr e ↦
          let same : w ≡ w' = ground arith in
          (subst (λ x. Follows w x) same (Evolves-refl w.payments), ap (λ x. x.billing) (sym same))
      | inl e ↦
          let ((b, rows), k, l) =
            >>=-eq-done (attach_provider_reference p.id reference at w.payments)
              (λ x. done (record w { payments = x.1 })) {b = w'} (ground arith) in
          let same : record w { payments = rows } ≡ w' = ground arith in
          (
            subst (λ x. Follows w x) same
                (attach_provider_reference-Evolves p.id reference at w.payments b rows k),
            ap (λ x. x.billing) (sym same),
          )
    ]

pub as_result-world : (o : Outcome SettlementOutcome × World) → (as_result o).1 ≡ o.1
as_result-world (done b, w) = refl
as_result-world (thrown f, w) = refl

pub settle_with_reference-Follows :
    (p : Payment) (reference : ℕ) (via : ConfirmationChannel) (at : Stamps)
    (read : Result ProviderTransaction PaymentUnavailable) (w : World)
    → Follows w (settle_with_reference p reference via at read w).1
unfolding settle_with_reference
settle_with_reference-Follows p reference via at (err e) w = Evolves-refl w.payments
settle_with_reference-Follows p reference via at (ok t) w =
    subst (λ x. Follows w x)
      (sym (
        as_result-world (
          apply_after p (settlement_for p t) via at w
            (attach_if_missing p (settlement_for p t) reference at.attached_at w))))
      (after (attach_if_missing p (settlement_for p t) reference at.attached_at w) refl)
  where
    after :
        (o : Outcome World)
        → attach_if_missing p (settlement_for p t) reference at.attached_at w ≡ o
        → Follows w (apply_after p (settlement_for p t) via at w o).1
    after (thrown f) e = Evolves-refl w.payments
    after (done w₁) e =
        Evolves-trans
          (attach_if_missing-done p (settlement_for p t) reference at.attached_at w w₁ e).0
          (apply-Follows p t (settlement_for p t) via at w₁ refl)
