-- ===== src/Payment/System/Refines.antt =====
-- Settlements and the sweep of a payment are sequences of the steps of the system.
use voxkivre_backend.Prelude.{
  ℕ, ◌==◌, ◌≡◌, refl, sym, subst, ap, ◌∙◌, inl, inr, Bool, true, false, not, ◌&&◌, ◌||◌, Bool-cases,
  List, [], ◌∷◌, Option, none, some, find, update, Outcome, done, thrown, >>=-eq-done,
  with_transaction, Result, ok, err, arith,
}
use voxkivre_backend.Payment.Status.{
  PaymentStatus, sweep, Payment, PaymentRow, ConfirmationChannel, ProviderTransaction,
}
use voxkivre_backend.Payment.Settlement.{
  Settlement, succeed, fail, flag_amount_mismatch, wait, nothing, anomaly, settlement_for,
}
use voxkivre_backend.Payment.Store.{
  World, to_failed, to_amount_mismatch, payment_key, is_unset, attach_to, unreferenced_key,
  attach_provider_reference,
}
use voxkivre_backend.Payment.Settler.{
  SettlementOutcome, PaymentUnavailable, Stamps, is_anomaly, apply, apply_after, attach_if_missing,
  succeed_in_transaction, settle_with_reference, settle, settle_by,
}
use voxkivre_backend.Payment.Policy.{is_expiry_due}
use voxkivre_backend.Payment.Sweep.{is_waiting, expire, conclude_sweep, reconcile}
use voxkivre_backend.Payment.Lifecycle.Calls.{reported-world, as_result-world}
use voxkivre_backend.Payment.System.{IsRead, IsPlain, Step, Reaches, here, then_}

Step-Reaches : {w w' : World} → Step w w' → Reaches w w'
Step-Reaches s = then_ s here

Reaches-trans : {w w' w'' : World} → Reaches w w' → Reaches w' w'' → Reaches w w''
Reaches-trans here k = k
Reaches-trans (then_ s h) k = then_ s (Reaches-trans h k)

-- An update that keeps the targets keeps what was read.
find-update_target :
    (id : ℕ) (p : PaymentRow → Bool) (f : PaymentRow → PaymentRow) (rows : List PaymentRow)
    (row : PaymentRow)
    → ((r : PaymentRow) → (f r).target ≡ r.target)
    → find (payment_key id) rows ≡ some row
    → (row' : PaymentRow) × (find (payment_key id) (update p f rows) ≡ some row')
      × (row'.target ≡ row.target)
find-update_target id p f [] row keep e = absurd (cc)
find-update_target id p f (r ∷ rs) row keep e = elim (Bool-cases (payment_key id r)) [
  | inl k ↦
      let same : r ≡ row = ground arith in
      elim (Bool-cases (p r)) [
        | inl m ↦
            let key : payment_key id (f r) ≡ true = ap (λ t. t.id == id) (keep r) ∙ k in
            (f r, ground arith, keep r ∙ ap (λ x. x.target) same)
        | inr m ↦ (r, ground arith, ap (λ x. x.target) same)
      ]
  | inr k ↦
      let e' : find (payment_key id) rs ≡ some row = ground arith in
      let (row', h, t) = find-update_target id p f rs row keep e' in
      elim (Bool-cases (p r)) [
        | inl m ↦
            let key : payment_key id (f r) ≡ false = ap (λ t. t.id == id) (keep r) ∙ k in
            (row', ground arith, t)
        | inr m ↦ (row', ground arith, t)
      ]
]

attach-IsRead :
    (p : Payment) (id reference at : ℕ) (w : World) (b : Bool) (rows : List PaymentRow)
    → attach_provider_reference id reference at w.payments ≡ done (b, rows)
    → IsRead p w
    → IsRead p (record w { payments = rows })
unfolding attach_provider_reference
attach-IsRead p id reference at w b rows h (row, found, t) =
    attached (find (unreferenced_key id) w.payments) h
  where
    attached :
        (o : Option PaymentRow)
        → attach_to o id reference at w.payments ≡ done (b, rows)
        → IsRead p (record w { payments = rows })
    attached none h =
        let same : w.payments ≡ rows = ground arith in
        (row, ap (find (payment_key p.id)) (sym same) ∙ found, t)
    attached (some r) h =
        let same : update (unreferenced_key id)
              (λ r. record r { provider_reference = some reference; updated_at = at }) w.payments
            ≡ rows =
          ground arith in
        let (row', found', t') =
          find-update_target p.id (unreferenced_key id)
            (λ r. record r { provider_reference = some reference; updated_at = at }) w.payments row
            (λ r. refl) found in
        (row', ap (find (payment_key p.id)) (sym same) ∙ found', t' ∙ t)

attach_if_missing-Reaches :
    (p : Payment) (d : Settlement) (reference at : ℕ) (w w' : World)
    → attach_if_missing p d reference at w ≡ done w'
    → IsRead p w
    → Reaches w w' × IsRead p w'
unfolding attach_if_missing
attach_if_missing-Reaches p d reference at w w' h read =
    elim (Bool-cases (is_unset p.provider_reference && not (is_anomaly d))) [
      | inr e ↦
          let same : w ≡ w' = ground arith in
          (subst (Reaches w) same here, subst (IsRead p) same read)
      | inl e ↦
          let ((b, rows), k, l) =
            >>=-eq-done (attach_provider_reference p.id reference at w.payments)
              (λ x. done (record w { payments = x.1 })) {b = w'} (ground arith) in
          let same : record w { payments = rows } ≡ w' = ground arith in
          (
            subst (Reaches w) same (Step-Reaches (Step.attaches p.id reference at b rows k)),
            subst (IsRead p) same (attach-IsRead p p.id reference at w b rows k read),
          )
    ]

apply-Reaches :
    (p : Payment) (d : Settlement) (via : ConfirmationChannel) (at : Stamps) (w : World)
    → IsRead p w
    → Reaches w (apply p d via at w).1
unfolding apply
apply-Reaches p (succeed from) via at w read =
    subst (Reaches w)
      (sym (reported-world (with_transaction (succeed_in_transaction p from via at) w)))
      (Step-Reaches (Step.succeeds p from via at read))
apply-Reaches p (fail code) via at w read = Step-Reaches (
    Step.completes p.id PaymentStatus.pending (to_failed (some via) code) at.settled_at
      (IsPlain.fails (some via) code))
apply-Reaches p flag_amount_mismatch via at w read =
    Step-Reaches
      (Step.completes p.id p.status (to_amount_mismatch via) at.settled_at (IsPlain.flags via))
apply-Reaches p wait via at w read = here
apply-Reaches p nothing via at w read = here
apply-Reaches p (anomaly reason) via at w read = here

-- A settlement of a payment that was read now or earlier, by a notification or by the sweep and
-- whatever the provider answers, is a sequence of steps of the system.
pub settle_with_reference-Reaches :
    (p : Payment) (reference : ℕ) (via : ConfirmationChannel) (at : Stamps)
    (read : Result ProviderTransaction PaymentUnavailable) (w : World)
    → IsRead p w
    → Reaches w (settle_with_reference p reference via at read w).1
unfolding settle_with_reference
settle_with_reference-Reaches p reference via at (err e) w h = here
settle_with_reference-Reaches p reference via at (ok t) w h =
    subst (Reaches w)
      (sym (
        as_result-world (
          apply_after p (settlement_for p t) via at w
            (attach_if_missing p (settlement_for p t) reference at.attached_at w))))
      (after (attach_if_missing p (settlement_for p t) reference at.attached_at w) refl)
  where
    after :
        (o : Outcome World)
        → attach_if_missing p (settlement_for p t) reference at.attached_at w ≡ o
        → Reaches w (apply_after p (settlement_for p t) via at w o).1
    after (thrown f) e = here
    after (done w₁) e =
        let (reached, still) =
          attach_if_missing-Reaches p (settlement_for p t) reference at.attached_at w w₁ e h in
        Reaches-trans reached (apply-Reaches p (settlement_for p t) via at w₁ still)

settle_by-Reaches :
    (o : Option ℕ) (get : ℕ → Result ProviderTransaction PaymentUnavailable) (p : Payment)
    (at : Stamps) (w : World)
    → IsRead p w
    → Reaches w (settle_by o p sweep at get w).1
settle_by-Reaches none get p at w h = here
settle_by-Reaches (some reference) get p at w h =
    settle_with_reference-Reaches p reference sweep at (get reference) w h

conclude_sweep-Reaches :
    (p : Payment) (checked_at expired_at : ℕ) (w : World)
    (o : Outcome (Result SettlementOutcome PaymentUnavailable) × World)
    → Reaches w o.1
    → Reaches w (conclude_sweep p checked_at expired_at o).1
unfolding conclude_sweep expire
conclude_sweep-Reaches p c e w (thrown f, w₁) h = h
conclude_sweep-Reaches p c e w (done (err x), w₁) h = h
conclude_sweep-Reaches p c e w (done (ok outcome), w₁) h =
    elim (Bool-cases (not (is_waiting outcome) || not (is_expiry_due p c))) [
      | inl b ↦ rw b h
      | inr b ↦ rw b (
          Reaches-trans h
            (Step-Reaches (Step.completes p.id PaymentStatus.pending _ e (IsPlain.expires _))))
    ]

-- One payment of the sweep, read now or earlier, is handled by a sequence of steps of the system,
-- whatever the provider answers.
pub reconcile-Reaches :
    (get : ℕ → Result ProviderTransaction PaymentUnavailable) (p : Payment) (at : Stamps)
    (checked_at expired_at : ℕ) (w : World)
    → IsRead p w
    → Reaches w (reconcile get p at checked_at expired_at w).1
unfolding reconcile settle
reconcile-Reaches get p at c e w h =
    conclude_sweep-Reaches p c e w (settle p sweep at get w)
      (settle_by-Reaches p.provider_reference get p at w h)
