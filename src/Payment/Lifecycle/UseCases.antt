-- ===== src/Payment/Lifecycle/UseCases.antt =====
-- The notification, the sweep and the request of a payment respect the life of a payment.
use voxkivre_backend.Prelude.{
  ℕ, ◌≡◌, refl, sym, subst, Bool, true, false, not, ◌||◌, ◌==◌, Bool-cases, inl, inr, List, Option,
  none, some, Outcome, done, thrown, Result, ok, err,
}
use voxkivre_backend.Billing.Offers.{Offer}
use voxkivre_backend.Payment.Status.{
  PaymentStatus, same_status, webhook, sweep, PaymentProvider, Payment, PaymentRow,
  ProviderTransaction, new_pending_payment,
}
use voxkivre_backend.Payment.Store.{
  World, is_unset, insert, attach_provider_reference, find_by_idempotency_key,
}
use voxkivre_backend.Payment.Settler.{
  SettlementOutcome, PaymentUnavailable, Stamps, settle_with_reference, settle, settle_by,
}
use voxkivre_backend.Payment.Policy.{
  is_expiry_due, AttemptCounts, AttemptRefusal, attempt_refusal_for, count_attempts,
  attempt_windows,
}
use voxkivre_backend.Payment.Sweep.{
  Gateway, NotificationTarget, notified, payment_for, settle_found, handle_target,
  handle_if_enabled, handle_notification, is_waiting, expire, conclude_sweep, reconcile,
}
use voxkivre_backend.Payment.Initiate.{
  Services, Fresh, Request, InitiatePaymentInput, CollectError, unavailable, invalid_number,
  collected, attached_to, collect, payment_description, find_offer, collect_again, replay, lost_to,
  inserted, target_of, unless_refused, unless_in_flight, for_offer, unless_known, initiate_checked,
  with_phone, with_key, with_provider, initiate,
}
use voxkivre_backend.Shared.IdempotencyKey.{idempotency_key_from}
use voxkivre_backend.Payment.MobileMoneyNumber.{of}
use voxkivre_backend.Payment.Lifecycle.{Evolves-refl, Evolves-trans}
use voxkivre_backend.Payment.Lifecycle.Writes.{
  complete-Evolves, attach_provider_reference-Evolves, insert-Evolves,
}
use voxkivre_backend.Payment.Lifecycle.Calls.{Follows, settle_with_reference-Follows}

pub notified-world :
    (o : Outcome (Result SettlementOutcome PaymentUnavailable) × World) → (notified o).1 ≡ o.1
notified-world (done (ok x), w) = refl
notified-world (done (err e), w) = refl
notified-world (thrown f, w) = refl

module _ {Payload : Type 0} (g : Gateway Payload) (at : Stamps) (w : World) where
  settle_found-Follows :
      (target : NotificationTarget) (found : Option Payment)
      → Follows w (settle_found g target at w found).1
  settle_found-Follows target none = Evolves-refl w.payments
  settle_found-Follows target (some p) =
      subst (λ x. Follows w x)
        (sym (
          notified-world (
            settle_with_reference p target.reference webhook at (g.get_transaction target.reference)
              w)))
        (settle_with_reference-Follows p target.reference webhook at
          (g.get_transaction target.reference) w)

  handle_target-Follows :
      (provider : PaymentProvider) (target : Option NotificationTarget)
      → Follows w (handle_target g provider at w target).1
  handle_target-Follows provider none = Evolves-refl w.payments
  handle_target-Follows provider (some target) =
      settle_found-Follows target (payment_for provider target w)

  handle_if_enabled-Follows :
      (payload : Payload) (provider : Option PaymentProvider)
      → Follows w (handle_if_enabled g payload at w provider).1
  handle_if_enabled-Follows payload none = Evolves-refl w.payments
  handle_if_enabled-Follows payload (some provider) =
      handle_target-Follows provider (g.verify_notification payload)

  -- Whatever the notification and the answer of the provider, no row of the payments is lost, each
  -- keeps its target and a reference of the provider that it has, and its status moves along the
  -- life of a payment: a concluded one stays as it is, an expired one may only become succeeded or
  -- be flagged for its amount.
  pub handle_notification-Follows :
      (payload : Payload) → Follows w (handle_notification g payload at w).1
  unfolding handle_notification
  handle_notification-Follows payload = handle_if_enabled-Follows payload g.provider

expire-Follows : (p : Payment) (at : ℕ) (w : World) → Follows w (expire p at w).1
unfolding expire
expire-Follows p at w = complete-Evolves p.id PaymentStatus.pending _ at w.payments refl

conclude_sweep-Follows :
    (p : Payment) (checked_at expired_at : ℕ) (w : World)
    (o : Outcome (Result SettlementOutcome PaymentUnavailable) × World)
    → Follows w o.1
    → Follows w (conclude_sweep p checked_at expired_at o).1
unfolding conclude_sweep
conclude_sweep-Follows p c e w (thrown f, w₁) h = h
conclude_sweep-Follows p c e w (done (err x), w₁) h = h
conclude_sweep-Follows p c e w (done (ok outcome), w₁) h =
    elim (Bool-cases (not (is_waiting outcome) || not (is_expiry_due p c))) [
      | inl b ↦ rw b h
      | inr b ↦ rw b (Evolves-trans h (expire-Follows p e w₁))
    ]

settle-Follows :
    (get : ℕ → Result ProviderTransaction PaymentUnavailable) (p : Payment) (at : Stamps)
    (w : World)
    → Follows w (settle p sweep at get w).1
unfolding settle
settle-Follows get p at w = by_reference p.provider_reference
  where
    by_reference : (o : Option ℕ) → Follows w (settle_by o p sweep at get w).1
    by_reference none = Evolves-refl w.payments
    by_reference (some reference) =
        settle_with_reference-Follows p reference sweep at (get reference) w

-- The same of one payment of the sweep, however long ago the sweep has read it and whatever the
-- provider answers: no row is lost, each keeps its target and its reference, and its status moves
-- along the life of a payment.
pub reconcile-Follows :
    (get : ℕ → Result ProviderTransaction PaymentUnavailable) (p : Payment) (at : Stamps)
    (checked_at expired_at : ℕ) (w : World)
    → Follows w (reconcile get p at checked_at expired_at w).1
unfolding reconcile
reconcile-Follows get p at c e w =
    conclude_sweep-Follows p c e w (settle p sweep at get w) (settle-Follows get p at w)

collected-Follows :
    (p : Payment) (at : ℕ) (r : Result ℕ CollectError) (w : World)
    → Follows w (collected p at r w).1
unfolding collected
collected-Follows p at (err unavailable) w = Evolves-refl w.payments
collected-Follows p at (err invalid_number) w =
    complete-Evolves p.id PaymentStatus.pending _ at w.payments refl
collected-Follows p at (ok reference) w =
    attached (attach_provider_reference p.id reference at w.payments) refl
  where
    attached :
        (o : Outcome (Bool × List PaymentRow))
        → attach_provider_reference p.id reference at w.payments ≡ o
        → Follows w (attached_to p reference at w o).1
    attached (thrown f) e = Evolves-refl w.payments
    attached (done (b, rows)) e =
        attach_provider_reference-Evolves p.id reference at w.payments b rows e

module _ (s : Services) (r : Request) (fresh : Fresh) where
  collect-Follows :
      (p : Payment) (offer : Offer) (w : World)
      → Follows w (collect s p offer r.phone fresh.collected_at w).1
  unfolding collect
  collect-Follows p offer w =
      collected-Follows p fresh.collected_at
        (s.collect (record {
          external_reference = p.external_reference;
          amount_xaf = p.amount_xaf;
          phone = r.phone;
          description = payment_description offer;
        }))
        w

  collect_again-Follows :
      (p : Payment) (w : World) (o : Outcome (Option Offer))
      → Follows w (collect_again s p r.phone fresh.collected_at w o).1
  collect_again-Follows p w (thrown f) = Evolves-refl w.payments
  collect_again-Follows p w (done none) = Evolves-refl w.payments
  collect_again-Follows p w (done (some offer)) = collect-Follows p offer w

  replay-Follows :
      (p : Payment) (w : World)
      → Follows w (replay s p r.request_hash r.phone fresh.collected_at w).1
  unfolding replay
  replay-Follows p w = elim (Bool-cases (not (p.request_hash == r.request_hash))) [
    | inl e ↦ rw e (Evolves-refl w.payments)
    | inr e ↦
        elim (Bool-cases (
          not (same_status p.status PaymentStatus.pending)
          || not (is_unset p.provider_reference))) [
            | inl k ↦ rw (e, k) (Evolves-refl w.payments)
            | inr k ↦ rw (e, k) (collect_again-Follows p w (find_offer p.offer_code w.billing))
          ]
  ]

  lost_to-Follows : (hash : ℕ) (w : World) (o : Option Payment) → Follows w (lost_to hash w o).1
  lost_to-Follows hash w none = Evolves-refl w.payments
  lost_to-Follows hash w (some p) = elim (Bool-cases (p.request_hash == hash)) [
    | inl e ↦ rw e (Evolves-refl w.payments)
    | inr e ↦ rw e (Evolves-refl w.payments)
  ]

  inserted-Follows :
      (p : Payment) (offer : Offer) (w : World) (o : Outcome (Bool × List PaymentRow))
      → insert p w.payments ≡ o
      → Follows w (inserted s p offer r.phone fresh.collected_at w o).1
  inserted-Follows p offer w (thrown f) e = Evolves-refl w.payments
  inserted-Follows p offer w (done (true, rows)) e =
      Evolves-trans (insert-Evolves p w.payments true rows e)
        (collect-Follows p offer (record w { payments = rows }))
  inserted-Follows p offer w (done (false, rows)) e =
      Evolves-trans (insert-Evolves p w.payments false rows e) (
        lost_to-Follows p.request_hash (record w { payments = rows })
          (find_by_idempotency_key p.user_id p.idempotency_key rows))

  unless_refused-Follows :
      (offer : Offer) (w : World) (o : Option AttemptRefusal)
      → Follows w (unless_refused s r offer fresh w o).1
  unless_refused-Follows offer w (some x) = Evolves-refl w.payments
  unless_refused-Follows offer w none =
      let p = new_pending_payment (target_of r offer fresh) fresh.now in
      inserted-Follows p offer w (insert p w.payments) refl

  unless_in_flight-Follows :
      (offer : Offer) (w : World) (counts : AttemptCounts) (o : Option ℕ)
      → Follows w (unless_in_flight s r offer fresh w counts o).1
  unless_in_flight-Follows offer w counts (some id) = Evolves-refl w.payments
  unless_in_flight-Follows offer w counts none =
      unless_refused-Follows offer w (attempt_refusal_for counts)

  for_offer-Follows :
      (w : World) (o : Outcome (Option Offer)) → Follows w (for_offer s r fresh w o).1
  for_offer-Follows w (thrown f) = Evolves-refl w.payments
  for_offer-Follows w (done none) = Evolves-refl w.payments
  for_offer-Follows w (done (some offer)) =
      let counts = count_attempts r.user_id r.phone_hmac (attempt_windows fresh.now) w.payments in
      unless_in_flight-Follows offer w counts counts.in_flight_payment_id

  unless_known-Follows : (w : World) (o : Option Payment) → Follows w (unless_known s r fresh w o).1
  unless_known-Follows w (some p) = replay-Follows p w
  unless_known-Follows w none = for_offer-Follows w (find_offer r.offer_code w.billing)

  initiate_checked-Follows : (w : World) → Follows w (initiate_checked s r fresh w).1
  unfolding initiate_checked
  initiate_checked-Follows w =
      unless_known-Follows w (find_by_idempotency_key r.user_id r.key w.payments)

module _ (s : Services) (input : InitiatePaymentInput) (fresh : Fresh) (w : World) where
  with_phone-Follows :
      (provider : PaymentProvider) (key : List ℕ) (o : Option (List ℕ))
      → Follows w (with_phone s input provider key fresh w o).1
  with_phone-Follows provider key none = Evolves-refl w.payments
  with_phone-Follows provider key (some phone) =
      initiate_checked-Follows s
        (record {
          user_id = input.user_id;
          offer_code = input.offer_code;
          provider = provider;
          key = key;
          phone = phone;
          phone_hmac = s.key_of phone;
          request_hash = s.idempotency_hash_of input.offer_code (s.key_of phone);
        })
        fresh w

  with_key-Follows :
      (provider : PaymentProvider) (o : Option (List ℕ))
      → Follows w (with_key s input provider fresh w o).1
  with_key-Follows provider none = Evolves-refl w.payments
  with_key-Follows provider (some key) = with_phone-Follows provider key (of input.phone_number)

  with_provider-Follows :
      (o : Option PaymentProvider) → Follows w (with_provider s input fresh w o).1
  with_provider-Follows none = Evolves-refl w.payments
  with_provider-Follows (some provider) =
      with_key-Follows provider (idempotency_key_from input.idempotency_key)

  -- The same of a request of a payment, whatever the provider answers: no row is lost, each keeps
  -- its target and its reference, and its status moves along the life of a payment.
  pub initiate-Follows : Follows w (initiate s input fresh w).1
  unfolding initiate
  initiate-Follows = with_provider-Follows s.provider
