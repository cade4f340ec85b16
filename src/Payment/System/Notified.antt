-- ===== src/Payment/System/Notified.antt =====
-- A notification is a sequence of steps of the system.
use voxkivre_backend.Prelude.{
  ℕ, ◌≡◌, refl, sym, subst, ap, ◌∙◌, ◌&&◌, inl, inr, Bool, true, false, Bool-cases, List, [], ◌∷◌,
  Option, none, some, find, exists_of_find, AtMostOne, arith,
}
use voxkivre_backend.Payment.Status.{webhook, Payment, PaymentRow, PaymentProvider, same_provider}
use voxkivre_backend.Payment.Store.{
  World, payment_key, payment_of, row_of, seen, same_uuid, is_some_id,
}
use voxkivre_backend.Payment.Settler.{Stamps, settle_with_reference}
use voxkivre_backend.Payment.System.{IsRead, Reaches, here}
use voxkivre_backend.Payment.System.Paid.{IsSound}
use voxkivre_backend.Payment.System.Succeeds.{reached-IsSound}
use voxkivre_backend.Billing.Store.{Db}
use voxkivre_backend.Payment.System.Refines.{settle_with_reference-Reaches}
use voxkivre_backend.Payment.Sweep.{
  Gateway, NotificationTarget, by_external, or_else, payment_for, settle_found, handle_target,
  handle_if_enabled, handle_notification,
}
use voxkivre_backend.Payment.Lifecycle.UseCases.{notified-world}

-- The row that a condition finds is the one of its identifier.
find-payment_key :
    (q : PaymentRow → Bool) (id : ℕ) (rows : List PaymentRow) (row : PaymentRow)
    → find q rows ≡ some row
    → row.id ≡ id
    → AtMostOne (payment_key id) rows
    → find (payment_key id) rows ≡ some row
find-payment_key q id [] row e k one = absurd (cc)
find-payment_key q id (r ∷ rs) row e k (alone, one) = elim (Bool-cases (q r)) [
  | inl m ↦ ground arith
  | inr m ↦
      let e' : find q rs ≡ some row = ground arith in
      let later = find-payment_key q id rs row e' k one in
      let there = exists_of_find (payment_key id) rs later in
      elim (Bool-cases (payment_key id r)) [
        | inl t ↦ let wrong : true ≡ false = sym there ∙ alone t in absurd (cc)
        | inr f ↦ ground arith
      ]
]

payment_of-target :
    (o : Option ℕ) (row : PaymentRow) (p : Payment)
    → row.user_id ≡ o
    → payment_of o row ≡ some p
    → row.target ≡ (row_of p).target
payment_of-target none row p u e = absurd (cc)
payment_of-target (some user) row p u e = ground arith

seen-IsRead :
    (w : World) (q : PaymentRow → Bool) (o : Option PaymentRow) (p : Payment)
    → find q w.payments ≡ o
    → seen o ≡ some p
    → IsSound w
    → IsRead p w
seen-IsRead w q none p e k v = absurd (cc)
seen-IsRead w q (some row) p e k v =
    let same = payment_of-target row.user_id row p refl k in
    let id : row.id ≡ p.id = ap (λ t. t.id) same in
    (row, find-payment_key q p.id w.payments row e id (v.one_payment p.id), same)

by_external-IsRead :
    (w : World) (reference : Option (List ℕ)) (p : Payment)
    → by_external reference w.payments ≡ some p
    → IsSound w
    → IsRead p w
by_external-IsRead w none p e v = absurd (cc)
by_external-IsRead w (some reference) p e v =
    seen-IsRead w (λ row. same_uuid row.external_reference reference) _ p refl e v

or_else-IsRead :
    (w : World) (o other : Option Payment) (p : Payment)
    → ((q : Payment) → o ≡ some q → IsRead q w)
    → ((q : Payment) → other ≡ some q → IsRead q w)
    → or_else o other ≡ some p
    → IsRead p w
or_else-IsRead w none other p h k e = k p e
or_else-IsRead w (some q) other p h k e = h p e

module _ {Payload : Type 0} (g : Gateway Payload) (at : Stamps) (w : World) (v : IsSound w) where
  settle_found-Reaches :
      (target : NotificationTarget) (found : Option Payment)
      → ((p : Payment) → found ≡ some p → IsRead p w)
      → Reaches w (settle_found g target at w found).1
  settle_found-Reaches target none h = here
  settle_found-Reaches target (some p) h =
      subst (Reaches w)
        (sym (
          notified-world (
            settle_with_reference p target.reference webhook at (g.get_transaction target.reference)
              w)))
        (settle_with_reference-Reaches p target.reference webhook at
          (g.get_transaction target.reference) w (h p refl))

  handle_target-Reaches :
      (provider : PaymentProvider) (target : Option NotificationTarget)
      → Reaches w (handle_target g provider at w target).1
  handle_target-Reaches provider none = here
  handle_target-Reaches provider (some target) =
      settle_found-Reaches target (payment_for provider target w) (λ p e.
        or_else-IsRead w _ _ p
          (λ q k.
            seen-IsRead w
              (λ row.
                same_provider row.provider provider
                && is_some_id row.provider_reference target.reference)
              _ q refl k v)
          (λ q k. by_external-IsRead w target.external_reference q k v) e)

  handle_if_enabled-Reaches :
      (payload : Payload) (provider : Option PaymentProvider)
      → Reaches w (handle_if_enabled g payload at w provider).1
  handle_if_enabled-Reaches payload none = here
  handle_if_enabled-Reaches payload (some provider) =
      handle_target-Reaches provider (g.verify_notification payload)

-- In a state reached from an empty table of payments, a notification is handled by a sequence of
-- steps of the system, whatever it holds and whatever the provider answers.
pub handle_notification-Reaches :
    {Payload : Type 0} (g : Gateway Payload) (payload : Payload) (at : Stamps) (billing : Db)
    (w : World)
    → Reaches (record { payments = []; billing = billing }) w
    → Reaches w (handle_notification g payload at w).1
unfolding handle_notification
handle_notification-Reaches g payload at billing w h =
    handle_if_enabled-Reaches g at w (reached-IsSound billing w h) payload g.provider
