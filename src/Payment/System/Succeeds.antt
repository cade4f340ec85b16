-- ===== src/Payment/System/Succeeds.antt =====
-- The step that concludes a payment as a success and grants its offer, and the whole system.
use voxkivre_backend.Prelude.{
  ℕ, ◌≡◌, refl, sym, subst, ap, ◌∙◌, inl, inr, Bool, false, Bool-cases, List, [], ◌∷◌, Option, some,
  none, find, find_of_not_exists, update, exists, update-none, done, All, AtMostOne,
  AtMostOne-update, arith, ok,
}
use voxkivre_backend.Billing.Store.{Db, Purchase, purchase_key}
use voxkivre_backend.Billing.GrantOffer.{GrantOfferInput}
use voxkivre_backend.Billing.GrantOffer.Purchases.{grant_offer-IsBought, grant_offer-kept}
use voxkivre_backend.Billing.System.{step}
use voxkivre_backend.Billing.System.Purchases.{step-kept}
use voxkivre_backend.Payment.Status.{
  PaymentStatus, Target, Payment, PaymentRow, ConfirmationChannel,
}
use voxkivre_backend.Payment.Store.{
  World, PaymentCompletion, to_succeeded, row_of, payment_key, in_status, completed_row, complete,
}
use voxkivre_backend.Payment.Settler.{Stamps, succeed_in_transaction, grant_paid}
use voxkivre_backend.Payment.Lifecycle.Calls.{grant_paid-done, transaction_keeps}
use voxkivre_backend.Payment.System.{IsRead, Step, Reaches, here, then_}
use voxkivre_backend.Payment.System.Paid.{
  IsPaid, IsSound, IsPaid-kept, complete-plain-IsSound, attach-IsSound, insert-IsSound,
}

-- The purchase of what a target names.
abbrev IsBoughtAs : Db → Target (Option ℕ) → Type 0
IsBoughtAs db t =
    (p : Purchase) × (find (purchase_key t.id) db.purchases ≡ some p)
    × (p.user_id ≡ t.user_id)
    × (p.offer_code ≡ t.offer_code)

succeed-IsPaid :
    (db : Db) (t : Target (Option ℕ)) (from : PaymentStatus) (c : PaymentCompletion) (at : ℕ)
    (rows : List PaymentRow)
    → IsBoughtAs db t
    → AtMostOne (payment_key t.id) rows
    → ((r : PaymentRow) → find (payment_key t.id) rows ≡ some r → r.target ≡ t)
    → All (IsPaid db) rows
    → All (IsPaid db) (update (in_status t.id from) (completed_row c at) rows)
succeed-IsPaid db t from c at [] bought one read h = tt
succeed-IsPaid db t from c at (r ∷ rs) bought (alone, one) read (h, hs) =
    elim (Bool-cases (payment_key t.id r)) [
      | inr e ↦
          let skip : in_status t.id from r ≡ false = ground arith in
          rw skip (h, succeed-IsPaid db t from c at rs bought one (λ s k. read s (ground arith)) hs)
      | inl e ↦
          let absent = find_of_not_exists (payment_key t.id) rs (alone e) in
          let rest =
            succeed-IsPaid db t from c at rs bought one
              (λ s k. let apart : some s ≡ none = sym k ∙ absent in absurd (cc)) hs in
          let same : r.target ≡ t = read r (ground arith) in
          elim (Bool-cases (in_status t.id from r)) [
            | inl m ↦ rw m ((λ x. subst (IsBoughtAs db) (sym same) bought), rest)
            | inr m ↦ rw m (h, rest)
          ]
    ]

module _ (p : Payment) (from : PaymentStatus) (via : ConfirmationChannel) (at : Stamps)
    (w : World) where
  abbrev moved : List PaymentRow
  moved = (complete p.id from (to_succeeded via) at.settled_at w.payments).1

  granted-IsSound :
      (b : Bool) (w' : World)
      → grant_paid p at (record w { payments = moved }) ≡ done (b, w')
      → IsRead p w
      → IsSound w
      → IsSound w'
  unfolding complete
  granted-IsSound b w' h (row, found, same) v =
      let (_, left, (g, granted)) = grant_paid-done p at (record w { payments = moved }) b w' h in
      let input : GrantOfferInput = record {
        user_id = p.user_id;
        offer_code = p.offer_code;
        payment_reference = p.id;
      } in
      let bought =
        grant_offer-IsBought input at.granted_at at.granted_id w.billing g w'.billing granted in
      let paid =
        IsPaid-kept w.billing w'.billing w.payments
          (λ key q e.
            grant_offer-kept input at.granted_at at.granted_id w.billing (ok g) w'.billing key q
              granted e)
          v.paid in
      let read : (r : PaymentRow)
          → find (payment_key p.id) w.payments ≡ some r
          → r.target ≡ (row_of p).target =
        λ r e.
          let one : some r ≡ some row = sym e ∙ found in
          ap (λ x. x.target) (the_same r row one) ∙ same in
      record {
        paid = subst (All (IsPaid w'.billing)) (sym left) (
            succeed-IsPaid w'.billing (row_of p).target from (to_succeeded via) at.settled_at
              w.payments bought (v.one_payment p.id) read paid);
        one_payment = λ j. subst (AtMostOne (payment_key j)) (sym left) (
            AtMostOne-update (payment_key j) (in_status p.id from)
              (completed_row (to_succeeded via) at.settled_at) w.payments (λ x. refl)
              (v.one_payment j));
      }
    where
      the_same : (r s : PaymentRow) → some r ≡ some s → r ≡ s
      the_same r s e = ground arith

  succeed-IsSound :
      (b : Bool) (w' : World)
      → succeed_in_transaction p from via at w ≡ done (b, w')
      → IsRead p w
      → IsSound w
      → IsSound w'
  unfolding succeed_in_transaction complete
  succeed-IsSound b w' h read v = elim (Bool-cases (exists (in_status p.id from) w.payments)) [
    | inl e ↦
        let k : grant_paid p at (record w { payments = moved }) ≡ done (b, w') = ground arith in
        granted-IsSound b w' k read v
    | inr e ↦
        let left : record w { payments = moved } ≡ w' = ground arith in
        let none_moved : moved ≡ w.payments =
          update-none (in_status p.id from) (completed_row (to_succeeded via) at.settled_at)
            w.payments e in
        subst IsSound left (subst (λ x. IsSound (record w { payments = x })) (sym none_moved) v)
  ]

Step-IsSound : {w w' : World} → Step w w' → IsSound w → IsSound w'
Step-IsSound {w} (Step.inserts p b rows s h) v = insert-IsSound w p b rows s h v
Step-IsSound {w} (Step.attaches id reference at b rows h) v =
    attach-IsSound w id reference at b rows h v
Step-IsSound {w} (Step.completes id from c at plain) v =
    complete-plain-IsSound w id from c at plain v
Step-IsSound {w} (Step.succeeds p from via at read) v =
    transaction_keeps IsSound w (succeed_in_transaction p from via at w)
      (λ b w' k. succeed-IsSound p from via at w b w' k read v) v
Step-IsSound {w} (Step.bills policy call) v = record {
  paid =
      IsPaid-kept w.billing (step policy w.billing call) w.payments
        (λ key q e. step-kept policy w.billing call key q e) v.paid;
  one_payment = v.one_payment;
}

Reaches-IsSound : {w w' : World} → Reaches w w' → IsSound w → IsSound w'
Reaches-IsSound here v = v
Reaches-IsSound (then_ s rest) v = Reaches-IsSound rest (Step-IsSound s v)

pub reached-IsSound :
    (billing : Db) (w : World) → Reaches (record { payments = []; billing = billing }) w → IsSound w
reached-IsSound billing w h = Reaches-IsSound h (record { paid = tt; one_payment = λ id. tt })

-- From an empty table of payments, however the statements of requests, notifications, sweeps and
-- calls of billing follow each other, with payments whose row has the same target but may have
-- another status since it was read: every payment that is succeeded has its purchase in billing,
-- under its identifier, for its user and its offer.
pub Reaches-IsPaid :
    (billing : Db) (w : World)
    → Reaches (record { payments = []; billing = billing }) w
    → All (IsPaid w.billing) w.payments
Reaches-IsPaid billing w h = (reached-IsSound billing w h).paid
