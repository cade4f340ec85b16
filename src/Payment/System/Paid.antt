-- ===== src/Payment/System/Paid.antt =====
-- A payment is succeeded only with its purchase.
use voxkivre_backend.Prelude.{
  ℕ, ◌≡◌, ◌≢◌, refl, sym, subst, ap, ◌∙◌, ◌⊎◌, inl, inr, ◌||◌, Bool, true, false, Bool-cases, List,
  [], ◌∷◌, Option, none, some, find, update, exists, done, All, AtMostOne, AtMostOne-update, arith,
  not_exists-narrow,
}
use voxkivre_backend.Billing.Store.{Db, Purchase, purchase_key}
use voxkivre_backend.Payment.Status.{PaymentStatus, pending, succeeded, Payment, PaymentRow}
use voxkivre_backend.Payment.Store.{
  World, same_uuid, PaymentCompletion, row_of, payment_key, in_status, completed_row, complete,
  insert, attach_to, unreferenced_key, attach_provider_reference,
}
use voxkivre_backend.Payment.System.{IsPlain}

-- The purchase with that reference, of that user (if the row still has one) and that offer.
abbrev pub HasPurchase : PaymentRow → Db → Type 0
HasPurchase row db =
    (p : Purchase) × (find (purchase_key row.id) db.purchases ≡ some p)
    × (p.user_id ≡ row.user_id)
    × (p.offer_code ≡ row.offer_code)

abbrev pub IsPaid : Db → PaymentRow → Type 0
IsPaid db row = row.status ≡ succeeded → HasPurchase row db

pub record IsSound (world : World) : Type 0 where
  pub paid : All (IsPaid world.billing) world.payments
  pub one_payment : (id : ℕ) → AtMostOne (payment_key id) world.payments

-- A change of billing that keeps the purchases keeps the payments paid.
pub IsPaid-kept :
    (db db' : Db) (rows : List PaymentRow)
    → ((key : ℕ) (p : Purchase)
        → find (purchase_key key) db.purchases ≡ some p
        → find (purchase_key key) db'.purchases ≡ some p)
    → All (IsPaid db) rows
    → All (IsPaid db') rows
IsPaid-kept db db' [] keep h = tt
IsPaid-kept db db' (r ∷ rs) keep (h, hs) =
    ((λ e. let (p, k, u, o) = h e in (p, keep r.id p k, u, o)), IsPaid-kept db db' rs keep hs)

update-IsPaid :
    (db : Db) (p : PaymentRow → Bool) (f : PaymentRow → PaymentRow) (rows : List PaymentRow)
    → ((r : PaymentRow) → p r ≡ true → IsPaid db r → IsPaid db (f r))
    → All (IsPaid db) rows
    → All (IsPaid db) (update p f rows)
update-IsPaid db p f [] h k = tt
update-IsPaid db p f (r ∷ rs) h (k, ks) = elim (Bool-cases (p r)) [
  | inl e ↦ rw e (h r e k, update-IsPaid db p f rs h ks)
  | inr e ↦ rw e (k, update-IsPaid db p f rs h ks)
]

plain_status :
    {c : PaymentCompletion}
    → IsPlain c
    → (at : ℕ) (r : PaymentRow) → (completed_row c at r).status ≢ succeeded
plain_status (IsPlain.fails via code) at r e = absurd (cc)
plain_status (IsPlain.flags via) at r e = absurd (cc)
plain_status (IsPlain.expires code) at r e = absurd (cc)

pub complete-plain-IsSound :
    (w : World) (id : ℕ) (from : PaymentStatus) (c : PaymentCompletion) (at : ℕ)
    → IsPlain c
    → IsSound w
    → IsSound (record w { payments = (complete id from c at w.payments).1 })
unfolding complete
complete-plain-IsSound w id from c at plain v = record {
  paid =
      update-IsPaid w.billing (in_status id from) (completed_row c at) w.payments
        (λ r e h k. absurd (plain_status plain at r k)) v.paid;
  one_payment = λ j.
      AtMostOne-update (payment_key j) (in_status id from) (completed_row c at) w.payments
        (λ x. refl) (v.one_payment j);
}

pub attach-IsSound :
    (w : World) (id reference at : ℕ) (b : Bool) (rows : List PaymentRow)
    → attach_provider_reference id reference at w.payments ≡ done (b, rows)
    → IsSound w
    → IsSound (record w { payments = rows })
unfolding attach_provider_reference
attach-IsSound w id reference at b rows h v = attached (find (unreferenced_key id) w.payments) h
  where
    attached :
        (o : Option PaymentRow)
        → attach_to o id reference at w.payments ≡ done (b, rows)
        → IsSound (record w { payments = rows })
    attached none h =
        let same : w.payments ≡ rows = ground arith in
        subst (λ x. IsSound (record w { payments = x })) same v
    attached (some row) h =
        let same : update (unreferenced_key id)
              (λ r. record r { provider_reference = some reference; updated_at = at }) w.payments
            ≡ rows =
          ground arith in
        subst (λ x. IsSound (record w { payments = x })) same
          (record {
            paid =
                update-IsPaid w.billing (unreferenced_key id) _ w.payments (λ r e h k. h k) v.paid;
            one_payment = λ j.
                AtMostOne-update (payment_key j) (unreferenced_key id) _ w.payments (λ x. refl)
                  (v.one_payment j);
          })

pub insert-IsSound :
    (w : World) (p : Payment) (b : Bool) (rows : List PaymentRow)
    → p.status ≡ pending
    → insert p w.payments ≡ done (b, rows)
    → IsSound w
    → IsSound (record w { payments = rows })
unfolding insert
insert-IsSound w p b rows s h v = elim insert_cases [
  | inl same ↦ subst (λ x. IsSound (record w { payments = x })) same v
  | inr (same, absent) ↦
      subst (λ x. IsSound (record w { payments = x })) (sym same)
        (record {
          paid = ((λ e. absurd (ground arith)), v.paid);
          one_payment = λ j. ((λ e. absent_key j (ground arith) absent), v.one_payment j);
        })
]
  where
    insert_cases :
        (w.payments ≡ rows)
        ⊎ ((rows ≡ row_of p ∷ w.payments) × (exists (payment_key p.id) w.payments ≡ false))
    insert_cases = ground (
      arith,
      not_exists-narrow (payment_key p.id)
          (λ row. payment_key p.id row || same_uuid row.external_reference p.external_reference)
          w.payments (λ y e. ground arith),
    )

    absent_key :
        (j : ℕ)
        → p.id ≡ j
        → exists (payment_key p.id) w.payments ≡ false
        → exists (payment_key j) w.payments ≡ false
    absent_key j e k = ap (λ i. exists (payment_key i) w.payments) (sym e) ∙ k
