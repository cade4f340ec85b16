-- ===== src/Billing/GrantOffer/Cases.antt =====
-- What `grantOffer` may have written when it returns: nothing, or what `recordPurchase` left.
use voxkivre_backend.Prelude.{
  ℕ, ◌≡◌, ◌∙◌, ap, ◌⊎◌, inl, inr, Option, none, some, Bool, true, false, Result, done, >>=-eq-done,
  arith,
}
use voxkivre_backend.Billing.Offers.{Offer, PurchaseGrant}
use voxkivre_backend.Billing.Store.{Db}
use voxkivre_backend.Billing.GrantOffer.{
  GrantOfferInput, GrantOfferOutput, GrantError, lost_to, conclude, purchase_of, grant_new,
  grant_unless, grant_in_transaction, grant_found, grant_offer,
}
use voxkivre_backend.Billing.PurchaseLedger.{
  RecordedPurchase, find_by_code, find_purchase, lock_for_purchase, record_purchase,
}

pub record Recorded (input : GrantOfferInput) (now id : ℕ) (db db' : Db) : Type 0 where
  pub offer : Offer
  pub recorded : Bool
  pub sold : find_by_code input.offer_code db ≡ done (some offer)
  pub new : find_purchase input.payment_reference db ≡ done none
  pub written :
      record_purchase (purchase_of input offer now db) now id (lock_for_purchase input.user_id db).1
      ≡ done (recorded, db')

lost_to-db :
    (input : GrantOfferInput) (winner : Option RecordedPurchase) (db : Db)
    (r : Result GrantOfferOutput GrantError) (db' : Db)
    → lost_to input winner db ≡ done (r, db')
    → db ≡ db'
unfolding lost_to
lost_to-db input none db r db' h = absurd (cc)
lost_to-db input (some w) db r db' h = ground arith

conclude-db :
    (input : GrantOfferInput) (grant : PurchaseGrant) (recorded : Bool) (db : Db)
    (r : Result GrantOfferOutput GrantError) (db' : Db)
    → conclude input grant recorded db ≡ done (r, db')
    → db ≡ db'
unfolding conclude
conclude-db input grant true db r db' h = ground arith
conclude-db input grant false db r db' h =
    let (winner, e, k) =
      >>=-eq-done (find_purchase input.payment_reference db) (λ w. lost_to input w db) h in
    lost_to-db input winner db r db' k

module _ (input : GrantOfferInput) (now id : ℕ) (db : Db) (r : Result GrantOfferOutput GrantError)
    (db' : Db) where
  grant_unless-cases :
      (offer : Offer) (existing : Option RecordedPurchase)
      → find_by_code input.offer_code db ≡ done (some offer)
      → find_purchase input.payment_reference db ≡ done existing
      → grant_unless input offer now id existing db ≡ done (r, db')
      → (db ≡ db') ⊎ Recorded input now id db db'
  unfolding grant_unless grant_new
  grant_unless-cases offer (some existing) sold new h = inl (ground arith)
  grant_unless-cases offer none sold new h =
      let purchase = purchase_of input offer now db in
      let ((recorded, db₁), e, k) =
        >>=-eq-done (record_purchase purchase now id (lock_for_purchase input.user_id db).1)
          (λ x. conclude input purchase.grant x.0 x.1) h in
      let same = conclude-db input purchase.grant recorded db₁ r db' k in
      inr (record {
        offer = offer;
        recorded = recorded;
        sold = sold;
        new = new;
        written = e ∙ ap (λ d. done (recorded, d)) same;
      })

  grant_found-cases :
      (offer : Option Offer)
      → find_by_code input.offer_code db ≡ done offer
      → grant_found input now id offer db ≡ done (r, db')
      → (db ≡ db') ⊎ Recorded input now id db db'
  unfolding grant_found grant_in_transaction
  grant_found-cases none sold h = inl (ground arith)
  grant_found-cases (some offer) sold h =
      let (existing, e, k) =
        >>=-eq-done (find_purchase input.payment_reference db)
          (λ x. grant_unless input offer now id x db) h in
      grant_unless-cases offer existing sold e k

  pub grant_offer-cases :
      grant_offer input now id db ≡ done (r, db') → (db ≡ db') ⊎ Recorded input now id db db'
  unfolding grant_offer
  grant_offer-cases h =
      let (offer, e, k) =
        >>=-eq-done (find_by_code input.offer_code db) (λ x. grant_found input now id x db) h in
      grant_found-cases offer e k
