-- ===== src/Billing/GrantOffer.antt =====
-- billing/application/use-cases/grant-offer.use-case.ts
pub mod Cases
pub mod Purchases
use voxkivre_backend.Prelude.{
  ℕ, ◌==◌, Bool, true, false, ◌&&◌, Option, none, some, Outcome, done, thrown, ◌>>=◌, Result, ok,
  err, broken_invariant, if◌then◌else◌,
}
use voxkivre_backend.Billing.Offers.{Offer, PurchaseGrant, grant_for}
use voxkivre_backend.Billing.Store.{Db}
use voxkivre_backend.Billing.PurchaseLedger.{
  GrantedPurchase, RecordedPurchase, find_purchase, lock_for_purchase, record_purchase,
  find_by_code,
}

pub record GrantOfferInput : Type 0 where
  pub user_id : ℕ
  pub offer_code : ℕ
  pub payment_reference : ℕ

pub record GrantOfferOutput : Type 0 where
  pub granted : Bool
  pub grant : PurchaseGrant

pub data GrantError : Type 0 where
  offer_not_found payment_reference_conflict : ℕ → GrantError

-- A purchase of a deleted account is nobody's.
abbrev pub is_user : Option ℕ → ℕ → Bool
is_user none user = false
is_user (some owner) user = owner == user

unfoldable pub already_granted :
    RecordedPurchase → GrantOfferInput → Result GrantOfferOutput GrantError
already_granted existing input =
    if is_user existing.user_id input.user_id && existing.grant.offer_code == input.offer_code
    then ok (record { granted = false; grant = existing.grant })
    else err (payment_reference_conflict input.payment_reference)

-- The winner of a race, read again.
unfoldable pub lost_to :
    GrantOfferInput
    → Option RecordedPurchase
    → Db
    → Outcome (Result GrantOfferOutput GrantError × Db)
lost_to input none db = thrown broken_invariant
lost_to input (some winner) db = done (already_granted winner input, db)

-- After `recordPurchase`: a request that lost the race reads the winner.
unfoldable pub conclude :
    GrantOfferInput → PurchaseGrant → Bool → Db → Outcome (Result GrantOfferOutput GrantError × Db)
conclude input grant true db = done (ok (record { granted = true; grant = grant }), db)
conclude input grant false db = do
  winner ← find_purchase input.payment_reference db
  lost_to input winner db

-- The purchase that the call writes.
abbrev pub purchase_of : GrantOfferInput → Offer → (now : ℕ) → Db → GrantedPurchase
purchase_of input offer now db = record {
  payment_reference = input.payment_reference;
  user_id = input.user_id;
  grant = grant_for offer now (lock_for_purchase input.user_id db).0;
}

unfoldable pub grant_new :
    GrantOfferInput → Offer → (now id : ℕ) → Db → Outcome (Result GrantOfferOutput GrantError × Db)
grant_new input offer now id db = do
  let purchase = purchase_of input offer now db
  (recorded, db') ← record_purchase purchase now id (lock_for_purchase input.user_id db).1
  conclude input purchase.grant recorded db'

unfoldable pub grant_unless :
    GrantOfferInput
    → Offer
    → (now id : ℕ) → Option RecordedPurchase
    → Db
    → Outcome (Result GrantOfferOutput GrantError × Db)
grant_unless input offer now id none db = grant_new input offer now id db
grant_unless input offer now id (some existing) db = done (already_granted existing input, db)

-- The callback of `withTransaction`.
unfoldable pub grant_in_transaction :
    GrantOfferInput → Offer → (now id : ℕ) → Db → Outcome (Result GrantOfferOutput GrantError × Db)
grant_in_transaction input offer now id db = do
  existing ← find_purchase input.payment_reference db
  grant_unless input offer now id existing db

unfoldable pub grant_found :
    GrantOfferInput
    → (now id : ℕ) → Option Offer
    → Db
    → Outcome (Result GrantOfferOutput GrantError × Db)
grant_found input now id none db = done (err (offer_not_found input.offer_code), db)
grant_found input now id (some offer) db = grant_in_transaction input offer now id db

unfoldable pub grant_offer :
    GrantOfferInput → (now id : ℕ) → Db → Outcome (Result GrantOfferOutput GrantError × Db)
grant_offer input now id db = do
  offer ← find_by_code input.offer_code db
  grant_found input now id offer db
