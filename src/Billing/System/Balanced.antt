-- ===== src/Billing/System/Balanced.antt =====
-- The books are balanced after any history.
use voxkivre_backend.Prelude.{ℕ, ◌≡◌, refl, inl, inr, List, [], ◌∷◌, Result, done}
use voxkivre_backend.Billing.Offers.{Offer}
use voxkivre_backend.Billing.Store.{Db}
use voxkivre_backend.Billing.ReserveQuota.{QuotaPolicy, reserve_quota}
use voxkivre_backend.Billing.RefundQuota.{refund_quota}
use voxkivre_backend.Billing.GrantOffer.{
  GrantOfferInput, GrantOfferOutput, GrantError, grant_offer, purchase_of,
}
use voxkivre_backend.Billing.GrantOffer.Cases.{grant_offer-cases}
use voxkivre_backend.Billing.Conservation.Books.{IsBalanced}
use voxkivre_backend.Billing.Conservation.ReserveQuota.{reserve_quota-IsBalanced}
use voxkivre_backend.Billing.Conservation.Refund.{refund_quota-IsBalanced}
use voxkivre_backend.Billing.Conservation.Purchase.{record_purchase-IsBalanced}
use voxkivre_backend.Billing.System.{
  Call, reserves, refunds, grants, step, run, initial, with_transaction_keeps,
}

-- A grant that does not throw keeps the books balanced, whatever it returns.
pub grant_offer-IsBalanced :
    (input : GrantOfferInput) (now id : ℕ) (db : Db) (r : Result GrantOfferOutput GrantError)
    (db' : Db)
    → grant_offer input now id db ≡ done (r, db')
    → IsBalanced db
    → IsBalanced db'
grant_offer-IsBalanced input now id db r db' h v =
    elim (grant_offer-cases input now id db r db' h) [
      | inl same ↦ rw same at v
      | inr w ↦
          record_purchase-IsBalanced (purchase_of input w.offer now db) now id db w.recorded db'
            w.written v
    ]

step-IsBalanced :
    (policy : QuotaPolicy) (db : Db) (c : Call) → IsBalanced db → IsBalanced (step policy db c)
unfolding step
step-IsBalanced policy db (reserves input now entry_id) v =
    with_transaction_keeps IsBalanced (reserve_quota policy input now entry_id) db
      (λ r db' h. reserve_quota-IsBalanced policy input now entry_id db r db' h v) v
step-IsBalanced policy db (refunds id chars now entry_id) v =
    with_transaction_keeps IsBalanced (refund_quota id chars now entry_id) db
      (λ r db' h. refund_quota-IsBalanced id chars now entry_id db r db' h v) v
step-IsBalanced policy db (grants input now id) v =
    with_transaction_keeps IsBalanced (grant_offer input now id) db
      (λ r db' h. grant_offer-IsBalanced input now id db r db' h v) v

run-IsBalanced :
    (policy : QuotaPolicy) (db : Db) (cs : List Call)
    → IsBalanced db
    → IsBalanced (run policy db cs)
unfolding run
run-IsBalanced policy db [] v = v
run-IsBalanced policy db (c ∷ cs) v =
    run-IsBalanced policy (step policy db c) cs (step-IsBalanced policy db c v)

initial-IsBalanced : (offers : List Offer) → IsBalanced (initial offers)
initial-IsBalanced offers = record {
  free = λ u p. refl;
  pass = λ id. refl;
  credits = λ u. refl;
  journal = λ u. refl;
  funded = λ u e. refl;
  within = tt;
  one_reservation = λ id. tt;
  one_pass = λ id. tt;
}

-- After any sequence of reservations, refunds and grants, refused and failed ones included, the
-- counters of billing agree with its other tables: the free units of a month and the units used of
-- a pass are what its reservations hold; the credits bought are in the wallet or held by
-- reservations; the balance of a wallet is the sum of its journal; no pass is used beyond what it
-- includes; identifiers of reservations and passes are not repeated.
pub run-initial-IsBalanced :
    (policy : QuotaPolicy) (offers : List Offer) (cs : List Call)
    → IsBalanced (run policy (initial offers) cs)
run-initial-IsBalanced policy offers cs =
    run-IsBalanced policy (initial offers) cs (initial-IsBalanced offers)
