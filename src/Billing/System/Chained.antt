-- ===== src/Billing/System/Chained.antt =====
-- Every call keeps the passes chained: a pass that is bought begins when the last one ends.
use voxkivre_backend.Prelude.{
  ℕ, ◌<◌, ◌≡◌, refl, inl, inr, Bool-cases, Bool, true, List, [], ◌∷◌, Option, none, some, exists,
  AtMostOne, done, >>=-eq-done, Result, arith, sym, subst,
}
use voxkivre_backend.Billing.Allocation.{UnitsBySource}
use voxkivre_backend.Billing.Offers.{
  Offer, Terms, pass, credits, rights_for, Rights, pass_rights, credit_rights, grant_for,
}
use voxkivre_backend.Billing.Store.{Pass, Db, purchase_key}
use voxkivre_backend.Billing.UnitsLedger.{
  Sign, given_back, Booking, UnitsReservation, apply_to_sources, debited,
}
use voxkivre_backend.Billing.UnitsLedger.Charges.{apply_to_sources-done}
use voxkivre_backend.Billing.Conservation.Reserve.{record_reservation-done}
use voxkivre_backend.Billing.PurchaseLedger.{
  GrantedPurchase, latest_end, lock_for_purchase, insert_pass, pass_row, purchase_row,
  credit_wallet, give_rights, record_purchase,
}
use voxkivre_backend.Billing.ReserveQuota.{
  QuotaPolicy, ReserveQuotaInput, ReserveError, reserve_quota,
}
use voxkivre_backend.Billing.ReserveQuota.Cases.{
  written, refused, replayed, too_long, reserve_quota-Case,
}
use voxkivre_backend.Billing.RefundQuota.{refund_quota}
use voxkivre_backend.Billing.RefundQuota.Cases.{refund_quota-cases}
use voxkivre_backend.Billing.GrantOffer.{
  GrantOfferInput, GrantOfferOutput, GrantError, grant_offer, purchase_of,
}
use voxkivre_backend.Billing.GrantOffer.Cases.{grant_offer-cases}
use voxkivre_backend.Billing.System.Periods.{
  NotAfter, IsChained, IsChained-charged, IsChained-AtMostOne, runs_at,
}
use voxkivre_backend.Billing.System.{
  Call, reserves, refunds, grants, step, run, initial, with_transaction_keeps,
}

abbrev KeepsChain : Db → Db → Type 0
KeepsChain db db' = IsChained db.passes → IsChained db'.passes

apply_to_sources-chain :
    (b : Booking) (units : UnitsBySource) (sign : Sign) (at entry_id : ℕ) (db db' : Db)
    → apply_to_sources b units sign at entry_id db ≡ done db'
    → KeepsChain db db'
apply_to_sources-chain b units sign at entry_id db db' h c =
    subst (λ (d : Db). IsChained d.passes)
      (sym (apply_to_sources-done b units sign at entry_id db db' h))
      (IsChained-charged b.pass_id sign units.pass db.passes c)

reserve_quota-chain :
    (policy : QuotaPolicy) (input : ReserveQuotaInput) (now entry_id : ℕ) (db : Db)
    (r : Result UnitsReservation ReserveError) (db' : Db)
    → reserve_quota policy input now entry_id db ≡ done (r, db')
    → KeepsChain db db'
reserve_quota-chain policy input now entry_id db r db' h c =
    elim (reserve_quota-Case policy input now entry_id db r db' h) [
      | too_long t ↦ rw (← t.left) c
      | replayed t ↦ rw (← t.left) c
      | refused _ t ↦ rw t.left c
      | written _ w ↦
          subst (λ (d : Db). IsChained d.passes)
            (sym (record_reservation-done _ now entry_id _ db' w.recorded))
            (IsChained-charged _ debited w.taken.pass db.passes c)
    ]

refund_quota-chain :
    (id chars now entry_id : ℕ) (db : Db) (given : Bool) (db' : Db)
    → refund_quota id chars now entry_id db ≡ done (given, db')
    → KeepsChain db db'
refund_quota-chain id chars now entry_id db given db' h c =
    elim (refund_quota-cases id chars now entry_id db given db' h) [
      | inr n ↦ rw (← n.left) c
      | inl g ↦ apply_to_sources-chain _ _ given_back now entry_id _ db' g.written c
    ]

-- The pass that is bought begins at the end of the last one, or now.
insert_pass-passes :
    (p : Pass) (db db' : Db) → insert_pass p db ≡ done db' → db'.passes ≡ p ∷ db.passes
unfolding insert_pass
insert_pass-passes p db db' h = ground arith

credit_wallet-passes :
    (p : GrantedPurchase) (at id : ℕ) (db db' : Db)
    → credit_wallet p at id db ≡ done db'
    → db'.passes ≡ db.passes
unfolding credit_wallet
credit_wallet-passes p at id db db' h = ground arith

give_rights-chain :
    (p : GrantedPurchase) (rights : Rights) (at id : ℕ) (db db' : Db)
    → give_rights p rights at id db ≡ done db'
    → ((starts ends : ℕ)
        → rights ≡ pass_rights starts ends
        → NotAfter (latest_end p.user_id db.passes) starts)
    → KeepsChain db db'
unfolding give_rights
give_rights-chain p credit_rights at id db db' h begins c =
    rw (credit_wallet-passes p at id db db' h) c
give_rights-chain p (pass_rights starts ends) at id db db' h begins c =
    let lasts : starts < ends = ground arith in
    let h' : insert_pass (pass_row p starts ends id) db ≡ done db' = ground arith in
    rw (insert_pass-passes (pass_row p starts ends id) db db' h')
      (lasts, begins starts ends refl, c)

grant_for-begins :
    (offer : Offer) (now : ℕ) (latest : Option ℕ) (starts ends : ℕ)
    → (grant_for offer now latest).rights ≡ pass_rights starts ends
    → NotAfter latest starts
unfolding grant_for
grant_for-begins offer now latest starts ends e = begins offer.terms latest e
  where
    begins :
        (terms : Terms) (o : Option ℕ)
        → rights_for terms now o ≡ pass_rights starts ends
        → NotAfter o starts
    begins credits o e = absurd (cc)
    begins (pass days) none e = tt
    begins (pass days) (some end) e = ground arith

record_purchase-chain :
    (p : GrantedPurchase) (at id : ℕ) (db : Db) (recorded : Bool) (db' : Db)
    → record_purchase p at id (lock_for_purchase p.user_id db).1 ≡ done (recorded, db')
    → ((starts ends : ℕ)
        → p.grant.rights ≡ pass_rights starts ends
        → NotAfter (latest_end p.user_id db.passes) starts)
    → KeepsChain db db'
unfolding record_purchase lock_for_purchase
record_purchase-chain p at id db recorded db' h begins c =
    let locked = (lock_for_purchase p.user_id db).1 in
    elim (Bool-cases (exists (purchase_key p.payment_reference) db.purchases)) [
      | inl e ↦ let same : locked ≡ db' = ground arith in rw (← same) c
      | inr e ↦
          let (db₁, k, h₁) =
            >>=-eq-done
              (give_rights p p.grant.rights at id
                (record locked { purchases = purchase_row p at ∷ db.purchases }))
              (λ x. done (true, x)) (rw (e, record_purchase) at h) in
          let same : db₁ ≡ db' = ground arith in
          rw (← same) (
            give_rights-chain p p.grant.rights at id
              (record locked { purchases = purchase_row p at ∷ db.purchases }) db₁ k begins c)
    ]

grant_offer-chain :
    (input : GrantOfferInput) (now id : ℕ) (db : Db) (r : Result GrantOfferOutput GrantError)
    (db' : Db)
    → grant_offer input now id db ≡ done (r, db')
    → KeepsChain db db'
unfolding lock_for_purchase
grant_offer-chain input now id db r db' h c = elim (grant_offer-cases input now id db r db' h) [
  | inl same ↦ rw (← same) c
  | inr w ↦
      record_purchase-chain (purchase_of input w.offer now db) now id db w.recorded db' w.written
        (grant_for-begins w.offer now (lock_for_purchase input.user_id db).0) c
]

step-IsChained :
    (policy : QuotaPolicy) (db : Db) (c : Call)
    → IsChained db.passes
    → IsChained (step policy db c).passes
unfolding step
step-IsChained policy db (reserves input now entry_id) h =
    with_transaction_keeps (λ d. IsChained d.passes) (reserve_quota policy input now entry_id) db
      (λ r db' e. reserve_quota-chain policy input now entry_id db r db' e h) h
step-IsChained policy db (refunds id chars now entry_id) h =
    with_transaction_keeps (λ d. IsChained d.passes) (refund_quota id chars now entry_id) db
      (λ r db' e. refund_quota-chain id chars now entry_id db r db' e h) h
step-IsChained policy db (grants input now id) h =
    with_transaction_keeps (λ d. IsChained d.passes) (grant_offer input now id) db
      (λ r db' e. grant_offer-chain input now id db r db' e h) h

run-IsChained :
    (policy : QuotaPolicy) (db : Db) (cs : List Call)
    → IsChained db.passes
    → IsChained (run policy db cs).passes
unfolding run
run-IsChained policy db [] h = h
run-IsChained policy db (c ∷ cs) h =
    run-IsChained policy (step policy db c) cs (step-IsChained policy db c h)

-- After any history, at any time, a user has one pass at most that runs, in the sense of
-- `isPassActiveAt`.
pub run-one_pass :
    (policy : QuotaPolicy) (offers : List Offer) (cs : List Call) (user at : ℕ)
    → AtMostOne (runs_at user at) (run policy (initial offers) cs).passes
run-one_pass policy offers cs user at =
    IsChained-AtMostOne user at (run policy (initial offers) cs).passes
      (run-IsChained policy (initial offers) cs tt)
