-- ===== src/Billing/System/Purchases.antt =====
-- No call of billing loses a purchase.
use voxkivre_backend.Prelude.{ℕ, ◌≡◌, sym, ap, ◌∙◌, inl, inr, some, find, done, Result, Bool}
use voxkivre_backend.Billing.Store.{Db, Purchase, purchase_key}
use voxkivre_backend.Billing.UnitsLedger.{UnitsReservation}
use voxkivre_backend.Billing.UnitsLedger.Charges.{apply_to_sources-done}
use voxkivre_backend.Billing.Conservation.Reserve.{record_reservation-done}
use voxkivre_backend.Billing.ReserveQuota.{
  QuotaPolicy, ReserveQuotaInput, ReserveError, reserve_quota,
}
use voxkivre_backend.Billing.ReserveQuota.Cases.{
  written, refused, replayed, too_long, reserve_quota-Case,
}
use voxkivre_backend.Billing.RefundQuota.{refund_quota}
use voxkivre_backend.Billing.RefundQuota.Cases.{refund_quota-cases}
use voxkivre_backend.Billing.GrantOffer.{grant_offer}
use voxkivre_backend.Billing.GrantOffer.Purchases.{grant_offer-kept}
use voxkivre_backend.Billing.System.{Call, reserves, refunds, grants, step, with_transaction_keeps}

reserve_quota-purchases :
    (policy : QuotaPolicy) (input : ReserveQuotaInput) (now entry_id : ℕ) (db : Db)
    (r : Result UnitsReservation ReserveError) (db' : Db)
    → reserve_quota policy input now entry_id db ≡ done (r, db')
    → db'.purchases ≡ db.purchases
reserve_quota-purchases policy input now entry_id db r db' h =
    elim (reserve_quota-Case policy input now entry_id db r db' h) [
      | too_long t ↦ ap (λ (d : Db). d.purchases) (sym t.left)
      | replayed t ↦ ap (λ (d : Db). d.purchases) (sym t.left)
      | refused _ t ↦ ap (λ (d : Db). d.purchases) t.left
      | written _ w ↦
          ap (λ (d : Db). d.purchases) (record_reservation-done _ now entry_id _ db' w.recorded)
    ]

refund_quota-purchases :
    (id chars now entry_id : ℕ) (db : Db) (given : Bool) (db' : Db)
    → refund_quota id chars now entry_id db ≡ done (given, db')
    → db'.purchases ≡ db.purchases
refund_quota-purchases id chars now entry_id db given db' h =
    elim (refund_quota-cases id chars now entry_id db given db' h) [
      | inr n ↦ ap (λ (d : Db). d.purchases) (sym n.left)
      | inl g ↦
          ap (λ (d : Db). d.purchases) (apply_to_sources-done _ _ _ now entry_id _ db' g.written)
    ]

-- A purchase that is there before a call is there after it.
pub step-kept :
    (policy : QuotaPolicy) (db : Db) (c : Call) (key : ℕ) (p : Purchase)
    → find (purchase_key key) db.purchases ≡ some p
    → find (purchase_key key) (step policy db c).purchases ≡ some p
unfolding step
step-kept policy db (reserves input now entry_id) key p e =
    with_transaction_keeps (λ (d : Db). find (purchase_key key) d.purchases ≡ some p)
      (reserve_quota policy input now entry_id) db
      (λ r db' h.
        ap (find (purchase_key key)) (reserve_quota-purchases policy input now entry_id db r db' h)
        ∙ e)
      e
step-kept policy db (refunds id chars now entry_id) key p e =
    with_transaction_keeps (λ (d : Db). find (purchase_key key) d.purchases ≡ some p)
      (refund_quota id chars now entry_id) db
      (λ r db' h.
        ap (find (purchase_key key)) (refund_quota-purchases id chars now entry_id db r db' h) ∙ e)
      e
step-kept policy db (grants input now id) key p e =
    with_transaction_keeps (λ (d : Db). find (purchase_key key) d.purchases ≡ some p)
      (grant_offer input now id) db (λ r db' h. grant_offer-kept input now id db r db' key p h e) e
