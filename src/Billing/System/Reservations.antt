-- ===== src/Billing/System/Reservations.antt =====
-- What each call of billing does to the table of reservations.
use voxkivre_backend.Prelude.{
  ℕ, true, ◌≡◌, refl, sym, ap, ◌∙◌, ◌⊎◌, inl, inr, Bool, Bool-cases, List, ◌∷◌, none, some, find,
  exists, min, done, >>=-eq-done, Result, ok, err, arith,
}
use voxkivre_backend.Billing.Store.{Db, QuotaReservation, reservation_key, purchase_key}
use voxkivre_backend.Billing.UnitsLedger.{UnitsReservation}
use voxkivre_backend.Billing.UnitsLedger.Charges.{apply_to_sources-done}
use voxkivre_backend.Billing.UnitsLedger.Lookup.{find_reservation-none, find_reservation-some}
use voxkivre_backend.Billing.Conservation.Reserve.{record_reservation-done}
use voxkivre_backend.Billing.ReserveQuota.{
  QuotaPolicy, ReserveQuotaInput, ReserveError, reserve_quota,
}
use voxkivre_backend.Billing.ReserveQuota.Cases.{
  written, refused, replayed, too_long, reserve_quota-Case,
}
use voxkivre_backend.Billing.RefundQuota.{refund_quota}
use voxkivre_backend.Billing.RefundQuota.Cases.{refund_quota-cases, rows_marked}
use voxkivre_backend.Billing.Offers.{Rights, pass_rights, credit_rights}
use voxkivre_backend.Billing.PurchaseLedger.{
  GrantedPurchase, purchase_row, insert_pass, credit_wallet, give_rights, lock_for_purchase,
  record_purchase,
}
use voxkivre_backend.Billing.GrantOffer.{GrantOfferInput, GrantOfferOutput, GrantError, grant_offer}
use voxkivre_backend.Billing.GrantOffer.Cases.{grant_offer-cases}

-- A row for a request, as it is written.
pub record IsFor (input : ReserveQuotaInput) (row : QuotaReservation) : Type 0 where
  pub id : row.reservation_id ≡ input.reservation_id
  pub user : row.user_id ≡ input.user_id
  pub chars : row.chars ≡ input.chars
  pub open_ : row.refunded_at ≡ none

abbrev pub rows_of : Db → List QuotaReservation
rows_of db = db.quota_reservations

-- A request writes nothing, and has the reservation already if it is granted; or it writes one
-- row, under an identifier that had none.
pub reserve_quota-reservations :
    (policy : QuotaPolicy) (input : ReserveQuotaInput) (now entry_id : ℕ) (db : Db)
    (r : Result UnitsReservation ReserveError) (db' : Db)
    → reserve_quota policy input now entry_id db ≡ done (r, db')
    → ((rows_of db' ≡ rows_of db)
        × (((e : ReserveError) × (r ≡ err e))
            ⊎ ((row : QuotaReservation) × (find (reservation_key input.reservation_id) (rows_of db)
                  ≡ some row)
                × (row.reservation_id ≡ input.reservation_id))))
      ⊎ ((row : QuotaReservation) × (rows_of db' ≡ row ∷ rows_of db)
          × IsFor input row
          × ((reservation : UnitsReservation) × (r ≡ ok reservation))
          × (find (reservation_key input.reservation_id) (rows_of db) ≡ none))
reserve_quota-reservations policy input now entry_id db r db' h =
    elim (reserve_quota-Case policy input now entry_id db r db' h) [
      | too_long t ↦ inl (ap rows_of (sym t.left), inl (_, t.result))
      | replayed t ↦
          let (row, found, _, is_id) =
            find_reservation-some input.reservation_id db t.reservation t.found in
          inl (ap rows_of (sym t.left), inr (row, found, is_id))
      | refused _ t ↦ inl (ap rows_of t.left, inl (_, t.result))
      | written n w ↦ inr (
        _,
        ap rows_of (record_reservation-done _ now entry_id _ db' w.recorded),
        record { id = refl; user = refl; chars = refl; open_ = refl },
        (_, w.result),
        find_reservation-none input.reservation_id db n,
      )
    ]

pub refund_quota-reservations :
    (id chars now entry_id : ℕ) (db : Db) (given : Bool) (db' : Db)
    → refund_quota id chars now entry_id db ≡ done (given, db')
    → (rows_of db' ≡ rows_of db)
      ⊎ ((row : QuotaReservation) × (row.reservation_id ≡ id)
          × (rows_of db' ≡ rows_marked row (min chars row.chars) now (rows_of db)))
refund_quota-reservations id chars now entry_id db given db' h =
    elim (refund_quota-cases id chars now entry_id db given db' h) [
      | inr n ↦ inl (ap rows_of (sym n.left))
      | inl g ↦
          inr
            (g.row, g.is_id, ap rows_of (apply_to_sources-done _ _ _ now entry_id _ db' g.written))
    ]

give_rights-reservations :
    (p : GrantedPurchase) (rights : Rights) (at id : ℕ) (db db' : Db)
    → give_rights p rights at id db ≡ done db'
    → rows_of db' ≡ rows_of db
unfolding give_rights insert_pass credit_wallet
give_rights-reservations p (pass_rights starts ends) at id db db' h = ground arith
give_rights-reservations p credit_rights at id db db' h = ground arith

record_purchase-reservations :
    (p : GrantedPurchase) (at id : ℕ) (db : Db) (recorded : Bool) (db' : Db)
    → record_purchase p at id db ≡ done (recorded, db')
    → rows_of db' ≡ rows_of db
unfolding record_purchase
record_purchase-reservations p at id db recorded db' h =
    elim (Bool-cases (exists (purchase_key p.payment_reference) db.purchases)) [
      | inl e ↦ ap rows_of (let same : db' ≡ db = ground arith in same)
      | inr e ↦
          let (db₁, k, h₁) =
            >>=-eq-done
              (give_rights p p.grant.rights at id
                (record db { purchases = purchase_row p at ∷ db.purchases }))
              (λ x. done (true, x)) (rw (e, record_purchase) at h) in
          let same : db' ≡ db₁ = ground arith in
          ap rows_of same ∙ give_rights-reservations p p.grant.rights at id _ db₁ k
    ]

pub grant_offer-reservations :
    (input : GrantOfferInput) (now id : ℕ) (db : Db) (r : Result GrantOfferOutput GrantError)
    (db' : Db)
    → grant_offer input now id db ≡ done (r, db')
    → rows_of db' ≡ rows_of db
unfolding lock_for_purchase
grant_offer-reservations input now id db r db' h =
    elim (grant_offer-cases input now id db r db' h) [
      | inl same ↦ ap rows_of (sym same)
      | inr g ↦ record_purchase-reservations _ now id _ g.recorded db' g.written
    ]
