-- ===== src/Billing/RefundQuota/Once.antt =====
-- A reservation is refunded once.
use voxkivre_backend.Prelude.{
  ℕ, ◌≡◌, sym, ap, ◌∙◌, inl, inr, min, Bool, true, false, List, [], ◌∷◌, some, find, update, done,
  arith,
}
use voxkivre_backend.Billing.Store.{QuotaReservation, Db, reservation_key}
use voxkivre_backend.Billing.UnitsLedger.{is_set, unrefunded_key}
use voxkivre_backend.Billing.UnitsLedger.Charges.{apply_to_sources-done}
use voxkivre_backend.Billing.RefundQuota.{refund_quota}
use voxkivre_backend.Billing.RefundQuota.Cases.{Given, refund_quota-cases, marked_row, rows_marked}

-- The row that a refund has marked.
find-rows_marked :
    (id n at : ℕ) (rows : List QuotaReservation) (row : QuotaReservation)
    → find (reservation_key id) (update (unrefunded_key id) (marked_row n at) rows) ≡ some row
    → is_set row.refunded_at ≡ true
find-rows_marked id n at [] row e = absurd (cc)
find-rows_marked id n at (r ∷ rs) row e = ground (arith, find-rows_marked id n at rs row)

not_given_again :
    (id chars now entry_id chars' now' entry_id' : ℕ) (db db' : Db) (b : Bool) (db'' : Db)
    → Given id chars now entry_id db true db'
    → Given id chars' now' entry_id' db' b db''
    → true ≡ false
not_given_again id chars now entry_id chars' now' entry_id' db db' b db'' g again =
    let n = min chars g.row.chars in
    let listed : db'.quota_reservations ≡ rows_marked g.row n now db.quota_reservations =
      ap (λ (d : Db). d.quota_reservations)
        (apply_to_sources-done _ _ _ now entry_id _ db' g.written) in
    let same : again.row.reservation_id ≡ g.row.reservation_id = again.is_id ∙ sym g.is_id in
    let found : find (reservation_key g.row.reservation_id)
          (rows_marked g.row n now db.quota_reservations)
        ≡ some again.row =
      ap (λ k. find (reservation_key k) (rows_marked g.row n now db.quota_reservations)) (sym same)
      ∙ (ap (find (reservation_key again.row.reservation_id)) (sym listed) ∙ again.found) in
    sym (find-rows_marked g.row.reservation_id n now db.quota_reservations again.row found)
    ∙ ap is_set again.fresh

-- Once a refund has given units back, a refund of the same reservation that returns gives nothing
-- and writes nothing, whatever number of characters it is for.
pub refund_quota-once :
    (id chars now entry_id chars' now' entry_id' : ℕ) (db db' : Db) (b : Bool) (db'' : Db)
    → refund_quota id chars now entry_id db ≡ done (true, db')
    → refund_quota id chars' now' entry_id' db' ≡ done (b, db'')
    → (b ≡ false) × (db' ≡ db'')
refund_quota-once id chars now entry_id chars' now' entry_id' db db' b db'' h k =
    elim (refund_quota-cases id chars' now' entry_id' db' b db'' k) [
      | inr n ↦ (n.result, n.left)
      | inl again ↦ elim (refund_quota-cases id chars now entry_id db true db' h) [
        | inr n ↦ let wrong : true ≡ false = n.result in absurd (cc)
        | inl g ↦
            let wrong : true ≡ false =
              not_given_again id chars now entry_id chars' now' entry_id' db db' b db'' g again in
            absurd (cc)
      ]
    ]
