-- ===== src/Billing/System/Replayed.antt =====
-- A reservation that is asked for again, whatever has happened in between.
use voxkivre_backend.Prelude.{
  ℕ, ◌≡◌, ◌≤◌, refl, sym, ap, ◌∙◌, subst, ◌⊎◌, inl, inr, Bool, true, Bool-cases, List, [], ◌∷◌,
  none, some, find, update, min, done, ok, arith,
}
use voxkivre_backend.Billing.Units.{units_of}
use voxkivre_backend.Billing.Store.{Db, QuotaReservation, reservation_key}
use voxkivre_backend.Billing.UnitsLedger.{
  Booking, UnitsReservation, find_reservation, to_found, unrefunded_key,
}
use voxkivre_backend.Billing.ReserveQuota.{QuotaPolicy, ReserveQuotaInput, reserve_quota}
use voxkivre_backend.Billing.ReserveQuota.Replay.{reserve_quota-found, reserve_quota-granted}
use voxkivre_backend.Billing.RefundQuota.{refund_quota}
use voxkivre_backend.Billing.RefundQuota.Cases.{marked_row}
use voxkivre_backend.Billing.GrantOffer.{grant_offer}
use voxkivre_backend.Billing.System.{
  Call, reserves, refunds, grants, step, run, with_transaction_keeps,
}
use voxkivre_backend.Billing.System.Reservations.{
  rows_of, reserve_quota-reservations, refund_quota-reservations, grant_offer-reservations,
}

-- The table has a booking under the identifier.
pub record HasBooking (id : ℕ) (b : Booking) (rows : List QuotaReservation) : Type 0 where
  pub reservation : UnitsReservation
  pub found : to_found (find (reservation_key id) rows) ≡ done (some reservation)
  pub booked : reservation.booking ≡ b

to_found-marked :
    (row : QuotaReservation) (chars at : ℕ) (r : UnitsReservation)
    → to_found (some row) ≡ done (some r)
    → to_found (some (marked_row chars at row)) ≡ done (some (record r { refunded = true }))
unfolding units_of
to_found-marked row chars at r h = ground arith

find-marked :
    (id chars at : ℕ) (q : QuotaReservation → Bool) (rows : List QuotaReservation)
    → (find (reservation_key id) (update q (marked_row chars at) rows)
        ≡ find (reservation_key id) rows)
      ⊎ ((row : QuotaReservation) × (find (reservation_key id) rows ≡ some row)
          × (find (reservation_key id) (update q (marked_row chars at) rows)
              ≡ some (marked_row chars at row)))
find-marked id chars at q [] = inl refl
find-marked id chars at q (x ∷ xs) = elim (Bool-cases (reservation_key id x)) [
  | inl k ↦ elim (Bool-cases (q x)) [
    | inl e ↦ inr (x, ground arith, ground arith)
    | inr e ↦ inl (ground arith)
  ]
  | inr k ↦ elim (find-marked id chars at q xs) [
    | inl same ↦ inl (ground arith)
    | inr (row, f, m) ↦ inr (row, ground arith, ground arith)
  ]
]

HasBooking-marked :
    (id chars at : ℕ) (b : Booking) (q : QuotaReservation → Bool) (rows : List QuotaReservation)
    → HasBooking id b rows
    → HasBooking id b (update q (marked_row chars at) rows)
HasBooking-marked id chars at b q rows v = elim (find-marked id chars at q rows) [
  | inl same ↦ record {
    reservation = v.reservation;
    found = ap to_found same ∙ v.found;
    booked = v.booked;
  }
  | inr (row, f, m) ↦ record {
    reservation = record v.reservation { refunded = true };
    found =
        ap to_found m ∙ to_found-marked row chars at v.reservation (ap to_found (sym f) ∙ v.found);
    booked = v.booked;
  }
]

HasBooking-cons :
    (id : ℕ) (b : Booking) (row : QuotaReservation) (rows : List QuotaReservation)
    → find (reservation_key row.reservation_id) rows ≡ none
    → HasBooking id b rows
    → HasBooking id b (row ∷ rows)
HasBooking-cons id b row rows free v = elim (Bool-cases (reservation_key id row)) [
  | inl k ↦
      let is_id : row.reservation_id ≡ id = ground arith in
      let lost : to_found none ≡ done (some v.reservation) =
        ap to_found (sym (subst (λ i. find (reservation_key i) rows ≡ none) is_id free))
        ∙ v.found in
      absurd (cc)
  | inr k ↦ record { reservation = v.reservation; found = rw k v.found; booked = v.booked }
]

module _ (policy : QuotaPolicy) (id : ℕ) (b : Booking) where
  HasBooking-step :
      (db : Db) (c : Call)
      → HasBooking id b (rows_of db)
      → HasBooking id b (rows_of (step policy db c))
  unfolding step
  HasBooking-step db (reserves input now entry_id) v =
      with_transaction_keeps (λ d. HasBooking id b (rows_of d))
        (reserve_quota policy input now entry_id) db
        (λ r db' h. elim (reserve_quota-reservations policy input now entry_id db r db' h) [
          | inl (same, _) ↦ subst (HasBooking id b) (sym same) v
          | inr (row, e, is_for, _, free) ↦ subst (HasBooking id b) (sym e) (
              HasBooking-cons id b row (rows_of db)
                (subst (λ i. find (reservation_key i) (rows_of db) ≡ none) (sym is_for.id) free) v)
        ])
        v
  HasBooking-step db (refunds rid chars now entry_id) v =
      with_transaction_keeps (λ d. HasBooking id b (rows_of d))
        (refund_quota rid chars now entry_id) db
        (λ given db' h. elim (refund_quota-reservations rid chars now entry_id db given db' h) [
          | inl same ↦ subst (HasBooking id b) (sym same) v
          | inr (row, _, e) ↦ subst (HasBooking id b) (sym e) (
              HasBooking-marked id (min chars row.chars) now b (unrefunded_key row.reservation_id)
                (rows_of db) v)
        ])
        v
  HasBooking-step db (grants input now gid) v =
      with_transaction_keeps (λ d. HasBooking id b (rows_of d)) (grant_offer input now gid) db
        (λ r db' h.
          subst (HasBooking id b) (sym (grant_offer-reservations input now gid db r db' h)) v)
        v

  HasBooking-run :
      (db : Db) (calls : List Call)
      → HasBooking id b (rows_of db)
      → HasBooking id b (rows_of (run policy db calls))
  unfolding run
  HasBooking-run db [] v = v
  HasBooking-run db (c ∷ cs) v = HasBooking-run (step policy db c) cs (HasBooking-step db c v)

-- Asking again for a reservation that was granted, after any reservations, refunds and grants and
-- with a policy that still admits a text of that length, answers the same booking, refunded or not
-- since, and writes nothing: no unit is taken twice. Asked again at once, it is the same reservation.
pub reserve_quota-replayed :
    (policy policy' : QuotaPolicy) (input : ReserveQuotaInput) (now now' entry_id entry_id' : ℕ)
    (calls : List Call) (db : Db) (res : UnitsReservation) (db' : Db)
    → reserve_quota policy input now entry_id db ≡ done (ok res, db')
    → input.chars ≤ policy'.max_chars_per_conversion
    → (again : UnitsReservation) × (again.booking ≡ res.booking)
      × (reserve_quota policy' input now' entry_id' (run policy' db' calls)
          ≡ done (ok again, run policy' db' calls))
      × (reserve_quota policy' input now' entry_id' db' ≡ done (ok res, db'))
unfolding find_reservation
reserve_quota-replayed policy policy' input now now' entry_id entry_id' calls db res db' h short =
    let start : HasBooking input.reservation_id res.booking (rows_of db') = record {
      reservation = res;
      found = reserve_quota-granted policy input now entry_id db res db' h;
      booked = refl;
    } in
    let v = HasBooking-run policy' input.reservation_id res.booking db' calls start in
    (
      v.reservation,
      v.booked,
      reserve_quota-found policy' input now' entry_id' (run policy' db' calls) v.reservation short
          v.found,
      reserve_quota-found policy' input now' entry_id' db' res short start.found,
    )
