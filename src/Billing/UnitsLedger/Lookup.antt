-- ===== src/Billing/UnitsLedger/Lookup.antt =====
-- What `findReservation` returns is the row of that identifier.
use voxkivre_backend.Prelude.{
  ℕ, ◌≡◌, refl, Option, none, some, find, find-holds, done, >>=-eq-done, arith, ◌≤◌,
}
use voxkivre_backend.Billing.Units.{units_of, max_safe_integer}
use voxkivre_backend.Billing.Store.{QuotaReservation, Db, reservation_key}
use voxkivre_backend.Billing.UnitsLedger.{
  Booking, UnitsReservation, is_set, to_reservation, to_found, find_reservation,
}

abbrev pub booking_of : QuotaReservation → Booking
booking_of row = record {
  reservation_id = row.reservation_id;
  user_id = row.user_id;
  period = row.period;
  tier = row.tier;
  chars = row.chars;
  pass_id = row.pass_id;
  taken = record { free = row.free_units; pass = row.pass_units; credits = row.credit_units };
}

abbrev pub reservation_of : QuotaReservation → UnitsReservation
reservation_of row = record { booking = booking_of row; refunded = is_set row.refunded_at }

to_reservation-done :
    (row : QuotaReservation) (r : UnitsReservation)
    → to_reservation row ≡ done r
    → r ≡ reservation_of row
unfolding units_of
to_reservation-done row r h = ground arith

to_found-some :
    (o : Option QuotaReservation) (r : UnitsReservation)
    → to_found o ≡ done (some r)
    → (row : QuotaReservation) × (o ≡ some row) × (r ≡ reservation_of row)
to_found-some none r h = absurd (cc)
to_found-some (some row) r h =
    let (r', e, k) = >>=-eq-done (to_reservation row) _ h in
    let same : r' ≡ r = ground arith in (row, refl, rw same at (to_reservation-done row r' e))

pub find_reservation-some :
    (id : ℕ) (db : Db) (r : UnitsReservation)
    → find_reservation id db ≡ done (some r)
    → (row : QuotaReservation) × (find (reservation_key id) db.quota_reservations ≡ some row)
      × (r ≡ reservation_of row)
      × (row.reservation_id ≡ id)
unfolding find_reservation
find_reservation-some id db r h =
    let (row, e, same) = to_found-some (find (reservation_key id) db.quota_reservations) r h in
    let k = find-holds (reservation_key id) db.quota_reservations e in (row, e, same, ground arith)

to_found-none : (o : Option QuotaReservation) → to_found o ≡ done none → o ≡ none
to_found-none none h = refl
to_found-none (some row) h = let (r', e, k) = >>=-eq-done (to_reservation row) _ h in absurd (cc)

pub find_reservation-none :
    (id : ℕ) (db : Db)
    → find_reservation id db ≡ done none
    → find (reservation_key id) db.quota_reservations ≡ none
unfolding find_reservation
find_reservation-none id db h = to_found-none _ h

-- The lookup of a row whose columns are safe integers.
pub find_reservation_of :
    (id : ℕ) (db : Db) (row : QuotaReservation)
    → find (reservation_key id) db.quota_reservations ≡ some row
    → row.free_units ≤ max_safe_integer
    → row.pass_units ≤ max_safe_integer
    → row.credit_units ≤ max_safe_integer
    → find_reservation id db ≡ done (some (reservation_of row))
unfolding find_reservation units_of
find_reservation_of id db row e f p c = rw e (ground arith)
