-- ===== src/Billing/ReserveQuota/Replay.antt =====
-- The same reservation asked for twice.
use voxkivre_backend.Prelude.{
  ℕ, ◌≤◌, ◌≡◌, refl, sym, subst, ap, ◌∙◌, ltb, false, ◌∷◌, some, find, done, Result, ok, arith,
}
use voxkivre_backend.Billing.Units.{max_safe_integer}
use voxkivre_backend.Billing.Period.{period_at}
use voxkivre_backend.Billing.Store.{Db, reservation_key}
use voxkivre_backend.Billing.UnitsLedger.{
  Booking, UnitsReservation, booking_row, find_reservation, debited,
}
use voxkivre_backend.Billing.UnitsLedger.Lookup.{find_reservation_of}
use voxkivre_backend.Billing.UnitsLedger.Charges.{charged}
use voxkivre_backend.Billing.Conservation.Reserve.{record_reservation-done}
use voxkivre_backend.Billing.ReserveQuota.{
  QuotaPolicy, ReserveQuotaInput, ReserveError, booking_for, reserve_in_transaction, reserve_quota,
}
use voxkivre_backend.Billing.ReserveQuota.Cases.{
  written, refused, replayed, too_long, reserve_quota-Case,
}
use voxkivre_backend.Billing.ReserveQuota.Effect.{Written-IsDebit}

-- A reservation that is found is answered as it is, and nothing is written.
pub reserve_quota-found :
    (policy : QuotaPolicy) (input : ReserveQuotaInput) (now entry_id : ℕ) (db : Db)
    (res : UnitsReservation)
    → input.chars ≤ policy.max_chars_per_conversion
    → find_reservation input.reservation_id db ≡ done (some res)
    → reserve_quota policy input now entry_id db ≡ done (ok res, db)
unfolding reserve_quota reserve_in_transaction
reserve_quota-found policy input now entry_id db res short found =
    let within : ltb policy.max_chars_per_conversion input.chars ≡ false = ground arith in
    rw (within, found) refl

written-found :
    (b : Booking) (at entry_id : ℕ) (db db' : Db)
    → db'
      ≡ charged b b.taken debited at entry_id
          (record db { quota_reservations = booking_row b at ∷ db.quota_reservations })
    → b.taken.free ≤ max_safe_integer
    → b.taken.pass ≤ max_safe_integer
    → b.taken.credits ≤ max_safe_integer
    → find_reservation b.reservation_id db' ≡ done (some (record { booking = b; refunded = false }))
written-found b at entry_id db db' left f p c =
    find_reservation_of b.reservation_id db' (booking_row b at)
      (ap (λ (d : Db). find (reservation_key b.reservation_id) d.quota_reservations) left
        ∙ ground arith)
      f p c

abbrev as_ok : UnitsReservation → Result UnitsReservation ReserveError
as_ok r = ok r

-- A reservation that was granted is found.
pub reserve_quota-granted :
    (policy : QuotaPolicy) (input : ReserveQuotaInput) (now entry_id : ℕ) (db : Db)
    (res : UnitsReservation) (db' : Db)
    → reserve_quota policy input now entry_id db ≡ done (ok res, db')
    → find_reservation input.reservation_id db' ≡ done (some res)
reserve_quota-granted policy input now entry_id db res db' h =
    elim (reserve_quota-Case policy input now entry_id db (ok res) db' h) [
      | too_long t ↦ absurd (ground (arith, t.result))
      | refused _ t ↦ absurd (ground (arith, t.result))
      | replayed t ↦
          subst (λ d. find_reservation input.reservation_id d ≡ done (some res)) t.left
            (t.found ∙ ap (λ r. done (some r)) (same_ok t.reservation res (sym t.result)))
      | written _ w ↦
          let b = booking_for input (period_at now) w.attempt.balances.active_pass w.taken in
          let debit = Written-IsDebit policy input now entry_id db (ok res) db' w in
          let safe = w.attempt.cost_safe in
          let cost = w.attempt.cost_eq in
          written-found b now entry_id _ db'
            (record_reservation-done b now entry_id _ db' w.recorded) (ground (arith, debit.sum))
            (ground (arith, debit.sum)) (ground (arith, debit.sum))
          ∙ ap (λ r. done (some r)) (same_ok _ res (sym w.result))
    ]
  where
    same_ok : (r s : UnitsReservation) → as_ok r ≡ as_ok s → r ≡ s
    same_ok r s e = ground arith
