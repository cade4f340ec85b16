-- ===== src/Billing/RefundQuota/Cases.antt =====
-- What `refundQuota` may have written when it returns: nothing, or the mark on the reservation
-- with what each source gets back.
use voxkivre_backend.Prelude.{
  ℕ, ◌*◌, ◌<◌, ◌≡◌, ◌∙◌, ap, sym, subst, exists_of_find, find-narrow, ◌⊎◌, inl, inr, min, leb,
  Bool-cases, Option-cases, Bool, true, false, Option, none, some, find, exists, done, >>=-eq-done,
  arith, List, update,
}
use voxkivre_backend.Billing.Units.{voice_tier_weight, units_of, units_of-done, units_for_chars}
use voxkivre_backend.Billing.Allocation.{UnitsBySource, split_refund}
use voxkivre_backend.Billing.Allocation.Greedy.{give_back}
use voxkivre_backend.Billing.Store.{QuotaReservation, Db, reservation_key}
use voxkivre_backend.Billing.UnitsLedger.{
  UnitsReservation, given_back, unrefunded_key, find_reservation, mark_refunded, give_sources_back,
  record_refund, apply_to_sources,
}
use voxkivre_backend.Billing.UnitsLedger.Lookup.{reservation_of, booking_of, find_reservation-some}
use voxkivre_backend.Billing.RefundQuota.{refund_reservation, refund_found, refund_quota}

-- The units that a refund of so many characters gives back.
abbrev pub units_returned : QuotaReservation → (chars : ℕ) → UnitsBySource
units_returned row chars = give_back (booking_of row).taken (chars * voice_tier_weight row.tier)

abbrev pub marked_row : (refunded_chars at : ℕ) → QuotaReservation → QuotaReservation
marked_row chars at row = record row { refunded_chars = some chars; refunded_at = some at }

abbrev pub rows_marked :
    QuotaReservation → (chars at : ℕ) → List QuotaReservation → List QuotaReservation
rows_marked row chars at = update (unrefunded_key row.reservation_id) (marked_row chars at)

pub unrefunded_key-id :
    (id : ℕ) (y : QuotaReservation) → unrefunded_key id y ≡ true → reservation_key id y ≡ true
unrefunded_key-id id y h = ground arith

split_refund_value :
    (reserved r : UnitsBySource) (n : ℕ)
    → split_refund reserved n ≡ done r
    → r ≡ give_back reserved n
unfolding split_refund units_of
split_refund_value reserved r n h = ground arith

mark_refunded-done :
    (row : QuotaReservation) (chars at : ℕ) (db db' : Db)
    → mark_refunded row.reservation_id chars at db ≡ done db'
    → db' ≡ record db { quota_reservations = rows_marked row chars at db.quota_reservations }
unfolding mark_refunded
mark_refunded-done row chars at db db' h = ground arith

give_sources_back-done :
    (row : QuotaReservation) (units : UnitsBySource) (chars at entry_id : ℕ) (db db' : Db)
    → give_sources_back (reservation_of row) units chars at entry_id db ≡ done db'
    → apply_to_sources
        (booking_of row)
        units
        given_back
        at
        entry_id
        (record db { quota_reservations = rows_marked row chars at db.quota_reservations })
      ≡ done db'
unfolding give_sources_back
give_sources_back-done row units chars at entry_id db db' h =
    let (db₁, e, k) = >>=-eq-done (mark_refunded row.reservation_id chars at db) _ h in
    rw (mark_refunded-done row chars at db db₁ e) at k

record_refund-done :
    (row : QuotaReservation) (units : UnitsBySource) (chars at entry_id : ℕ) (db db' : Db)
    (given : Bool)
    → record_refund (reservation_of row) units chars at entry_id db ≡ done (given, db')
    → exists (unrefunded_key row.reservation_id) db.quota_reservations ≡ true
    → (given ≡ true)
      × (give_sources_back (reservation_of row) units chars at entry_id db ≡ done db')
unfolding record_refund
record_refund-done row units chars at entry_id db db' given h e = (ground arith, ground arith)

module _ (id chars now entry_id : ℕ) (db : Db) (given : Bool) (db' : Db) where
  pub record Given : Type 0 where
    pub row : QuotaReservation
    pub found : find (reservation_key row.reservation_id) db.quota_reservations ≡ some row
    pub is_id : row.reservation_id ≡ id
    pub fresh : row.refunded_at ≡ none
    pub asked : 0 < chars
    pub result : given ≡ true
    pub written :
        apply_to_sources
          (booking_of row)
          (units_returned row (min chars row.chars))
          given_back
          now
          entry_id
          (record db {
            quota_reservations = rows_marked row (min chars row.chars) now db.quota_reservations;
          })
        ≡ done db'

  pub record NotGiven : Type 0 where
    pub result : given ≡ false
    pub left : db ≡ db'

  refund_reservation-Given :
      (row : QuotaReservation)
      → refund_reservation (reservation_of row) chars now entry_id db ≡ done (given, db')
      → find (reservation_key row.reservation_id) db.quota_reservations ≡ some row
      → row.reservation_id ≡ id
      → row.refunded_at ≡ none
      → 0 < chars
      → Given
  unfolding refund_reservation units_for_chars
  refund_reservation-Given row h found is_id fresh asked =
      let n = min chars row.chars in
      let taken = (booking_of row).taken in
      let (units, e₁, h₁) = >>=-eq-done (units_of (n * voice_tier_weight row.tier)) _ h in
      let (refund, e₂, h₂) = >>=-eq-done (split_refund taken units) _ h₁ in
      let cost = (units_of-done (n * voice_tier_weight row.tier) units e₁).0 in
      let share : refund ≡ units_returned row n =
        split_refund_value taken refund units e₂ ∙ ap (give_back taken) cost in
      let there = exists_of_find (unrefunded_key row.reservation_id) db.quota_reservations (
        find-narrow (unrefunded_key row.reservation_id) (reservation_key row.reservation_id)
          db.quota_reservations row (unrefunded_key-id row.reservation_id) found (ground arith)) in
      let (result, written) =
        record_refund-done row (units_returned row n) n now entry_id db db' given (rw share at h₂)
          there in
      record {
        row = row;
        found = found;
        is_id = is_id;
        fresh = fresh;
        asked = asked;
        result = result;
        written = give_sources_back-done row (units_returned row n) n now entry_id db db' written;
      }

  refund_found-cases :
      (r : Option UnitsReservation)
      → find_reservation id db ≡ done r
      → 0 < chars
      → refund_found r chars now entry_id db ≡ done (given, db')
      → Given ⊎ NotGiven
  refund_found-cases none e asked h = inr (record { result = ground arith; left = ground arith })
  refund_found-cases (some r) e asked h =
      let (row, found, is_row, is_id) = find_reservation-some id db r e in
      let own =
        subst (λ (k : ℕ). find (reservation_key k) db.quota_reservations ≡ some row) (sym is_id)
          found in
      elim (Option-cases row.refunded_at) [
        | inr (t, k) ↦ inr (record { result = ground arith; left = ground arith })
        | inl k ↦
            let h' : refund_reservation (reservation_of row) chars now entry_id db
                ≡ done (given, db') =
              ground arith in
            inl (refund_reservation-Given row h' own is_id k asked)
      ]

  -- A call that returns has given the units back, or has written nothing.
  pub refund_quota-cases :
      refund_quota id chars now entry_id db ≡ done (given, db') → Given ⊎ NotGiven
  unfolding refund_quota
  refund_quota-cases h = elim (Bool-cases (leb chars 0)) [
    | inl z ↦ inr (record { result = ground arith; left = ground arith })
    | inr pos ↦
        let (r, e, k) =
          >>=-eq-done (find_reservation id db) (λ f. refund_found f chars now entry_id db)
            (rw (pos, refund_quota) at h) in
        refund_found-cases r e (ground arith) k
  ]
