-- ===== src/Billing/ReserveQuota/Cases.antt =====
-- What `reserveQuota` may have written when it returns: nothing, the empty rows of
-- `lockBalances`, or a reservation with its debits; and what it returns in each case.
use voxkivre_backend.Prelude.{
  ℕ, ◌<◌, ◌≡◌, ◌∙◌, ap, ◌⊎◌, inl, inr, ltb, Bool-cases, Option, none, some, Result, ok, err, done,
  false, >>=-eq-done, arith, refl,
}
use voxkivre_backend.Billing.Allocation.{UnitsBySource, Shortfall}
use voxkivre_backend.Billing.Period.{period_at}
use voxkivre_backend.Billing.Store.{Db}
use voxkivre_backend.Billing.UnitsLedger.{
  ActivePass, UnitsReservation, prepared, find_reservation, record_reservation,
}
use voxkivre_backend.Billing.ReserveQuota.{
  QuotaPolicy, ReserveQuotaInput, ReserveError, conversion_limit_exceeded, quota_exceeded,
  booking_for, book, reserve_in_transaction, reserve_quota,
}
use voxkivre_backend.Billing.ReserveQuota.Attempt.{Attempt, reserve_new-Attempt}

book-ok :
    (input : ReserveQuotaInput) (period now entry_id : ℕ) (active : Option ActivePass)
    (t : UnitsBySource) (db : Db) (r : Result UnitsReservation ReserveError) (db' : Db)
    → book input period now entry_id active (ok t) db ≡ done (r, db')
    → (r ≡ ok (record { booking = booking_for input period active t; refunded = false }))
      × (record_reservation (booking_for input period active t) now entry_id db ≡ done db')
unfolding book
book-ok input period now entry_id active t db r db' h =
    let (db₁, e, k) =
      >>=-eq-done (record_reservation (booking_for input period active t) now entry_id db)
        (λ d.
          done (ok (record { booking = booking_for input period active t; refunded = false }), d))
        h in
    let same : db₁ ≡ db' = ground arith in (ground arith, e ∙ ap done same)

book-err :
    (input : ReserveQuotaInput) (period now entry_id : ℕ) (active : Option ActivePass)
    (s : Shortfall) (db : Db) (r : Result UnitsReservation ReserveError) (db' : Db)
    → book input period now entry_id active (err s) db ≡ done (r, db')
    → (r ≡ err (quota_exceeded s period)) × (db' ≡ db)
unfolding book
book-err input period now entry_id active s db r db' h = (ground arith, ground arith)

module _ (policy : QuotaPolicy) (input : ReserveQuotaInput) (now entry_id : ℕ) (db : Db)
    (r : Result UnitsReservation ReserveError) (db' : Db) where
  -- A new reservation was written.
  pub record Written : Type 0 where
    pub attempt : Attempt policy input now entry_id db r db'
    pub taken : UnitsBySource
    pub shared : attempt.allocation ≡ ok taken
    pub result :
        r
        ≡ ok (record {
          booking = booking_for input (period_at now) attempt.balances.active_pass taken;
          refunded = false;
        })
    pub recorded :
        record_reservation
          (booking_for input (period_at now) attempt.balances.active_pass taken)
          now
          entry_id
          (prepared input.user_id (period_at now) db)
        ≡ done db'

  pub record Refused : Type 0 where
    pub attempt : Attempt policy input now entry_id db r db'
    pub shortfall : Shortfall
    pub shared : attempt.allocation ≡ err shortfall
    pub result : r ≡ err (quota_exceeded shortfall (period_at now))
    pub left : db' ≡ prepared input.user_id (period_at now) db

  pub record Replayed : Type 0 where
    pub reservation : UnitsReservation
    pub found : find_reservation input.reservation_id db ≡ done (some reservation)
    pub result : r ≡ ok reservation
    pub left : db ≡ db'

  pub record TooLong : Type 0 where
    pub over : policy.max_chars_per_conversion < input.chars
    pub result : r ≡ err (conversion_limit_exceeded input.chars policy.max_chars_per_conversion)
    pub left : db ≡ db'

  Attempt-cases :
      (a : Attempt policy input now entry_id db r db') (s : Result UnitsBySource Shortfall)
      → a.allocation ≡ s
      → Written ⊎ Refused
  Attempt-cases a (err s) e =
      let (result, left) =
        book-err input (period_at now) now entry_id a.balances.active_pass s a.locked_db r db'
          (rw e at a.written) in
      inr (record {
        attempt = a;
        shortfall = s;
        shared = e;
        result = result;
        left = left ∙ a.locked.left;
      })
  Attempt-cases a (ok t) e =
      let (result, recorded) =
        book-ok input (period_at now) now entry_id a.balances.active_pass t a.locked_db r db'
          (rw e at a.written) in
      inl (record {
        attempt = a;
        taken = t;
        shared = e;
        result = result;
        recorded = rw a.locked.left at recorded;
      })

  pub data Case : Type 0 where
    written : find_reservation input.reservation_id db ≡ done none → Written → Case
    refused : find_reservation input.reservation_id db ≡ done none → Refused → Case
    replayed : Replayed → Case
    too_long : TooLong → Case

  in_transaction-Case :
      (found : Option UnitsReservation)
      → find_reservation input.reservation_id db ≡ done found
      → reserve_in_transaction policy input now entry_id db ≡ done (r, db')
      → Case
  unfolding reserve_in_transaction
  in_transaction-Case none e h =
      let a =
        reserve_new-Attempt policy input now entry_id db r db'
          (rw (e, reserve_in_transaction) at h) in
      elim (Attempt-cases a a.allocation refl) [ inl w ↦ written e w | inr w ↦ refused e w ]
  in_transaction-Case (some x) e h =
      replayed (record { reservation = x; found = e; result = ground arith; left = ground arith })

  -- A call that returns is in one of four cases.
  pub reserve_quota-Case : reserve_quota policy input now entry_id db ≡ done (r, db') → Case
  unfolding reserve_quota reserve_in_transaction
  reserve_quota-Case h = elim (Bool-cases (ltb policy.max_chars_per_conversion input.chars)) [
    | inl big ↦
        too_long (record { over = ground arith; result = ground arith; left = ground arith })
    | inr small ↦
        let k : reserve_in_transaction policy input now entry_id db ≡ done (r, db') =
          ground arith in
        let (found, e, _) = >>=-eq-done (find_reservation input.reservation_id db) _ k in
        in_transaction-Case found e k
  ]
