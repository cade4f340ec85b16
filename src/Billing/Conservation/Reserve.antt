-- ===== src/Billing/Conservation/Reserve.antt =====
-- `reserveQuota` keeps the books balanced.
use voxkivre_backend.Prelude.{
  ℕ, ◌+◌, ◌≤◌, ◌≡◌, refl, ◌⊎◌, inl, inr, ltb, Bool-cases, true, false, List, ◌∷◌, Option, none,
  some, exists, AtMostOne, AtMostOne-update, exists-update, not_exists_of_all, sum_by, done,
  >>=-eq-done, pos_part-neg, neg_part-neg, arith,
}
use voxkivre_backend.Billing.Store.{
  QuotaReservation, Pass, Wallet, Db, usage_key, wallet_key, reservation_key, pass_key,
}
use voxkivre_backend.Billing.UnitsLedger.{
  Sign, Booking, debited, insert_reservation, booking_row, record_reservation, apply_to_sources,
}
use voxkivre_backend.Billing.UnitsLedger.Counters.{free_used, pass_used, balance}
use voxkivre_backend.Billing.UnitsLedger.Charges.{
  charged, charged_passes, charged_wallets, apply_to_sources-done, exists_wallet_key,
  free_used-charged, pass_used-charged, balance-charged,
}
use voxkivre_backend.Billing.UnitsLedger.Checks.{apply_to_sources-Within, apply_to_sources-can_pay}
use voxkivre_backend.Billing.Conservation.Books.{
  IsBalanced, free_kept, pass_kept, credits_kept, credits_bought, inflow, outflow,
}

pub insert_reservation-done :
    (b : Booking) (at : ℕ) (db db' : Db)
    → insert_reservation b at db ≡ done db'
    → db' ≡ record db { quota_reservations = booking_row b at ∷ db.quota_reservations }
unfolding insert_reservation
insert_reservation-done b at db db' h = ground arith

pub record_reservation-done :
    (b : Booking) (at entry_id : ℕ) (db db' : Db)
    → record_reservation b at entry_id db ≡ done db'
    → db'
      ≡ charged b b.taken debited at entry_id
          (record db { quota_reservations = booking_row b at ∷ db.quota_reservations })
unfolding record_reservation
record_reservation-done b at entry_id db db' h =
    let (db₁, e, k) =
      >>=-eq-done (insert_reservation b at db) (apply_to_sources b b.taken debited at entry_id) h in
    ground (
      arith,
      insert_reservation-done b at db db₁ e,
      apply_to_sources-done b b.taken debited at entry_id db₁ db' k,
    )

module _ (b : Booking) (at entry_id : ℕ) (db : Db) where
  abbrev booked : Db
  booked =
      charged b b.taken debited at entry_id
        (record db { quota_reservations = booking_row b at ∷ db.quota_reservations })

  booked-free :
      IsBalanced db
      → exists (usage_key b.user_id b.period) db.quota_usage ≡ true
      → (u p : ℕ)
      → free_used u p booked.quota_usage ≡ sum_by (free_kept u p) booked.quota_reservations
  booked-free v h u p =
      ground (arith, free_used-charged b debited b.taken.free u p db.quota_usage, v.free u p)

  booked-journal :
      IsBalanced db
      → exists (wallet_key b.user_id) db.wallets ≡ true
      → b.taken.credits ≤ balance b.user_id db.wallets
      → (u : ℕ)
      → balance u booked.wallets + sum_by (outflow u) booked.credit_entries
        ≡ sum_by (inflow u) booked.credit_entries
  booked-journal v h k u = ground (
    arith,
    balance-charged b debited b.taken.credits u db.wallets,
    v.journal u,
    pos_part-neg b.taken.credits,
    neg_part-neg b.taken.credits,
  )

  booked-credits :
      IsBalanced db
      → exists (wallet_key b.user_id) db.wallets ≡ true
      → b.taken.credits ≤ balance b.user_id db.wallets
      → (u : ℕ)
      → balance u booked.wallets + sum_by (credits_kept u) booked.quota_reservations
        ≡ sum_by (credits_bought u) booked.purchases
  booked-credits v h k u =
      ground (arith, balance-charged b debited b.taken.credits u db.wallets, v.credits u)

  booked-pass :
      (pass : Option ℕ)
      → b.pass_id ≡ pass
      → IsBalanced db
      → ((b.taken.pass ≡ 0)
          ⊎ ((id : ℕ) × (pass ≡ some id) × (exists (pass_key id) db.passes ≡ true)))
      → (id : ℕ) → pass_used id booked.passes ≡ sum_by (pass_kept id) booked.quota_reservations
  booked-pass none e v (inl z) id = ground (arith, v.pass id)
  booked-pass none e v (inr (j, k, x)) id = cc
  booked-pass (some j) e v (inl z) id = ground (arith, v.pass id)
  booked-pass (some j) e v (inr (i, k, x)) id =
      ground (arith, v.pass id, pass_used-charged j debited b.taken.pass id db.passes)

insert_reservation-absent :
    (b : Booking) (at : ℕ) (db db' : Db)
    → insert_reservation b at db ≡ done db'
    → exists (reservation_key b.reservation_id) db.quota_reservations ≡ false
unfolding insert_reservation
insert_reservation-absent b at db db' h =
    ground (arith, not_exists_of_all (reservation_key b.reservation_id) db.quota_reservations)

AtMostOne-reservation :
    (b : Booking) (at : ℕ) (rows : List QuotaReservation)
    → exists (reservation_key b.reservation_id) rows ≡ false
    → ((id : ℕ) → AtMostOne (reservation_key id) rows)
    → (id : ℕ) → AtMostOne (reservation_key id) (booking_row b at ∷ rows)
AtMostOne-reservation b at rows e one id =
    ((λ h. let same : b.reservation_id ≡ id = ground arith in rw (← same) e), one id)

pub AtMostOne-charged_passes :
    (pass : Option ℕ) (sign : Sign) (n id : ℕ) (rows : List Pass)
    → AtMostOne (pass_key id) rows
    → AtMostOne (pass_key id) (charged_passes pass sign n rows)
AtMostOne-charged_passes none sign n id rows one = one
AtMostOne-charged_passes (some j) sign n id rows one = elim (Bool-cases (ltb 0 n)) [
  | inl e ↦ rw e (AtMostOne-update (pass_key id) (pass_key j) _ rows (λ x. refl) one)
  | inr e ↦ rw e one
]

pub exists-charged_wallets :
    (b : Booking) (sign : Sign) (n u : ℕ) (rows : List Wallet)
    → exists (wallet_key u) (charged_wallets b sign n rows) ≡ exists (wallet_key u) rows
exists-charged_wallets b sign n u rows = elim (Bool-cases (ltb 0 n)) [
  | inl e ↦ rw e (exists-update (wallet_key b.user_id) (wallet_key u) _ rows (λ x. refl))
  | inr e ↦ rw e refl
]

booked-funded :
    (b : Booking) (at entry_id : ℕ) (db : Db)
    → IsBalanced db
    → exists (wallet_key b.user_id) db.wallets ≡ true
    → (u : ℕ) → exists (wallet_key u) (booked b at entry_id db).wallets ≡ false
    → sum_by (credits_kept u) (booked b at entry_id db).quota_reservations ≡ 0
booked-funded b at entry_id db v h u e = ground (
  arith,
  exists-charged_wallets b debited b.taken.credits u db.wallets,
  exists_wallet_key b.user_id u db.wallets,
  v.funded u,
)

-- What the caller has made sure of before it records the reservation.
pub record IsReady (b : Booking) (db : Db) : Type 0 where
  pub usage : exists (usage_key b.user_id b.period) db.quota_usage ≡ true
  pub wallet : exists (wallet_key b.user_id) db.wallets ≡ true
  pub pass :
      (b.taken.pass ≡ 0)
      ⊎ ((id : ℕ) × (b.pass_id ≡ some id) × (exists (pass_key id) db.passes ≡ true))

pub record_reservation-IsBalanced :
    (b : Booking) (at entry_id : ℕ) (db db' : Db)
    → record_reservation b at entry_id db ≡ done db'
    → IsReady b db
    → IsBalanced db
    → IsBalanced db'
unfolding record_reservation
record_reservation-IsBalanced b at entry_id db db' h ready v =
    let (db₁, e, k) =
      >>=-eq-done (insert_reservation b at db) (apply_to_sources b b.taken debited at entry_id) h in
    let inserted = insert_reservation-done b at db db₁ e in
    let k' = rw inserted at k in
    let pays = apply_to_sources-can_pay b b.taken at entry_id _ db' k' ready.wallet in
    rw (record_reservation-done b at entry_id db db' h) (record {
      free = booked-free b at entry_id db v ready.usage;
      pass = booked-pass b at entry_id db b.pass_id refl v ready.pass;
      credits = booked-credits b at entry_id db v ready.wallet pays;
      journal = booked-journal b at entry_id db v ready.wallet pays;
      funded = λ u e. booked-funded b at entry_id db v ready.wallet u e;
      within = apply_to_sources-Within b b.taken debited at entry_id _ db' k' v.within;
      one_reservation =
          AtMostOne-reservation b at db.quota_reservations (insert_reservation-absent b at db db₁ e)
            v.one_reservation;
      one_pass = λ id.
          AtMostOne-charged_passes b.pass_id debited b.taken.pass id db.passes (v.one_pass id);
    })
