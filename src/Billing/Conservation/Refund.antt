-- ===== src/Billing/Conservation/Refund.antt =====
-- `refundQuota` keeps the books balanced: each source gets back what the reservation held of it.
use voxkivre_backend.Prelude.{
  inl, inr, min, Bool, ℕ, ◌+◌, ◌≤◌, ◌≡◌, refl, ◌⊎◌, ◌==◌, Bool-cases, true, false, List, Option,
  none, some, find, exists, AtMostOne-update, AtMostOne-narrow, find-narrow, sum_by, sum_by-update,
  sum_by-ge, done, if◌then◌else◌, arith,
}
use voxkivre_backend.Billing.Allocation.{UnitsBySource}
use voxkivre_backend.Billing.Store.{QuotaReservation, Db, wallet_key, reservation_key}
use voxkivre_backend.Billing.UnitsLedger.{given_back, Booking, unrefunded_key, apply_to_sources}
use voxkivre_backend.Billing.UnitsLedger.Counters.{free_used, pass_used, balance}
use voxkivre_backend.Billing.UnitsLedger.Charges.{
  charged, charged_passes, apply_to_sources-done, free_used-charged, pass_used-charged,
  balance-charged,
}
use voxkivre_backend.Billing.UnitsLedger.Checks.{apply_to_sources-Within}
use voxkivre_backend.Billing.RefundQuota.Cases.{
  units_returned, marked_row, rows_marked, unrefunded_key-id, refund_quota-cases,
}
use voxkivre_backend.Billing.RefundQuota.{refund_quota}
use voxkivre_backend.Billing.UnitsLedger.Lookup.{booking_of}
use voxkivre_backend.Billing.Conservation.Books.{
  IsBalanced, free_kept, pass_kept, credits_kept, credits_bought, inflow, outflow,
}
use voxkivre_backend.Billing.Conservation.Reserve.{exists-charged_wallets, AtMostOne-charged_passes}

-- The row is the reservation that is refunded, and no refund has been written on it.
module _ (row : QuotaReservation) (chars at : ℕ) (db : Db) (v : IsBalanced db)
    (found : find (reservation_key row.reservation_id) db.quota_reservations ≡ some row)
    (fresh : row.refunded_at ≡ none) where
  abbrev marked_rows : List QuotaReservation
  marked_rows = rows_marked row chars at db.quota_reservations

  sum-marked :
      (g : QuotaReservation → ℕ)
      → sum_by g marked_rows + g row ≡ sum_by g db.quota_reservations + g (marked_row chars at row)
  sum-marked g =
      sum_by-update g (unrefunded_key row.reservation_id) (marked_row chars at)
        db.quota_reservations row
        (AtMostOne-narrow (unrefunded_key row.reservation_id) (reservation_key row.reservation_id)
          db.quota_reservations (unrefunded_key-id row.reservation_id)
          (v.one_reservation row.reservation_id))
        (find-narrow (unrefunded_key row.reservation_id) (reservation_key row.reservation_id)
          db.quota_reservations row (unrefunded_key-id row.reservation_id) found (ground arith))

  sum-holds : (g : QuotaReservation → ℕ) → g row ≤ sum_by g db.quota_reservations
  sum-holds g = sum_by-ge g (reservation_key row.reservation_id) db.quota_reservations row found

  abbrev returned : UnitsBySource
  returned = units_returned row chars

  module _ (b : Booking) (entry_id : ℕ) (user : b.user_id ≡ row.user_id)
      (period : b.period ≡ row.period) (pass_id : b.pass_id ≡ row.pass_id) where
    abbrev refunded : Db
    refunded =
        charged b returned given_back at entry_id (record db { quota_reservations = marked_rows })

    refunded-free :
        (u p : ℕ)
        → free_used u p refunded.quota_usage ≡ sum_by (free_kept u p) refunded.quota_reservations
    refunded-free u p = ground (
      arith,
      free_used-charged b given_back returned.free u p db.quota_usage,
      v.free u p,
      sum-marked (free_kept u p),
      sum-holds (free_kept u p),
    )

    refunded-pass :
        (pass : Option ℕ)
        → row.pass_id ≡ pass
        → (id : ℕ)
        → pass_used id (charged_passes pass given_back returned.pass db.passes)
          ≡ sum_by (pass_kept id) refunded.quota_reservations
    refunded-pass none e id =
        ground (arith, v.pass id, sum-marked (pass_kept id), sum-holds (pass_kept id))
    refunded-pass (some j) e id = ground (
      arith,
      pass_used-charged j given_back returned.pass id db.passes,
      v.pass id,
      sum-marked (pass_kept id),
      sum-holds (pass_kept id),
    )

    -- Credits are given back to a wallet that is there.
    wallet_there : (returned.credits ≡ 0) ⊎ (exists (wallet_key b.user_id) db.wallets ≡ true)
    wallet_there = ground (
      arith,
      v.funded b.user_id,
      sum-holds (credits_kept b.user_id),
      Bool-cases (exists (wallet_key b.user_id) db.wallets),
    )

    balance_after :
        (u : ℕ)
        → balance u refunded.wallets ≡ (
            if b.user_id == u
            then balance u db.wallets + returned.credits
            else balance u db.wallets)
    balance_after u =
        ground (arith, wallet_there, balance-charged b given_back returned.credits u db.wallets)

    refunded-credits :
        (u : ℕ)
        → balance u refunded.wallets + sum_by (credits_kept u) refunded.quota_reservations
          ≡ sum_by (credits_bought u) refunded.purchases
    refunded-credits u = ground (
      arith,
      balance_after u,
      v.credits u,
      sum-marked (credits_kept u),
      sum-holds (credits_kept u),
    )

    refunded-journal :
        (u : ℕ)
        → balance u refunded.wallets + sum_by (outflow u) refunded.credit_entries
          ≡ sum_by (inflow u) refunded.credit_entries
    refunded-journal u = ground (arith, balance_after u, v.journal u)

    refunded-funded :
        (u : ℕ)
        → exists (wallet_key u) refunded.wallets ≡ false
        → sum_by (credits_kept u) refunded.quota_reservations ≡ 0
    refunded-funded u e = ground (
      arith,
      exists-charged_wallets b given_back returned.credits u db.wallets,
      v.funded u,
      sum-marked (credits_kept u),
      sum-holds (credits_kept u),
    )

    -- The books are balanced again once the sources have their share back.
    pub refunded-IsBalanced :
        (db' : Db)
        → apply_to_sources b returned given_back at entry_id
            (record db { quota_reservations = marked_rows })
          ≡ done db'
        → IsBalanced db'
    refunded-IsBalanced db' h =
        rw (apply_to_sources-done b returned given_back at entry_id _ db' h) (record {
          free = refunded-free;
          pass = rw pass_id (refunded-pass row.pass_id refl);
          credits = refunded-credits;
          journal = refunded-journal;
          funded = refunded-funded;
          within = apply_to_sources-Within b returned given_back at entry_id _ db' h v.within;
          one_reservation = λ id.
              AtMostOne-update (reservation_key id) (unrefunded_key row.reservation_id)
                (marked_row chars at) db.quota_reservations (λ x. refl) (v.one_reservation id);
          one_pass = λ id.
              AtMostOne-charged_passes b.pass_id given_back returned.pass id db.passes
                (v.one_pass id);
        })

-- A refund that does not throw keeps the books balanced, whatever it returns.
pub refund_quota-IsBalanced :
    (id chars now entry_id : ℕ) (db : Db) (given : Bool) (db' : Db)
    → refund_quota id chars now entry_id db ≡ done (given, db')
    → IsBalanced db
    → IsBalanced db'
refund_quota-IsBalanced id chars now entry_id db given db' h v =
    elim (refund_quota-cases id chars now entry_id db given db' h) [
      | inr n ↦ rw n.left at v
      | inl g ↦
          refunded-IsBalanced g.row (min chars g.row.chars) now db v g.found g.fresh
            (booking_of g.row) entry_id refl refl refl db' g.written
    ]
