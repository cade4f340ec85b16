-- ===== src/Billing/Conservation/Books.antt =====
-- The invariant: each counter is the sum of what the rows of the other tables say.
use voxkivre_backend.Prelude.{
  ℕ, ◌+◌, ◌*◌, ◌≤◌, ◌≡◌, ◌==◌, Bool, false, ◌&&◌, Option, none, some, exists, All, AtMostOne,
  sum_by, pos_part, neg_part, if◌then◌else◌,
}
use voxkivre_backend.Billing.Units.{voice_tier_weight}
use voxkivre_backend.Billing.Allocation.{UnitsBySource}
use voxkivre_backend.Billing.Allocation.Greedy.{minus, give_back}
use voxkivre_backend.Billing.Store.{
  QuotaReservation, Purchase, PurchaseKind, pass_purchase, credits_purchase, CreditEntry, Db,
  wallet_key, reservation_key, pass_key,
}
use voxkivre_backend.Billing.UnitsLedger.Counters.{free_used, pass_used, balance}
use voxkivre_backend.Billing.GrantOffer.{is_user}

abbrev pub taken_by : QuotaReservation → UnitsBySource
taken_by r = record { free = r.free_units; pass = r.pass_units; credits = r.credit_units }

abbrev pub chars_or_zero : Option ℕ → ℕ
chars_or_zero none = 0
chars_or_zero (some n) = n

-- What a reservation still holds of each source.
abbrev kept_at : (refunded_at : Option ℕ) → UnitsBySource → (refunded_units : ℕ) → UnitsBySource
kept_at none taken units = taken
kept_at (some at) taken units = minus taken (give_back taken units)

abbrev pub kept : QuotaReservation → UnitsBySource
kept r =
    kept_at r.refunded_at (taken_by r) (chars_or_zero r.refunded_chars * voice_tier_weight r.tier)

abbrev pub free_kept : (user period : ℕ) → QuotaReservation → ℕ
free_kept user period r = if r.user_id == user && r.period == period then (kept r).free else 0

abbrev pub is_id : Option ℕ → ℕ → Bool
is_id none id = false
is_id (some j) id = j == id

abbrev pub pass_kept : ℕ → QuotaReservation → ℕ
pass_kept id r = if is_id r.pass_id id then (kept r).pass else 0

abbrev pub credits_kept : ℕ → QuotaReservation → ℕ
credits_kept user r = if r.user_id == user then (kept r).credits else 0

abbrev credits_of : PurchaseKind → ℕ → ℕ
credits_of pass_purchase units = 0
credits_of credits_purchase units = units

abbrev pub credits_bought : ℕ → Purchase → ℕ
credits_bought user p = if is_user p.user_id user then credits_of p.kind p.units else 0

abbrev pub inflow : ℕ → CreditEntry → ℕ
inflow user e = if e.user_id == user then pos_part e.units else 0

abbrev pub outflow : ℕ → CreditEntry → ℕ
outflow user e = if e.user_id == user then neg_part e.units else 0

pub record IsBalanced (db : Db) : Type 0 where
  -- The free units used in a period are those that its reservations hold.
  pub free : (u p : ℕ) → free_used u p db.quota_usage ≡ sum_by (free_kept u p) db.quota_reservations
  pub pass : (id : ℕ) → pass_used id db.passes ≡ sum_by (pass_kept id) db.quota_reservations
  -- The credits bought are in the wallet, or held by reservations.
  pub credits :
      (u : ℕ)
      → balance u db.wallets + sum_by (credits_kept u) db.quota_reservations
        ≡ sum_by (credits_bought u) db.purchases
  -- The balance is the sum of the journal.
  pub journal :
      (u : ℕ)
      → balance u db.wallets + sum_by (outflow u) db.credit_entries
        ≡ sum_by (inflow u) db.credit_entries
  pub funded :
      (u : ℕ)
      → exists (wallet_key u) db.wallets ≡ false
      → sum_by (credits_kept u) db.quota_reservations ≡ 0
  pub within : All (λ p. p.used_units ≤ p.included_units) db.passes
  pub one_reservation : (id : ℕ) → AtMostOne (reservation_key id) db.quota_reservations
  pub one_pass : (id : ℕ) → AtMostOne (pass_key id) db.passes
