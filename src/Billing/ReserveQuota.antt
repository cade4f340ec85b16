-- ===== src/Billing/ReserveQuota.antt =====
-- billing/application/use-cases/reserve-quota.use-case.ts
pub mod Attempt
pub mod Cases
pub mod Effect
pub mod Replay
use voxkivre_backend.Prelude.{
  ℕ, ◌-◌, ltb, false, Option, none, some, Outcome, done, ◌>>=◌, Result, ok, err, if◌then◌else◌,
}
use voxkivre_backend.Billing.Units.{VoiceTier, units_of, units_for_chars}
use voxkivre_backend.Billing.Allocation.{UnitsBySource, Shortfall, allocate}
use voxkivre_backend.Billing.Period.{period_at}
use voxkivre_backend.Billing.Store.{Db}
use voxkivre_backend.Billing.UnitsLedger.{
  ActivePass, LockedBalances, Booking, UnitsReservation, find_reservation, lock_balances,
  record_reservation,
}

pub record QuotaPolicy : Type 0 where
  pub free_tier_units_per_month : ℕ
  pub max_chars_per_conversion : ℕ

pub record ReserveQuotaInput : Type 0 where
  pub reservation_id : ℕ
  pub user_id : ℕ
  pub chars : ℕ
  pub tier : VoiceTier

pub data ReserveError : Type 0 where
  conversion_limit_exceeded : (requested max_chars : ℕ) → ReserveError
  quota_exceeded : Shortfall → (period : ℕ) → ReserveError

abbrev pub remaining_of : Option ActivePass → ℕ
remaining_of none = 0
remaining_of (some p) = p.remaining

abbrev pub id_of : Option ActivePass → Option ℕ
id_of none = none
id_of (some p) = some p.id

abbrev pub available_from : QuotaPolicy → LockedBalances → UnitsBySource
available_from policy balances = record {
  free = policy.free_tier_units_per_month - balances.free_used;
  pass = remaining_of balances.active_pass;
  credits = balances.credits;
}

abbrev pub booking_for : ReserveQuotaInput → ℕ → Option ActivePass → UnitsBySource → Booking
booking_for input period active taken = record {
  reservation_id = input.reservation_id;
  user_id = input.user_id;
  period = period;
  tier = input.tier;
  chars = input.chars;
  pass_id = if ltb 0 taken.pass then id_of active else none;
  taken = taken;
}

-- Once the balances are locked: share the cost, and write the reservation.
unfoldable pub book :
    ReserveQuotaInput
    → (period now entry_id : ℕ) → Option ActivePass
    → Result UnitsBySource Shortfall
    → Db
    → Outcome (Result UnitsReservation ReserveError × Db)
book input period now entry_id active (err shortfall) db =
    done (err (quota_exceeded shortfall period), db)
book input period now entry_id active (ok taken) db = do
  let booking = booking_for input period active taken
  db' ← record_reservation booking now entry_id db
  done (ok (record { booking = booking; refunded = false }), db')

unfoldable pub reserve_new :
    QuotaPolicy
    → ReserveQuotaInput
    → (now entry_id : ℕ) → Db
    → Outcome (Result UnitsReservation ReserveError × Db)
reserve_new policy input now entry_id db = do
  let period = period_at now
  (balances, db') ← lock_balances input.user_id period now db
  free ← units_of (available_from policy balances).free
  requested ← units_for_chars input.chars input.tier
  allocation ← allocate requested input.tier (available_from policy balances)
  book input period now entry_id balances.active_pass allocation db'

-- The callback of `withTransaction`.
unfoldable pub reserve_in_transaction :
    QuotaPolicy
    → ReserveQuotaInput
    → (now entry_id : ℕ) → Db
    → Outcome (Result UnitsReservation ReserveError × Db)
reserve_in_transaction policy input now entry_id db = do
  existing ← find_reservation input.reservation_id db
  elim existing [
    | none ↦ reserve_new policy input now entry_id db
    | some reservation ↦ done (ok reservation, db)
  ]

unfoldable pub reserve_quota :
    QuotaPolicy
    → ReserveQuotaInput
    → (now entry_id : ℕ) → Db
    → Outcome (Result UnitsReservation ReserveError × Db)
reserve_quota policy input now entry_id db =
    if ltb policy.max_chars_per_conversion input.chars
    then done (err (conversion_limit_exceeded input.chars policy.max_chars_per_conversion), db)
    else reserve_in_transaction policy input now entry_id db
