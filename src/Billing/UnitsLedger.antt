-- ===== src/Billing/UnitsLedger.antt =====
-- billing/infrastructure/persistence/units-ledger.drizzle-repository.ts. A statement that breaks
-- a constraint of the schema throws; log lines are left out. Locks need no state: a transaction
-- is one step.
pub mod Counters
pub mod Charges
pub mod Lock
pub mod Lookup
pub mod Checks
use voxkivre_backend.Prelude.{
  ℕ, ◌+◌, ◌-◌, ltb, leb, ◌==◌, Bool, true, false, ◌&&◌, List, ◌∷◌, Option, none, some, find, select,
  update, exists, all, least_by, Outcome, done, ◌>>=◌, require, check_violation, unique_violation,
  pos, neg, ℤ, if◌then◌else◌, thrown,
}
use voxkivre_backend.Billing.Units.{VoiceTier, units_of}
use voxkivre_backend.Billing.Allocation.{UnitsBySource}
use voxkivre_backend.Billing.Store.{
  entry_key, QuotaUsage, QuotaReservation, Pass, Wallet, consumption, refund, CreditEntryKind, Db,
  usage_key, wallet_key, reservation_key, pass_key,
}

pub record ActivePass : Type 0 where
  pub id : ℕ
  pub remaining : ℕ

pub record LockedBalances : Type 0 where
  pub free_used : ℕ
  pub active_pass : Option ActivePass
  pub credits : ℕ

-- `Omit<UnitsReservation, 'refunded'>`
pub record Booking : Type 0 where
  pub reservation_id : ℕ
  pub user_id : ℕ
  pub period : ℕ
  pub tier : VoiceTier
  pub chars : ℕ
  pub pass_id : Option ℕ
  pub taken : UnitsBySource

pub record UnitsReservation : Type 0 where
  pub booking : Booking
  pub open booking use *
  pub refunded : Bool

abbrev pub is_set : Option ℕ → Bool
is_set none = false
is_set (some x) = true

-- The source's `sign`: -1 or 1.
pub data Sign : Type 0 where
  debited given_back : Sign

abbrev pub to_reservation : QuotaReservation → Outcome UnitsReservation
to_reservation row = do
  f ← units_of row.free_units
  p ← units_of row.pass_units
  c ← units_of row.credit_units
  done (record {
    booking = record {
      reservation_id = row.reservation_id;
      user_id = row.user_id;
      period = row.period;
      tier = row.tier;
      chars = row.chars;
      pass_id = row.pass_id;
      taken = record { free = f; pass = p; credits = c };
    };
    refunded = is_set row.refunded_at;
  })

abbrev pub to_found : Option QuotaReservation → Outcome (Option UnitsReservation)
to_found none = done none
to_found (some row) = do reservation ← to_reservation row; done (some reservation)

unfoldable pub find_reservation : ℕ → Db → Outcome (Option UnitsReservation)
find_reservation id db = to_found (find (reservation_key id) db.quota_reservations)

abbrev pub used_or_zero : Option QuotaUsage → ℕ
used_or_zero none = 0
used_or_zero (some row) = row.reserved_chars

abbrev pub balance_or_zero : Option Wallet → ℕ
balance_or_zero none = 0
balance_or_zero (some row) = row.balance_units

-- INSERT … ON CONFLICT DO NOTHING of an empty row.
abbrev pub ensure_usage : ℕ → ℕ → List QuotaUsage → List QuotaUsage
ensure_usage user period rows =
    if exists (usage_key user period) rows
    then rows
    else record { user_id = user; period = period; reserved_chars = 0 } ∷ rows

abbrev pub ensure_wallet : ℕ → List Wallet → List Wallet
ensure_wallet user rows =
    if exists (wallet_key user) rows
    then rows
    else record { user_id = user; balance_units = 0 } ∷ rows

-- The pass of the user that runs at that time, the earliest if several do.
abbrev pub current_pass : ℕ → ℕ → List Pass → Option Pass
current_pass user at rows =
    least_by (λ p. p.starts_at)
      (select (λ p. p.user_id == user && (leb p.starts_at at && ltb at p.ends_at)) rows)

abbrev pub to_active : Option Pass → Outcome (Option ActivePass)
to_active none = done none
to_active (some p) = do
  remaining ← units_of (p.included_units - p.used_units)
  done (some (record { id = p.id; remaining = remaining }))

abbrev pub prepared : ℕ → ℕ → Db → Db
prepared user period db = record db {
  quota_usage = ensure_usage user period db.quota_usage;
  wallets = ensure_wallet user db.wallets;
}

unfoldable pub lock_balances : (user period at : ℕ) → Db → Outcome (LockedBalances × Db)
lock_balances user period at db = do
  let db' = prepared user period db
  free_used ← units_of (used_or_zero (find (usage_key user period) db'.quota_usage))
  active_pass ← to_active (current_pass user at db'.passes)
  credits ← units_of (balance_or_zero (find (wallet_key user) db'.wallets))
  done (record { free_used = free_used; active_pass = active_pass; credits = credits }, db')

-- greatest(counter - sign * units, 0)
abbrev pub shift : Sign → ℕ → ℕ → ℕ
shift debited units counter = counter + units
shift given_back units counter = counter - units

unfoldable pub apply_to_free : Booking → Sign → ℕ → Db → Db
apply_to_free b sign units db =
    if ltb 0 units
    then record db {
      quota_usage =
          update (usage_key b.user_id b.period)
            (λ row. record row { reserved_chars = shift sign units row.reserved_chars })
            db.quota_usage;
    }
    else db

-- The check `used_units <= included_units` holds of the rows that the statement writes.
unfoldable pub charge_pass : Sign → ℕ → ℕ → Db → Outcome Db
charge_pass sign units pass_id db =
    let rows =
      update (pass_key pass_id) (λ row. record row { used_units = shift sign units row.used_units })
        db.passes in
    require
      (all (λ row. if pass_key pass_id row then leb row.used_units row.included_units else true)
        rows)
      check_violation (record db { passes = rows })

unfoldable pub apply_to_pass : Booking → Sign → ℕ → Db → Outcome Db
apply_to_pass b sign units db = elim b.pass_id [
  | none ↦ done db
  | some pass_id ↦ if ltb 0 units then charge_pass sign units pass_id db else done db
]

-- balance + sign * units, and whether the check `balance_units >= 0` admits it.
abbrev pub paid : Sign → ℕ → ℕ → ℕ
paid debited units balance = balance - units
paid given_back units balance = balance + units

abbrev pub can_pay : Sign → ℕ → ℕ → Bool
can_pay debited units balance = leb units balance
can_pay given_back units balance = true

abbrev pub entry_kind : Sign → CreditEntryKind
entry_kind debited = consumption
entry_kind given_back = refund

abbrev pub signed : Sign → ℕ → ℤ
signed debited units = neg units
signed given_back units = pos units

-- The update of the wallet, then the row of the journal.
unfoldable pub charge_wallet : Booking → Sign → ℕ → (at entry_id : ℕ) → Db → Outcome Db
charge_wallet b sign units at entry_id db =
    if all (λ row. if wallet_key b.user_id row then can_pay sign units row.balance_units else true)
      db.wallets
    then if exists (entry_key entry_id) db.credit_entries
      then thrown unique_violation
      else done (record db {
        wallets =
            update (wallet_key b.user_id)
              (λ row. record row { balance_units = paid sign units row.balance_units }) db.wallets;
        credit_entries =
            record {
              id = entry_id;
              user_id = b.user_id;
              kind = entry_kind sign;
              units = signed sign units;
              offer_code = none;
              reservation_id = some b.reservation_id;
              created_at = at;
            }
            ∷ db.credit_entries;
      })
    else thrown check_violation

unfoldable pub apply_to_wallet : Booking → Sign → ℕ → (at entry_id : ℕ) → Db → Outcome Db
apply_to_wallet b sign units at entry_id db =
    if ltb 0 units then charge_wallet b sign units at entry_id db else done db

unfoldable pub apply_to_sources :
    Booking → UnitsBySource → Sign → (at entry_id : ℕ) → Db → Outcome Db
apply_to_sources b units sign at entry_id db = do
  db₁ ← apply_to_pass b sign units.pass (apply_to_free b sign units.free db)
  apply_to_wallet b sign units.credits at entry_id db₁

abbrev pub booking_row : Booking → ℕ → QuotaReservation
booking_row b at = record {
  reservation_id = b.reservation_id;
  user_id = b.user_id;
  period = b.period;
  chars = b.chars;
  tier = b.tier;
  pass_id = b.pass_id;
  free_units = b.taken.free;
  pass_units = b.taken.pass;
  credit_units = b.taken.credits;
  refunded_chars = none;
  created_at = at;
  refunded_at = none;
}

unfoldable pub insert_reservation : Booking → ℕ → Db → Outcome Db
insert_reservation b at db = do
  row ← require (ltb 0 b.chars) check_violation (booking_row b at)
  require
      (all (λ r. if reservation_key b.reservation_id r then false else true) db.quota_reservations)
      unique_violation (record db { quota_reservations = row ∷ db.quota_reservations })

unfoldable pub record_reservation : Booking → (at entry_id : ℕ) → Db → Outcome Db
record_reservation b at entry_id db = do
  db₁ ← insert_reservation b at db
  apply_to_sources b b.taken debited at entry_id db₁

abbrev pub unrefunded_key : ℕ → QuotaReservation → Bool
unrefunded_key id row = if is_set row.refunded_at then false else reservation_key id row

-- UPDATE quota_reservations …, under the check `refunded_chars <= chars` on the rows written.
unfoldable pub mark_refunded : (id refunded_chars at : ℕ) → Db → Outcome Db
mark_refunded id refunded_chars at db =
    require
      (all (λ row. if unrefunded_key id row then leb refunded_chars row.chars else true)
        db.quota_reservations)
      check_violation
      (record db {
        quota_reservations =
            update (unrefunded_key id)
              (λ row. record row { refunded_chars = some refunded_chars; refunded_at = some at })
              db.quota_reservations;
      })

unfoldable pub give_sources_back :
    UnitsReservation → UnitsBySource → (refunded_chars at entry_id : ℕ) → Db → Outcome Db
give_sources_back r units refunded_chars at entry_id db = do
  db₁ ← mark_refunded r.reservation_id refunded_chars at db
  apply_to_sources r.booking units given_back at entry_id db₁

unfoldable pub record_refund :
    UnitsReservation → UnitsBySource → (refunded_chars at entry_id : ℕ) → Db → Outcome (Bool × Db)
record_refund r units refunded_chars at entry_id db =
    if exists (unrefunded_key r.reservation_id) db.quota_reservations
    then (do db' ← give_sources_back r units refunded_chars at entry_id db; done (true, db'))
    else done (false, db)
