-- ===== src/Billing/ReserveQuota/Attempt.antt =====
-- A reservation that is not a replay, taken apart: what was read, what it costs, how the cost was
-- shared, and what was written.
use voxkivre_backend.Prelude.{ℕ, ◌*◌, ◌≤◌, ◌≡◌, done, Result, >>=-eq-done, arith}
use voxkivre_backend.Billing.Units.{
  max_safe_integer, voice_tier_weight, units_of, units_for_chars, units_of-done,
}
use voxkivre_backend.Billing.Allocation.{UnitsBySource, Shortfall, allocate}
use voxkivre_backend.Billing.Period.{period_at}
use voxkivre_backend.Billing.Store.{Db}
use voxkivre_backend.Billing.UnitsLedger.{LockedBalances, UnitsReservation, lock_balances}
use voxkivre_backend.Billing.UnitsLedger.Lock.{Locked, lock_balances-Locked}
use voxkivre_backend.Billing.ReserveQuota.{
  QuotaPolicy, ReserveQuotaInput, ReserveError, available_from, book, reserve_new,
}

pub record Attempt (policy : QuotaPolicy) (input : ReserveQuotaInput) (now entry_id : ℕ) (db : Db)
    (r : Result UnitsReservation ReserveError) (db' : Db) : Type 0 where
  pub balances : LockedBalances
  pub locked_db : Db
  pub cost : ℕ
  pub allocation : Result UnitsBySource Shortfall
  pub locked : Locked input.user_id (period_at now) now db balances locked_db
  pub cost_eq : cost ≡ input.chars * voice_tier_weight input.tier
  pub cost_safe : cost ≤ max_safe_integer
  pub shared : allocate cost input.tier (available_from policy balances) ≡ done allocation
  pub written :
      book input (period_at now) now entry_id balances.active_pass allocation locked_db
      ≡ done (r, db')

units_for_chars-done :
    (policy : QuotaPolicy) (input : ReserveQuotaInput) (n : ℕ)
    → units_for_chars input.chars input.tier ≡ done n
    → (n ≡ input.chars * voice_tier_weight input.tier) × (n ≤ max_safe_integer)
unfolding units_for_chars
units_for_chars-done policy input n e =
    let (same, safe) = units_of-done (input.chars * voice_tier_weight input.tier) n e in
    (same, omega arith)

pub reserve_new-Attempt :
    (policy : QuotaPolicy) (input : ReserveQuotaInput) (now entry_id : ℕ) (db : Db)
    (r : Result UnitsReservation ReserveError) (db' : Db)
    → reserve_new policy input now entry_id db ≡ done (r, db')
    → Attempt policy input now entry_id db r db'
unfolding reserve_new
reserve_new-Attempt policy input now entry_id db r db' h =
    let ((bal, db₁), e₁, h₁) =
      >>=-eq-done (lock_balances input.user_id (period_at now) now db) _ h in
    let (f, e₂, h₂) = >>=-eq-done (units_of (available_from policy bal).free) _ h₁ in
    let (n, e₃, h₃) = >>=-eq-done (units_for_chars input.chars input.tier) _ h₂ in
    let (allocation, e₄, h₄) =
      >>=-eq-done (allocate n input.tier (available_from policy bal)) _ h₃ in
    let (same, safe) = units_for_chars-done policy input n e₃ in
    record {
      balances = bal;
      locked_db = db₁;
      cost = n;
      allocation = allocation;
      locked = lock_balances-Locked input.user_id (period_at now) now db bal db₁ e₁;
      cost_eq = same;
      cost_safe = safe;
      shared = e₄;
      written = h₄;
    }
