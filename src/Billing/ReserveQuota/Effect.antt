-- ===== src/Billing/ReserveQuota/Effect.antt =====
-- A new reservation (billing/application/use-cases/reserve-quota.use-case.ts) and the counters.
use voxkivre_backend.Billing.Conservation.ReserveQuota.{Written-IsReady}
use voxkivre_backend.Prelude.{
  ℕ, ◌+◌, ◌-◌, ◌*◌, ◌≡◌, refl, ◌∙◌, ap, ◌⊎◌, inl, inr, ◌==◌, ◌&&◌, true, Option, none, some, List,
  exists, >>=-eq-done, Result, done, if◌then◌else◌, arith, subst, ok, false, sym,
}
use voxkivre_backend.Billing.Units.{voice_tier_weight}
use voxkivre_backend.Billing.Allocation.{UnitsBySource}
use voxkivre_backend.Billing.Allocation.Greedy.{usable, IsDebit, allocate-IsDebit}
use voxkivre_backend.Billing.Period.{period_at}
use voxkivre_backend.Billing.Store.{Pass, Wallet, Db, pass_key}
use voxkivre_backend.Billing.UnitsLedger.{
  insert_reservation, ActivePass, UnitsReservation, debited, current_pass, Booking,
  apply_to_sources, record_reservation, find_reservation, prepared,
}
use voxkivre_backend.Billing.UnitsLedger.Counters.{
  free_used, pass_used, balance, free_used-ensure_usage, balance-ensure_wallet,
}
use voxkivre_backend.Billing.UnitsLedger.Charges.{
  charged_passes, free_used-charged, pass_used-charged, balance-charged,
}
use voxkivre_backend.Billing.UnitsLedger.Lock.{Reports}
use voxkivre_backend.Billing.UnitsLedger.Checks.{apply_to_sources-can_pay}
use voxkivre_backend.Billing.Conservation.Books.{is_id, IsBalanced}
use voxkivre_backend.Billing.Conservation.Reserve.{
  IsReady, record_reservation-done, insert_reservation-done,
}
use voxkivre_backend.Billing.ReserveQuota.{
  QuotaPolicy, ReserveQuotaInput, ReserveError, remaining_of, available_from, booking_for,
  reserve_quota,
}
use voxkivre_backend.Billing.ReserveQuota.Cases.{
  Written, written, refused, replayed, too_long, reserve_quota-Case,
}

abbrev pub pass_rest : Option Pass → ℕ
pass_rest none = 0
pass_rest (some p) = p.included_units - p.used_units

Reports-rest :
    (a : Option ActivePass) (o : Option Pass) → Reports a o → remaining_of a ≡ pass_rest o
Reports-rest none none h = refl
Reports-rest none (some p) h = absurd h
Reports-rest (some a) none h = absurd h
Reports-rest (some a) (some p) h = h.1

-- What a user could spend: the rest of the free tier, of the pass that runs, and the credits.
abbrev pub spendable : QuotaPolicy → (user now : ℕ) → Db → UnitsBySource
spendable policy user now db = record {
  free = policy.free_tier_units_per_month - free_used user (period_at now) db.quota_usage;
  pass = pass_rest (current_pass user now db.passes);
  credits = balance user db.wallets;
}

module _ (policy : QuotaPolicy) (input : ReserveQuotaInput) (now entry_id : ℕ) (db : Db)
    (r : Result UnitsReservation ReserveError) (db' : Db) where
  pub Written-IsDebit :
      (w : Written policy input now entry_id db r db')
      → IsDebit
          (input.chars * voice_tier_weight input.tier)
          (usable input.tier (spendable policy input.user_id now db))
          w.taken
  Written-IsDebit w =
      let read : available_from policy w.attempt.balances ≡ spendable policy input.user_id now db =
        ground (
          arith,
          w.attempt.locked.free,
          w.attempt.locked.credits,
          Reports-rest w.attempt.balances.active_pass (current_pass input.user_id now db.passes)
              w.attempt.locked.pass,
        ) in
      subst
        (λ u. IsDebit (input.chars * voice_tier_weight input.tier) (usable input.tier u) w.taken)
        read
        (subst
          (λ n. IsDebit n (usable input.tier (available_from policy w.attempt.balances)) w.taken)
          w.attempt.cost_eq
          (allocate-IsDebit w.attempt.cost input.tier (available_from policy w.attempt.balances)
            w.taken w.attempt.cost_safe (w.attempt.shared ∙ ap done w.shared)))

-- How the counters of two states differ when a user has spent units.
pub record IsSpent (user period : ℕ) (pass : Option ℕ) (t : UnitsBySource) (db db' : Db)
    : Type 0 where
  pub free :
      (u p : ℕ)
      → free_used u p db'.quota_usage
        ≡ free_used u p db.quota_usage + (if user == u && period == p then t.free else 0)
  pub pass_units :
      (id : ℕ)
      → pass_used id db'.passes ≡ pass_used id db.passes + (if is_id pass id then t.pass else 0)
  pub credits :
      (u : ℕ) → balance u db'.wallets + (if user == u then t.credits else 0) ≡ balance u db.wallets

pass_used-spent :
    (b : Booking) (pass : Option ℕ) (n id : ℕ) (rows : List Pass)
    → (n ≡ 0) ⊎ ((j : ℕ) × (pass ≡ some j) × (exists (pass_key j) rows ≡ true))
    → pass_used id (charged_passes pass debited n rows)
      ≡ pass_used id rows + (if is_id pass id then n else 0)
pass_used-spent b none n id rows h = ground arith
pass_used-spent b (some j) n id rows (inl z) = ground arith
pass_used-spent b (some j) n id rows (inr (i, k, x)) =
    ground (arith, pass_used-charged j debited n id rows)

balance_user : (user u : ℕ) (rows : List Wallet) → user ≡ u → balance user rows ≡ balance u rows
balance_user user u rows e = ap (λ v. balance v rows) e

record_reservation-IsSpent :
    (b : Booking) (at entry_id : ℕ) (db db' : Db)
    → record_reservation b at entry_id db ≡ done db'
    → IsReady b db
    → IsSpent b.user_id b.period b.pass_id b.taken db db'
unfolding record_reservation
record_reservation-IsSpent b at entry_id db db' h ready =
    let (db₁, e, k) =
      >>=-eq-done (insert_reservation b at db) (apply_to_sources b b.taken debited at entry_id) h in
    let pays =
      apply_to_sources-can_pay b b.taken at entry_id _ db'
        (rw (insert_reservation-done b at db db₁ e) at k) ready.wallet in
    rw (record_reservation-done b at entry_id db db' h) (record {
      free = λ u p.
          ground (arith, free_used-charged b debited b.taken.free u p db.quota_usage, ready.usage);
      pass_units = λ id. pass_used-spent b b.pass_id b.taken.pass id db.passes ready.pass;
      credits = λ u. ground (
        arith,
        balance-charged b debited b.taken.credits u db.wallets,
        ready.wallet,
        pays,
        balance_user b.user_id u db.wallets,
      );
    })

prepared-IsSpent :
    (user period : ℕ) (pass : Option ℕ) (t : UnitsBySource) (db db' : Db)
    → IsSpent user period pass t (prepared user period db) db'
    → IsSpent user period pass t db db'
prepared-IsSpent user period pass t db db' h = record {
  free = λ u p. ground (arith, h.free u p, free_used-ensure_usage user period u p db.quota_usage);
  pass_units = h.pass_units;
  credits = λ u. ground (arith, h.credits u, balance-ensure_wallet user u db.wallets);
}

-- A reservation that is granted, in balanced books and under an identifier not yet used, takes
-- the cost of the text (its characters times the weight of the voice) out of what the user can
-- spend at that time with that voice: free units first, then the pass that runs, then the
-- credits, each source only when those before it are empty, and none beyond what it holds. The
-- counters of the user move by exactly these shares, and all other counters stay as they were.
pub reserve_quota-IsSpent :
    (policy : QuotaPolicy) (input : ReserveQuotaInput) (now entry_id : ℕ) (db : Db)
    (res : UnitsReservation) (db' : Db)
    → reserve_quota policy input now entry_id db ≡ done (ok res, db')
    → find_reservation input.reservation_id db ≡ done none
    → IsBalanced db
    → IsDebit
        (input.chars * voice_tier_weight input.tier)
        (usable input.tier (spendable policy input.user_id now db))
        res.taken
      × IsSpent input.user_id (period_at now) res.pass_id res.taken db db'
reserve_quota-IsSpent policy input now entry_id db res db' h new v =
    elim (reserve_quota-Case policy input now entry_id db (ok res) db' h) [
      | too_long t ↦ absurd (ground (arith, t.result))
      | replayed t ↦ absurd (ground (arith, t.found))
      | refused _ t ↦ absurd (ground (arith, t.result))
      | written _ w ↦
          let b = booking_for input (period_at now) w.attempt.balances.active_pass w.taken in
          let same : res ≡ record { booking = b; refunded = false } = ground (arith, w.result) in
          let debit = Written-IsDebit policy input now entry_id db (ok res) db' w in
          let spent = prepared-IsSpent input.user_id (period_at now) b.pass_id b.taken db db' (
            record_reservation-IsSpent b now entry_id _ db' w.recorded
              (Written-IsReady policy input now entry_id db (ok res) db' w v)) in
          subst
            (λ r.
              IsDebit (input.chars * voice_tier_weight input.tier)
                (usable input.tier (spendable policy input.user_id now db)) r.taken
              × IsSpent input.user_id (period_at now) r.pass_id r.taken db db')
            (sym same) (debit, spent)
    ]
