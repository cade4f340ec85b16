-- ===== src/Billing/Conservation/ReserveQuota.antt =====
-- The whole use case keeps the books balanced.
use voxkivre_backend.Prelude.{
  ◌∙◌, ap, ℕ, ◌≤◌, ◌≡◌, refl, ◌⊎◌, inl, inr, ltb, Bool-cases, true, Option, none, some,
  if◌then◌else◌, exists, exists_of_find, done, Result, arith,
}
use voxkivre_backend.Billing.Allocation.Greedy.{allocate-IsDebit}
use voxkivre_backend.Billing.Period.{period_at}
use voxkivre_backend.Billing.Store.{Pass, Db, wallet_key, pass_key}
use voxkivre_backend.Billing.UnitsLedger.{ActivePass, UnitsReservation, prepared, current_pass}
use voxkivre_backend.Billing.UnitsLedger.Counters.{
  free_used-ensure_usage, balance-ensure_wallet, exists-ensure_usage, exists-ensure_wallet,
  exists-ensure_wallet_mono,
}
use voxkivre_backend.Billing.UnitsLedger.Lock.{Reports, current_pass-found}
use voxkivre_backend.Billing.ReserveQuota.{
  QuotaPolicy, ReserveQuotaInput, ReserveError, remaining_of, id_of, available_from, booking_for,
  reserve_quota,
}
use voxkivre_backend.Billing.ReserveQuota.Cases.{
  Written, written, refused, replayed, too_long, reserve_quota-Case,
}
use voxkivre_backend.Billing.Conservation.Books.{IsBalanced}
use voxkivre_backend.Billing.Conservation.Reserve.{IsReady, record_reservation-IsBalanced}

pub prepared-IsBalanced :
    (user period : ℕ) (db : Db) → IsBalanced db → IsBalanced (prepared user period db)
prepared-IsBalanced user period db v = record {
  free = λ u p. ground (arith, free_used-ensure_usage user period u p db.quota_usage, v.free u p);
  pass = v.pass;
  credits = λ u. ground (arith, balance-ensure_wallet user u db.wallets, v.credits u);
  journal = λ u. ground (arith, balance-ensure_wallet user u db.wallets, v.journal u);
  funded = λ u e. ground (
    arith,
    exists-ensure_wallet_mono user u db.wallets,
    v.funded u,
    Bool-cases (exists (wallet_key u) db.wallets),
  );
  within = v.within;
  one_reservation = v.one_reservation;
  one_pass = v.one_pass;
}

-- Units are taken from a pass only if one runs, and then it is a row of the table.
pass_listed :
    (a : Option ActivePass) (o : Option Pass) (user at : ℕ) (db : Db) (n : ℕ)
    → current_pass user at db.passes ≡ o
    → Reports a o
    → IsBalanced db
    → n ≤ remaining_of a
    → (n ≡ 0)
      ⊎ ((id : ℕ) × ((if ltb 0 n then id_of a else none) ≡ some id)
          × (exists (pass_key id) db.passes ≡ true))
pass_listed none o user at db n e r v h = inl (omega arith)
pass_listed (some a) none user at db n e r v h = absurd r
pass_listed (some a) (some p) user at db n e r v h = elim (Bool-cases (ltb 0 n)) [
  | inr z ↦ inl (ground arith)
  | inl pos ↦ inr (
    p.id,
    ground arith,
    exists_of_find (pass_key p.id) db.passes
        (current_pass-found user at db.passes p e (v.one_pass p.id)),
  )
]

module _ (policy : QuotaPolicy) (input : ReserveQuotaInput) (now entry_id : ℕ) (db : Db)
    (r : Result UnitsReservation ReserveError) (db' : Db) where
  pub Written-IsReady :
      (w : Written policy input now entry_id db r db')
      → IsBalanced db
      → IsReady
          (booking_for input (period_at now) w.attempt.balances.active_pass w.taken)
          (prepared input.user_id (period_at now) db)
  Written-IsReady w v =
      let debit =
        allocate-IsDebit w.attempt.cost input.tier (available_from policy w.attempt.balances)
          w.taken w.attempt.cost_safe (w.attempt.shared ∙ ap done w.shared) in
      record {
        usage = exists-ensure_usage input.user_id (period_at now) db.quota_usage;
        wallet = exists-ensure_wallet input.user_id db.wallets;
        pass =
            pass_listed w.attempt.balances.active_pass (current_pass input.user_id now db.passes)
              input.user_id now db w.taken.pass refl w.attempt.locked.pass v debit.pass_le;
      }

  -- A reservation that does not throw keeps the books balanced, whether it is refused, replayed
  -- or written.
  pub reserve_quota-IsBalanced :
      reserve_quota policy input now entry_id db ≡ done (r, db') → IsBalanced db → IsBalanced db'
  reserve_quota-IsBalanced h v = elim (reserve_quota-Case policy input now entry_id db r db' h) [
    | too_long t ↦ rw t.left at v
    | replayed t ↦ rw t.left at v
    | refused _ t ↦ rw t.left (prepared-IsBalanced input.user_id (period_at now) db v)
    | written _ w ↦
        record_reservation-IsBalanced _ now entry_id _ db' w.recorded (Written-IsReady w v)
          (prepared-IsBalanced input.user_id (period_at now) db v)
  ]
