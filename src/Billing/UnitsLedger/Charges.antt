-- ===== src/Billing/UnitsLedger/Charges.antt =====
-- `applyToSources` as a whole: the tables that it leaves, and the counters read from them.
use voxkivre_backend.Prelude.{
  ℕ, ◌≡◌, refl, ◌⊎◌, ltb, ◌==◌, true, false, ◌&&◌, List, [], ◌∷◌, Option, none, some, update,
  exists, done, >>=-eq-done, if◌then◌else◌, arith,
}
use voxkivre_backend.Billing.Allocation.{UnitsBySource}
use voxkivre_backend.Billing.Store.{
  QuotaUsage, Pass, Wallet, CreditEntry, Db, usage_key, wallet_key, pass_key,
}
use voxkivre_backend.Billing.UnitsLedger.{
  Sign, given_back, shift, paid, entry_kind, signed, Booking, apply_to_free, charge_pass,
  apply_to_pass, charge_wallet, apply_to_wallet, apply_to_sources,
}
use voxkivre_backend.Billing.UnitsLedger.Counters.{
  free_used, pass_used, balance, free_used-charge, pass_used-charge, balance-charge,
  balance_of_absent,
}

abbrev pub charged_usage : Booking → Sign → ℕ → List QuotaUsage → List QuotaUsage
charged_usage b sign units rows =
    if ltb 0 units
    then update (usage_key b.user_id b.period)
        (λ row. record row { reserved_chars = shift sign units row.reserved_chars }) rows
    else rows

abbrev pub charged_passes : Option ℕ → Sign → ℕ → List Pass → List Pass
charged_passes none sign units rows = rows
charged_passes (some id) sign units rows =
    if ltb 0 units
    then update (pass_key id) (λ row. record row { used_units = shift sign units row.used_units })
        rows
    else rows

abbrev pub charged_wallets : Booking → Sign → ℕ → List Wallet → List Wallet
charged_wallets b sign units rows =
    if ltb 0 units
    then update (wallet_key b.user_id)
        (λ row. record row { balance_units = paid sign units row.balance_units }) rows
    else rows

abbrev pub charged_entries :
    Booking → Sign → ℕ → (at entry_id : ℕ) → List CreditEntry → List CreditEntry
charged_entries b sign units at entry_id rows =
    if ltb 0 units
    then record {
      id = entry_id;
      user_id = b.user_id;
      kind = entry_kind sign;
      units = signed sign units;
      offer_code = none;
      reservation_id = some b.reservation_id;
      created_at = at;
    }
      ∷ rows
    else rows

abbrev pub charged : Booking → UnitsBySource → Sign → (at entry_id : ℕ) → Db → Db
charged b units sign at entry_id db = record db {
  quota_usage = charged_usage b sign units.free db.quota_usage;
  passes = charged_passes b.pass_id sign units.pass db.passes;
  wallets = charged_wallets b sign units.credits db.wallets;
  credit_entries = charged_entries b sign units.credits at entry_id db.credit_entries;
}

pub apply_to_pass-done :
    (b : Booking) (pass : Option ℕ) (sign : Sign) (n : ℕ) (db db' : Db)
    → b.pass_id ≡ pass
    → apply_to_pass b sign n db ≡ done db'
    → db' ≡ record db { passes = charged_passes pass sign n db.passes }
unfolding apply_to_pass charge_pass
apply_to_pass-done b none sign n db db' e h = ground arith
apply_to_pass-done b (some id) sign n db db' e h = ground arith

apply_to_wallet-done :
    (b : Booking) (sign : Sign) (n at entry_id : ℕ) (db db' : Db)
    → apply_to_wallet b sign n at entry_id db ≡ done db'
    → db' ≡ record db {
      wallets = charged_wallets b sign n db.wallets;
      credit_entries = charged_entries b sign n at entry_id db.credit_entries;
    }
unfolding apply_to_wallet charge_wallet
apply_to_wallet-done b sign n at entry_id db db' h = ground arith

-- A call that does not throw has written exactly this.
pub apply_to_sources-done :
    (b : Booking) (units : UnitsBySource) (sign : Sign) (at entry_id : ℕ) (db db' : Db)
    → apply_to_sources b units sign at entry_id db ≡ done db'
    → db' ≡ charged b units sign at entry_id db
unfolding apply_to_sources apply_to_free
apply_to_sources-done b units sign at entry_id db db' h =
    let (db₁, e, k) =
      >>=-eq-done (apply_to_pass b sign units.pass (apply_to_free b sign units.free db))
        (apply_to_wallet b sign units.credits at entry_id) h in
    ground (
      arith,
      apply_to_pass-done b b.pass_id sign units.pass (apply_to_free b sign units.free db) db₁ refl
          e,
      apply_to_wallet-done b sign units.credits at entry_id db₁ db' k,
    )

exists_usage_key :
    (user period u p : ℕ) (rows : List QuotaUsage)
    → user ≡ u
    → period ≡ p
    → exists (usage_key user period) rows ≡ exists (usage_key u p) rows
exists_usage_key user period u p rows e k = rw (e, k)

pub exists_wallet_key :
    (user u : ℕ) (rows : List Wallet)
    → user ≡ u
    → exists (wallet_key user) rows ≡ exists (wallet_key u) rows
exists_wallet_key user u rows e = rw e

exists_pass_key :
    (id j : ℕ) (rows : List Pass) → id ≡ j → exists (pass_key id) rows ≡ exists (pass_key j) rows
exists_pass_key id j rows e = rw e

pub free_used_absent :
    (u p : ℕ) (rows : List QuotaUsage)
    → exists (usage_key u p) rows ≡ false
    → free_used u p rows ≡ 0
free_used_absent u p [] e = refl
free_used_absent u p (r ∷ rs) e = ground (arith, free_used_absent u p rs)

pub pass_used_absent :
    (id : ℕ) (rows : List Pass) → exists (pass_key id) rows ≡ false → pass_used id rows ≡ 0
pass_used_absent id [] e = refl
pass_used_absent id (r ∷ rs) e = ground (arith, pass_used_absent id rs)

-- What a counter becomes, where the counter has a row, or units are given back.
pub free_used-charged :
    (b : Booking) (sign : Sign) (n u p : ℕ) (rows : List QuotaUsage)
    → (sign ≡ given_back) ⊎ (exists (usage_key b.user_id b.period) rows ≡ true)
    → free_used u p (charged_usage b sign n rows) ≡ (
        if b.user_id == u && b.period == p
        then shift sign n (free_used u p rows)
        else free_used u p rows)
free_used-charged b sign n u p rows h = ground (
  arith,
  free_used-charge sign n b.user_id b.period u p rows,
  free_used_absent u p rows,
  exists_usage_key b.user_id b.period u p rows,
)

pub pass_used-charged :
    (id : ℕ) (sign : Sign) (n j : ℕ) (rows : List Pass)
    → (sign ≡ given_back) ⊎ (exists (pass_key id) rows ≡ true)
    → pass_used j (charged_passes (some id) sign n rows)
      ≡ (if id == j then shift sign n (pass_used j rows) else pass_used j rows)
pass_used-charged id sign n j rows h =
    ground
      (arith, pass_used-charge sign n id j rows, pass_used_absent j rows, exists_pass_key id j rows)

pub balance-charged :
    (b : Booking) (sign : Sign) (n u : ℕ) (rows : List Wallet)
    → exists (wallet_key b.user_id) rows ≡ true
    → balance u (charged_wallets b sign n rows)
      ≡ (if b.user_id == u then paid sign n (balance u rows) else balance u rows)
balance-charged b sign n u rows h = ground (
  arith,
  balance-charge sign n b.user_id u rows,
  balance_of_absent u rows,
  exists_wallet_key b.user_id u rows,
)
