-- ===== src/Billing/UnitsLedger/Checks.antt =====
-- What the constraints of the schema guarantee of a call of `applyToSources` that does not throw,
-- and when no constraint stops it.
use voxkivre_backend.Prelude.{
  ℕ, ◌≤◌, ◌≡◌, refl, leb, true, List, [], ◌∷◌, Option, none, some, update, exists, all, All,
  where_holds, done, >>=-eq-done, arith,
}
use voxkivre_backend.Billing.Allocation.{UnitsBySource}
use voxkivre_backend.Billing.Store.{Pass, Wallet, Db, wallet_key, pass_key}
use voxkivre_backend.Billing.UnitsLedger.{
  Sign, debited, shift, can_pay, Booking, apply_to_free, charge_pass, apply_to_pass, charge_wallet,
  apply_to_wallet, apply_to_sources,
}
use voxkivre_backend.Billing.UnitsLedger.Counters.{balance}
use voxkivre_backend.Billing.UnitsLedger.Charges.{charged_passes, apply_to_pass-done}

abbrev pub Within : List Pass → Type 0
Within = All (λ p. p.used_units ≤ p.included_units)

checked-Within :
    (sign : Sign) (n id : ℕ) (rows : List Pass)
    → all
        (where_holds (pass_key id) (λ p. leb p.used_units p.included_units))
        (update (pass_key id) (λ p. record p { used_units = shift sign n p.used_units }) rows)
      ≡ true
    → Within rows
    → Within (update (pass_key id) (λ p. record p { used_units = shift sign n p.used_units }) rows)
checked-Within sign n id [] h w = tt
checked-Within sign n id (r ∷ rs) h w = ground (arith, checked-Within sign n id rs)

apply_to_pass-Within :
    (b : Booking) (pass : Option ℕ) (sign : Sign) (n : ℕ) (db db' : Db)
    → b.pass_id ≡ pass
    → apply_to_pass b sign n db ≡ done db'
    → Within db.passes
    → Within (charged_passes pass sign n db.passes)
unfolding apply_to_pass charge_pass
apply_to_pass-Within b none sign n db db' e h w = w
apply_to_pass-Within b (some id) sign n db db' e h w =
    ground (arith, checked-Within sign n id db.passes)

pub apply_to_sources-Within :
    (b : Booking) (units : UnitsBySource) (sign : Sign) (at entry_id : ℕ) (db db' : Db)
    → apply_to_sources b units sign at entry_id db ≡ done db'
    → Within db.passes
    → Within (charged_passes b.pass_id sign units.pass db.passes)
unfolding apply_to_sources apply_to_free
apply_to_sources-Within b units sign at entry_id db db' h w =
    let (db₁, e, k) =
      >>=-eq-done (apply_to_pass b sign units.pass (apply_to_free b sign units.free db))
        (apply_to_wallet b sign units.credits at entry_id) h in
    ground (
      arith,
      apply_to_pass-Within b b.pass_id sign units.pass (apply_to_free b sign units.free db) db₁ refl
          e,
    )

can_pay-balance :
    (n user : ℕ) (rows : List Wallet)
    → exists (wallet_key user) rows ≡ true
    → all (where_holds (wallet_key user) (λ w. can_pay debited n w.balance_units)) rows ≡ true
    → n ≤ balance user rows
can_pay-balance n user [] e h = cc
can_pay-balance n user (r ∷ rs) e h = ground (arith, can_pay-balance n user rs)

apply_to_wallet-can_pay :
    (b : Booking) (n at entry_id : ℕ) (db db' : Db)
    → apply_to_wallet b debited n at entry_id db ≡ done db'
    → exists (wallet_key b.user_id) db.wallets ≡ true
    → n ≤ balance b.user_id db.wallets
unfolding apply_to_wallet charge_wallet
apply_to_wallet-can_pay b n at entry_id db db' h e =
    ground (arith, can_pay-balance n b.user_id db.wallets)

pub apply_to_sources-can_pay :
    (b : Booking) (units : UnitsBySource) (at entry_id : ℕ) (db db' : Db)
    → apply_to_sources b units debited at entry_id db ≡ done db'
    → exists (wallet_key b.user_id) db.wallets ≡ true
    → units.credits ≤ balance b.user_id db.wallets
unfolding apply_to_sources apply_to_free
apply_to_sources-can_pay b units at entry_id db db' h x =
    let (db₁, e, k) =
      >>=-eq-done (apply_to_pass b debited units.pass (apply_to_free b debited units.free db))
        (apply_to_wallet b debited units.credits at entry_id) h in
    ground (
      arith,
      apply_to_pass-done b b.pass_id debited units.pass (apply_to_free b debited units.free db) db₁
          refl e,
      apply_to_wallet-can_pay b units.credits at entry_id db₁ db' k,
    )
