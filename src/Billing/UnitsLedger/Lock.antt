-- ===== src/Billing/UnitsLedger/Lock.antt =====
-- What `lockBalances` reads, and what it leaves.
use voxkivre_backend.Prelude.{
  ℕ, ◌-◌, ◌≤◌, ◌<◌, ◌≡◌, ==_refl, leb, ltb, ◌==◌, ◌&&◌, List, Option, none, some, find, AtMostOne,
  least_by-holds, least_by-listed, done, >>=-eq-done, arith,
}
use voxkivre_backend.Billing.Units.{units_of}
use voxkivre_backend.Billing.Store.{Pass, Db, pass_key}
use voxkivre_backend.Billing.UnitsLedger.{
  ActivePass, LockedBalances, current_pass, to_active, prepared, lock_balances, ensure_usage,
  ensure_wallet,
}
use voxkivre_backend.Billing.UnitsLedger.Counters.{
  free_used, balance, free_used-ensure_usage, balance-ensure_wallet,
}

-- a reports the pass p.
abbrev pub Reports : Option ActivePass → Option Pass → Type 0
Reports none none = Unit
Reports (some a) (some p) = (a.id ≡ p.id) × (a.remaining ≡ p.included_units - p.used_units)
Reports _ _ = ⊥

to_active-Reports : (o : Option Pass) (a : Option ActivePass) → to_active o ≡ done a → Reports a o
unfolding units_of
to_active-Reports none none e = tt
to_active-Reports none (some a) e = ground arith
to_active-Reports (some p) none e = ground arith
to_active-Reports (some p) (some a) e = ground arith

pub record Locked (user period at : ℕ) (db : Db) (bal : LockedBalances) (db' : Db) : Type 0 where
  pub left : db' ≡ prepared user period db
  pub free : bal.free_used ≡ free_used user period db.quota_usage
  pub credits : bal.credits ≡ balance user db.wallets
  pub pass : Reports bal.active_pass (current_pass user at db.passes)

pub lock_balances-Locked :
    (user period at : ℕ) (db : Db) (bal : LockedBalances) (db' : Db)
    → lock_balances user period at db ≡ done (bal, db')
    → Locked user period at db bal db'
unfolding lock_balances units_of
lock_balances-Locked user period at db bal db' h =
    let (f, e₁, h₁) =
      >>=-eq-done (units_of (free_used user period (ensure_usage user period db.quota_usage))) _
        h in
    let (a, e₂, h₂) = >>=-eq-done (to_active (current_pass user at db.passes)) _ h₁ in
    let (c, e₃, h₃) = >>=-eq-done (units_of (balance user (ensure_wallet user db.wallets))) _ h₂ in
    record {
      left = ground arith;
      free = ground (arith, free_used-ensure_usage user period user period db.quota_usage);
      credits = ground (arith, balance-ensure_wallet user user db.wallets);
      pass =
          let same : a ≡ bal.active_pass = ground arith in
          rw same at (to_active-Reports (current_pass user at db.passes) a e₂);
    }

-- A pass that runs is a row of the table, and it is the user's, and active.
pub current_pass-found :
    (user at : ℕ) (rows : List Pass) (p : Pass)
    → current_pass user at rows ≡ some p
    → AtMostOne (pass_key p.id) rows
    → find (pass_key p.id) rows ≡ some p
current_pass-found user at rows p e one =
    least_by-listed (λ p. p.starts_at) _ (pass_key p.id) rows p e (==_refl p.id) one

pub current_pass-active :
    (user at : ℕ) (rows : List Pass) (p : Pass)
    → current_pass user at rows ≡ some p
    → (p.user_id ≡ user) × (p.starts_at ≤ at) × (at < p.ends_at)
current_pass-active user at rows p e =
    let h =
      least_by-holds (λ p. p.starts_at)
        (λ p. p.user_id == user && (leb p.starts_at at && ltb at p.ends_at)) rows p e in
    ground arith
