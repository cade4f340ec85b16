-- ===== src/Billing/UnitsLedger/Counters.antt =====
-- What each statement of the ledger does to the three counters: the free units used in a period,
-- the units used of a pass, and the balance of a wallet.
use voxkivre_backend.Prelude.{
  ℕ, ◌≡◌, refl, ◌==◌, true, false, ◌&&◌, List, [], ◌∷◌, Option, none, some, find, update, exists,
  if◌then◌else◌, arith,
}
use voxkivre_backend.Billing.Store.{QuotaUsage, Pass, Wallet, usage_key, wallet_key, pass_key}
use voxkivre_backend.Billing.UnitsLedger.{
  Sign, shift, paid, used_or_zero, balance_or_zero, ensure_usage, ensure_wallet,
}

abbrev pub free_used : ℕ → ℕ → List QuotaUsage → ℕ
free_used user period rows = used_or_zero (find (usage_key user period) rows)

abbrev pub balance : ℕ → List Wallet → ℕ
balance user rows = balance_or_zero (find (wallet_key user) rows)

abbrev pub pass_used_or_zero : Option Pass → ℕ
pass_used_or_zero none = 0
pass_used_or_zero (some p) = p.used_units

abbrev pub pass_used : ℕ → List Pass → ℕ
pass_used id rows = pass_used_or_zero (find (pass_key id) rows)

free_used_absent :
    (user period u p : ℕ) (rows : List QuotaUsage)
    → exists (usage_key user period) rows ≡ false
    → user ≡ u
    → period ≡ p
    → free_used u p rows ≡ 0
free_used_absent user period u p [] e h k = refl
free_used_absent user period u p (r ∷ rs) e h k =
    ground (arith, free_used_absent user period u p rs)

pub free_used-ensure_usage :
    (user period u p : ℕ) (rows : List QuotaUsage)
    → free_used u p (ensure_usage user period rows) ≡ free_used u p rows
free_used-ensure_usage user period u p rows = ground (arith, free_used_absent user period u p rows)

pub exists-ensure_usage :
    (user period : ℕ) (rows : List QuotaUsage)
    → exists (usage_key user period) (ensure_usage user period rows) ≡ true
exists-ensure_usage user period rows = ground arith

pub free_used-charge :
    (sign : Sign) (n user period u p : ℕ) (rows : List QuotaUsage)
    → free_used u p (
        update
          (usage_key user period)
          (λ row. record row { reserved_chars = shift sign n row.reserved_chars })
          rows)
      ≡ (if exists (usage_key u p) rows
          then (if user == u && period == p
              then shift sign n (free_used u p rows)
              else free_used u p rows)
          else 0)
free_used-charge sign n user period u p [] = refl
free_used-charge sign n user period u p (r ∷ rs) =
    ground (arith, free_used-charge sign n user period u p rs)

balance_absent :
    (user u : ℕ) (rows : List Wallet)
    → exists (wallet_key user) rows ≡ false
    → user ≡ u
    → balance u rows ≡ 0
balance_absent user u [] e h = refl
balance_absent user u (r ∷ rs) e h = ground (arith, balance_absent user u rs)

pub balance-ensure_wallet :
    (user u : ℕ) (rows : List Wallet) → balance u (ensure_wallet user rows) ≡ balance u rows
balance-ensure_wallet user u rows = ground (arith, balance_absent user u rows)

pub exists-ensure_wallet :
    (user : ℕ) (rows : List Wallet) → exists (wallet_key user) (ensure_wallet user rows) ≡ true
exists-ensure_wallet user rows = ground arith

-- A row that was there stays there.
pub exists-ensure_wallet_mono :
    (user u : ℕ) (rows : List Wallet)
    → exists (wallet_key u) rows ≡ true
    → exists (wallet_key u) (ensure_wallet user rows) ≡ true
exists-ensure_wallet_mono user u rows e = ground arith

pub balance-charge :
    (sign : Sign) (n user u : ℕ) (rows : List Wallet)
    → balance u (
        update
          (wallet_key user)
          (λ row. record row { balance_units = paid sign n row.balance_units })
          rows)
      ≡ (if exists (wallet_key u) rows
          then (if user == u then paid sign n (balance u rows) else balance u rows)
          else 0)
balance-charge sign n user u [] = refl
balance-charge sign n user u (r ∷ rs) = ground (arith, balance-charge sign n user u rs)

pub balance_of_absent :
    (u : ℕ) (rows : List Wallet) → exists (wallet_key u) rows ≡ false → balance u rows ≡ 0
balance_of_absent u rows e = balance_absent u u rows e refl

pub pass_used-charge :
    (sign : Sign) (n pass id : ℕ) (rows : List Pass)
    → pass_used id (
        update
          (pass_key pass)
          (λ row. record row { used_units = shift sign n row.used_units })
          rows)
      ≡ (if exists (pass_key id) rows
          then (if pass == id then shift sign n (pass_used id rows) else pass_used id rows)
          else 0)
pass_used-charge sign n pass id [] = refl
pass_used-charge sign n pass id (r ∷ rs) = ground (arith, pass_used-charge sign n pass id rs)
