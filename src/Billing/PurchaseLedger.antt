-- ===== src/Billing/PurchaseLedger.antt =====
-- billing/infrastructure/persistence/purchase-ledger.drizzle-repository.ts and
-- offer-catalog.drizzle-repository.ts.
use voxkivre_backend.Prelude.{
  ℕ, ◌+◌, ltb, leb, ◌==◌, Bool, true, false, List, [], ◌∷◌, Option, none, some, find, update,
  exists, all, max, Outcome, done, ◌>>=◌, require, check_violation, unique_violation, range_error,
  pos, if◌then◌else◌, thrown,
}
use voxkivre_backend.Billing.Units.{units_of, max_safe_integer}
use voxkivre_backend.Billing.Offers.{Offer, PurchaseGrant, Rights, pass_rights, credit_rights}
use voxkivre_backend.Billing.Store.{
  entry_key, Purchase, PurchaseKind, pass_purchase, credits_purchase, Pass, CreditEntry, purchase,
  Db, wallet_key, purchase_key,
}
use voxkivre_backend.Billing.UnitsLedger.{ensure_wallet}

pub record GrantedPurchase : Type 0 where
  pub payment_reference : ℕ
  pub user_id : ℕ
  pub grant : PurchaseGrant

pub record RecordedPurchase : Type 0 where
  pub payment_reference : ℕ
  pub user_id : Option ℕ
  pub grant : PurchaseGrant

-- `Money.xaf`
unfoldable pub money_xaf : ℕ → Outcome ℕ
money_xaf amount = require (leb amount max_safe_integer) range_error amount

-- The left join with `passes` on the reference.
abbrev joined_rights : PurchaseKind → Option Pass → Rights
joined_rights pass_purchase (some p) = pass_rights p.starts_at p.ends_at
joined_rights pass_purchase none = credit_rights
joined_rights credits_purchase _ = credit_rights

abbrev pub pass_of_reference : ℕ → List Pass → Option Pass
pass_of_reference reference = find (λ p. p.payment_reference == reference)

abbrev pub to_recorded : List Pass → Option Purchase → Outcome (Option RecordedPurchase)
to_recorded passes none = done none
to_recorded passes (some row) = do
  price ← money_xaf row.price_xaf
  units ← units_of row.units
  done (
      some (record {
        payment_reference = row.payment_reference;
        user_id = row.user_id;
        grant = record {
          offer_code = row.offer_code;
          price = price;
          units = units;
          rights = joined_rights row.kind (pass_of_reference row.payment_reference passes);
        };
      }))

unfoldable pub find_purchase : ℕ → Db → Outcome (Option RecordedPurchase)
find_purchase reference db = to_recorded db.passes (find (purchase_key reference) db.purchases)

abbrev pub max_of : ℕ → Option ℕ → Option ℕ
max_of x none = some x
max_of x (some y) = some (max x y)

-- SELECT max(ends_at) … WHERE user_id = user
abbrev pub latest_end : ℕ → List Pass → Option ℕ
latest_end user [] = none
latest_end user (p ∷ ps) =
    if p.user_id == user then max_of p.ends_at (latest_end user ps) else latest_end user ps

unfoldable pub lock_for_purchase : ℕ → Db → Option ℕ × Db
lock_for_purchase user db =
    (latest_end user db.passes, record db { wallets = ensure_wallet user db.wallets })

abbrev kind_of : Rights → PurchaseKind
kind_of (pass_rights starts ends) = pass_purchase
kind_of credit_rights = credits_purchase

abbrev pub purchase_row : GrantedPurchase → ℕ → Purchase
purchase_row p at = record {
  payment_reference = p.payment_reference;
  user_id = some p.user_id;
  offer_code = p.grant.offer_code;
  kind = kind_of p.grant.rights;
  price_xaf = p.grant.price;
  units = p.grant.units;
  granted_at = at;
}

-- INSERT INTO passes, under its checks and unique keys.
unfoldable pub insert_pass : Pass → Db → Outcome Db
insert_pass p db =
    require
      (all
        (λ q.
          if q.id == p.id
          then false
          else if q.payment_reference == p.payment_reference
          then false
          else true)
        db.passes)
      unique_violation (record db { passes = p ∷ db.passes })

abbrev pub pass_row : GrantedPurchase → (starts ends id : ℕ) → Pass
pass_row p starts ends id = record {
  id = id;
  user_id = p.user_id;
  payment_reference = p.payment_reference;
  offer_code = p.grant.offer_code;
  starts_at = starts;
  ends_at = ends;
  included_units = p.grant.units;
  used_units = 0;
}

abbrev pub credit_entry : GrantedPurchase → (at id : ℕ) → CreditEntry
credit_entry p at id = record {
  id = id;
  user_id = p.user_id;
  kind = purchase;
  units = pos p.grant.units;
  offer_code = some p.grant.offer_code;
  reservation_id = none;
  created_at = at;
}

-- The check on `credit_entries` refuses an entry of no units.
unfoldable pub credit_wallet : GrantedPurchase → (at id : ℕ) → Db → Outcome Db
credit_wallet p at id db =
    if ltb 0 p.grant.units
    then if exists (entry_key id) db.credit_entries
      then thrown unique_violation
      else done (record db {
        wallets =
            update (wallet_key p.user_id)
              (λ w. record w { balance_units = w.balance_units + p.grant.units }) db.wallets;
        credit_entries = credit_entry p at id ∷ db.credit_entries;
      })
    else thrown check_violation

unfoldable pub give_rights : GrantedPurchase → Rights → (at id : ℕ) → Db → Outcome Db
give_rights p (pass_rights starts ends) at id db = do
  row ← require (ltb starts ends) check_violation (pass_row p starts ends id)
  insert_pass row db
give_rights p credit_rights at id db = credit_wallet p at id db

unfoldable pub record_purchase : GrantedPurchase → (at id : ℕ) → Db → Outcome (Bool × Db)
record_purchase p at id db =
    if exists (purchase_key p.payment_reference) db.purchases then done (false, db) else (do
      db' ←
          give_rights p p.grant.rights at id
            (record db { purchases = purchase_row p at ∷ db.purchases })
      done (true, db'))

-- `findByCode`: an offer that is no longer sold is found.
unfoldable pub find_by_code : ℕ → Db → Outcome (Option Offer)
find_by_code code db = elim (find (λ o. o.code == code) db.offers) [
  | none ↦ done none
  | some o ↦ do
    price ← money_xaf o.price
    units ← units_of o.units
    done (some (record o { price = price; units = units }))
]
