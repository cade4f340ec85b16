-- ===== src/Billing/System.antt =====
-- Any sequence of the calls that write the tables of billing, each in its transaction.
pub mod Balanced
pub mod Periods
pub mod Chained
pub mod Purchases
pub mod Reservations
pub mod Replayed
use voxkivre_backend.Prelude.{
  ℕ, ◌≡◌, refl, List, [], ◌∷◌, Outcome, done, thrown, with_transaction, committed, Bool, Result,
}
use voxkivre_backend.Billing.Offers.{Offer}
use voxkivre_backend.Billing.Store.{Db}
use voxkivre_backend.Billing.UnitsLedger.{UnitsReservation}
use voxkivre_backend.Billing.ReserveQuota.{
  QuotaPolicy, ReserveQuotaInput, ReserveError, reserve_quota,
}
use voxkivre_backend.Billing.RefundQuota.{refund_quota}
use voxkivre_backend.Billing.GrantOffer.{GrantOfferInput, GrantOfferOutput, GrantError, grant_offer}

-- A call with the time of the clock and the identifier of the row that it may add.
pub data Call : Type 0 where
  reserves : ReserveQuotaInput → (now entry_id : ℕ) → Call
  refunds : (reservation_id chars now entry_id : ℕ) → Call
  grants : GrantOfferInput → (now id : ℕ) → Call

unfoldable pub step : QuotaPolicy → Db → Call → Db
step policy db (reserves input now entry_id) =
    (with_transaction (reserve_quota policy input now entry_id) db).1
step policy db (refunds id chars now entry_id) =
    (with_transaction (refund_quota id chars now entry_id) db).1
step policy db (grants input now id) = (with_transaction (grant_offer input now id) db).1

unfoldable pub run : QuotaPolicy → Db → List Call → Db
run policy db [] = db
run policy db (c ∷ cs) = run policy (step policy db c) cs

-- The database once the catalogue is there and before anybody has bought anything.
abbrev pub initial : List Offer → Db
initial offers = record {
  quota_usage = [];
  quota_reservations = [];
  offers = offers;
  purchases = [];
  passes = [];
  wallets = [];
  credit_entries = [];
}

-- What a transaction that commits establishes, and a rollback keeps.
pub with_transaction_keeps {ℓ κ} :
    {A : Type ℓ} (P : Db → Type κ) (body : Db → Outcome (A × Db)) (db : Db)
    → ((a : A) (db' : Db) → body db ≡ done (a, db') → P db')
    → P db
    → P (with_transaction body db).1
with_transaction_keeps P body db keep p = go (body db) refl
  where
    go : (o : Outcome _) → body db ≡ o → P (committed db o).1
    go (done (a, db')) e = keep a db' e
    go (thrown x) e = p
