-- ===== src/Billing/Store.antt =====
-- The tables of billing (infrastructure/persistence/schema/billing.schema.ts) as lists of rows.
-- Identifiers (users, periods, offers, UUIDs, references) are numbers: the code only compares
-- them. `updated_at` columns are left out: nothing reads them.
use voxkivre_backend.Prelude.{ℕ, ◌==◌, Bool, ◌&&◌, List, Option, ℤ}
use voxkivre_backend.Billing.Units.{VoiceTier}
use voxkivre_backend.Billing.Offers.{Offer}

pub record QuotaUsage : Type 0 where
  pub user_id : ℕ
  pub period : ℕ
  pub reserved_chars : ℕ

pub record QuotaReservation : Type 0 where
  pub reservation_id : ℕ
  pub user_id : ℕ
  pub period : ℕ
  pub chars : ℕ
  pub tier : VoiceTier
  pub pass_id : Option ℕ
  pub free_units : ℕ
  pub pass_units : ℕ
  pub credit_units : ℕ
  pub refunded_chars : Option ℕ
  pub created_at : ℕ
  pub refunded_at : Option ℕ

pub data PurchaseKind : Type 0 where
  pass_purchase credits_purchase : PurchaseKind

pub record Purchase : Type 0 where
  pub payment_reference : ℕ
  -- null once the account is deleted
  pub user_id : Option ℕ
  pub offer_code : ℕ
  pub kind : PurchaseKind
  pub price_xaf : ℕ
  pub units : ℕ
  pub granted_at : ℕ

pub record Pass : Type 0 where
  pub id : ℕ
  pub user_id : ℕ
  pub payment_reference : ℕ
  pub offer_code : ℕ
  pub starts_at : ℕ
  pub ends_at : ℕ
  pub included_units : ℕ
  pub used_units : ℕ

pub record Wallet : Type 0 where
  pub user_id : ℕ
  pub balance_units : ℕ

pub data CreditEntryKind : Type 0 where
  purchase consumption refund : CreditEntryKind

pub record CreditEntry : Type 0 where
  pub id : ℕ
  pub user_id : ℕ
  pub kind : CreditEntryKind
  pub units : ℤ
  pub offer_code : Option ℕ
  pub reservation_id : Option ℕ
  pub created_at : ℕ

pub record Db : Type 0 where
  pub quota_usage : List QuotaUsage
  pub quota_reservations : List QuotaReservation
  pub offers : List Offer
  pub purchases : List Purchase
  pub passes : List Pass
  pub wallets : List Wallet
  pub credit_entries : List CreditEntry

abbrev pub usage_key : ℕ → ℕ → QuotaUsage → Bool
usage_key user period row = row.user_id == user && row.period == period

abbrev pub entry_key : ℕ → CreditEntry → Bool
entry_key id row = row.id == id

abbrev pub wallet_key : ℕ → Wallet → Bool
wallet_key user row = row.user_id == user

abbrev pub reservation_key : ℕ → QuotaReservation → Bool
reservation_key id row = row.reservation_id == id

abbrev pub pass_key : ℕ → Pass → Bool
pass_key id row = row.id == id

abbrev pub purchase_key : ℕ → Purchase → Bool
purchase_key reference row = row.payment_reference == reference
