-- ===== src/Billing/Offers.antt =====
-- billing/domain: offers, passes, and what a purchase grants (offer.ts, pass.ts,
-- services/purchase-grant.ts). A date is its `getTime()`, in milliseconds.
use voxkivre_backend.Prelude.{
  ℕ, ◌+◌, ◌-◌, ◌*◌, ltb, leb, Bool, ◌&&◌, Option, none, some, Outcome, if◌then◌else◌,
}
use voxkivre_backend.Billing.Units.{units_of}

pub data Terms : Type 0 where
  pass : (duration_days : ℕ) → Terms
  credits : Terms

pub record Offer : Type 0 where
  pub code : ℕ
  pub price : ℕ
  pub units : ℕ
  pub active : Bool
  pub terms : Terms

-- What tells the two kinds of grant apart.
pub data Rights : Type 0 where
  pass_rights : (starts_at ends_at : ℕ) → Rights
  credit_rights : Rights

pub record PurchaseGrant : Type 0 where
  pub offer_code : ℕ
  pub price : ℕ
  pub units : ℕ
  pub rights : Rights

abbrev pub day_ms : ℕ
day_ms = 24 * 60 * 60 * 1000

-- The later of `now` and the end of the last pass.
abbrev pub pass_start : ℕ → Option ℕ → ℕ
pass_start now none = now
pass_start now (some latest) = if ltb now latest then latest else now

abbrev pub rights_for : Terms → ℕ → Option ℕ → Rights
rights_for credits now latest = credit_rights
rights_for (pass days) now latest =
    let starts_at = pass_start now latest in pass_rights starts_at (starts_at + days * day_ms)

unfoldable pub grant_for : Offer → ℕ → Option ℕ → PurchaseGrant
grant_for offer now latest_pass_end = record {
  offer_code = offer.code;
  price = offer.price;
  units = offer.units;
  rights = rights_for offer.terms now latest_pass_end;
}

abbrev pub is_pass_active_at : (starts_at ends_at at : ℕ) → Bool
is_pass_active_at starts_at ends_at at = leb starts_at at && ltb at ends_at

-- `Math.max(0, included - used)`: the subtraction on ℕ stops at 0.
unfoldable pub remaining_pass_units : (included used : ℕ) → Outcome ℕ
remaining_pass_units included used = units_of (included - used)
