-- ===== src/Payment/Status.antt =====
-- payment/domain/value-objects/payment-status.vo.ts and payment/domain/provider-transaction.ts,
-- with the entity of payment/domain/entities/payment.entity.ts. Identifiers, hashes and offer
-- codes are numbers: the code only compares them. A text that it reads is the list of its code
-- units.
use voxkivre_backend.Prelude.{
  ℕ, ◌==◌, ◌+◌, ◌-◌, leb, ◌&&◌, Bool, true, false, List, Option, none, map, ℤ, if◌then◌else◌,
}
pub use voxkivre_backend.Shared.Text.{same_text}

pub data PaymentStatus : Type 0 where
  pending succeeded failed expired amount_mismatch : PaymentStatus

pub data ConfirmationChannel : Type 0 where
  webhook sweep : ConfirmationChannel

pub data PaymentProvider : Type 0 where
  fake campay : PaymentProvider

pub data PaymentFailureCode : Type 0 where
  invalid_phone declined no_provider_reference : PaymentFailureCode

abbrev pub status_code : PaymentStatus → ℕ
status_code pending = 0
status_code succeeded = 1
status_code failed = 2
status_code expired = 3
status_code amount_mismatch = 4

abbrev pub same_status : PaymentStatus → PaymentStatus → Bool
same_status s t = status_code s == status_code t

abbrev pub same_provider : PaymentProvider → PaymentProvider → Bool
same_provider fake fake = true
same_provider campay campay = true
same_provider fake campay = false
same_provider campay fake = false

-- On ASCII, which is enough to compare with a UUID or a currency code: no other character has
-- an image among theirs.
abbrev pub lower : ℕ → ℕ
lower c = if leb 65 c && leb c 90 then c + 32 else c

abbrev pub upper : ℕ → ℕ
upper c = if leb 97 c && leb c 122 then c - 32 else c

abbrev pub to_lower_case : List ℕ → List ℕ
to_lower_case text = map lower text

abbrev pub to_upper_case : List ℕ → List ℕ
to_upper_case text = map upper text

-- The fields of a payment that are set once.
pub record Target (U : Type 0) : Type 0 where
  pub id : ℕ
  pub user_id : U
  pub offer_code : ℕ
  pub amount_xaf : ℕ
  pub idempotency_key : List ℕ
  pub request_hash : ℕ
  pub provider : PaymentProvider
  pub external_reference : List ℕ
  pub phone_hmac : ℕ
  pub phone_suffix : List ℕ

-- A payment with its user, or a row, whose user is null once the account is deleted.
pub record PaymentOf (U : Type 0) : Type 0 where
  pub target : Target U
  pub open target use *
  pub provider_reference : Option ℕ
  pub status : PaymentStatus
  pub confirmed_via : Option ConfirmationChannel
  pub failure_code : Option PaymentFailureCode
  pub created_at : ℕ
  pub updated_at : ℕ
  pub completed_at : Option ℕ

abbrev pub Payment : Type 0
Payment = PaymentOf ℕ

abbrev pub PaymentRow : Type 0
PaymentRow = PaymentOf (Option ℕ)

unfoldable pub new_pending_payment : Target ℕ → (now : ℕ) → Payment
new_pending_payment target now = record {
  target = target;
  provider_reference = none;
  status = pending;
  confirmed_via = none;
  failure_code = none;
  created_at = now;
  updated_at = now;
  completed_at = none;
}

pub data TransactionStatus : Type 0 where
  pending successful failed : TransactionStatus

-- A JavaScript number: an integer, or one that is not (2.5, NaN).
pub data Amount : Type 0 where
  integer : ℤ → Amount
  not_integer : Amount

pub record ProviderTransaction : Type 0 where
  pub reference : ℕ
  pub external_reference : Option (List ℕ)
  pub status : TransactionStatus
  pub amount : Amount
  pub currency : List ℕ
