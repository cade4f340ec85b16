-- ===== src/Payment/Store.antt =====
-- The table of payments and its statements
-- (payment/infrastructure/persistence/payment.drizzle-repository.ts). The constraints on the
-- values of the status columns need no state: they are the data types of Payment/Status.
pub mod Listing
use voxkivre_backend.Prelude.{
  ℕ, zero, suc, not, ◌==◌, ltb, leb, ◌&&◌, ◌||◌, Bool, true, false, List, [], ◌∷◌, Option, none,
  some, find, select, update, exists, Outcome, done, thrown, require, check_violation,
  unique_violation, if◌then◌else◌,
}
use voxkivre_backend.Billing.Store.{Db}
use voxkivre_backend.Payment.Status.{
  PaymentStatus, succeeded, expired, amount_mismatch, failed, pending, ConfirmationChannel,
  PaymentProvider, PaymentFailureCode, same_status, same_provider, same_text, to_lower_case,
  Payment, PaymentRow,
}

-- The tables of both modules: a transaction spans them.
pub record World : Type 0 where
  pub payments : List PaymentRow
  pub billing : Db

pub data PaymentCompletion : Type 0 where
  to_succeeded : (via : ConfirmationChannel) → PaymentCompletion
  to_failed :
      (via : Option ConfirmationChannel) (failure_code : PaymentFailureCode) → PaymentCompletion
  to_amount_mismatch : (via : ConfirmationChannel) → PaymentCompletion
  to_expired : (failure_code : Option PaymentFailureCode) → PaymentCompletion

abbrev pub status_of : PaymentCompletion → PaymentStatus
status_of (to_succeeded via) = succeeded
status_of (to_failed via code) = failed
status_of (to_amount_mismatch via) = amount_mismatch
status_of (to_expired code) = expired

abbrev pub via_of : PaymentCompletion → Option ConfirmationChannel
via_of (to_succeeded via) = some via
via_of (to_failed via code) = via
via_of (to_amount_mismatch via) = some via
via_of (to_expired code) = none

abbrev pub failure_of : PaymentCompletion → Option PaymentFailureCode
failure_of (to_succeeded via) = none
failure_of (to_failed via code) = some code
failure_of (to_amount_mismatch via) = none
failure_of (to_expired code) = code

abbrev pub row_of : Payment → PaymentRow
row_of p = record {
  target = record {
    id = p.id;
    user_id = some p.user_id;
    offer_code = p.offer_code;
    amount_xaf = p.amount_xaf;
    idempotency_key = p.idempotency_key;
    request_hash = p.request_hash;
    provider = p.provider;
    external_reference = p.external_reference;
    phone_hmac = p.phone_hmac;
    phone_suffix = p.phone_suffix;
  };
  provider_reference = p.provider_reference;
  status = p.status;
  confirmed_via = p.confirmed_via;
  failure_code = p.failure_code;
  created_at = p.created_at;
  updated_at = p.updated_at;
  completed_at = p.completed_at;
}

abbrev pub payment_of : Option ℕ → PaymentRow → Option Payment
payment_of none row = none
payment_of (some user) row = some (record {
  target = record {
    id = row.id;
    user_id = user;
    offer_code = row.offer_code;
    amount_xaf = row.amount_xaf;
    idempotency_key = row.idempotency_key;
    request_hash = row.request_hash;
    provider = row.provider;
    external_reference = row.external_reference;
    phone_hmac = row.phone_hmac;
    phone_suffix = row.phone_suffix;
  };
  provider_reference = row.provider_reference;
  status = row.status;
  confirmed_via = row.confirmed_via;
  failure_code = row.failure_code;
  created_at = row.created_at;
  updated_at = row.updated_at;
  completed_at = row.completed_at;
})

-- A payment of a deleted account is not seen.
abbrev pub to_payment : PaymentRow → Option Payment
to_payment row = payment_of row.user_id row

abbrev pub is_some_id : Option ℕ → ℕ → Bool
is_some_id none id = false
is_some_id (some x) id = x == id

abbrev pub payment_key : ℕ → PaymentRow → Bool
payment_key id row = row.id == id

abbrev pub idempotency_key_of : (user : ℕ) (key : List ℕ) → PaymentRow → Bool
idempotency_key_of user key row = is_some_id row.user_id user && same_text row.idempotency_key key

abbrev pub seen : Option PaymentRow → Option Payment
seen none = none
seen (some row) = to_payment row

abbrev pub find_by_idempotency_key : (user : ℕ) (key : List ℕ) → List PaymentRow → Option Payment
find_by_idempotency_key user key rows = seen (find (idempotency_key_of user key) rows)

abbrev pub find_by_id_for_user : (id user : ℕ) → List PaymentRow → Option Payment
find_by_id_for_user id user rows =
    seen (find (λ row. row.id == id && is_some_id row.user_id user) rows)

abbrev pub find_by_provider_reference : PaymentProvider → ℕ → List PaymentRow → Option Payment
find_by_provider_reference provider reference rows = seen (
    find (λ row. same_provider row.provider provider && is_some_id row.provider_reference reference)
      rows)

-- The column is a `uuid`, which has no case. A text that is no UUID finds nothing here, where the
-- query throws; the caller writes nothing in both cases.
abbrev pub same_uuid : List ℕ → List ℕ → Bool
same_uuid x y = same_text (to_lower_case x) (to_lower_case y)

abbrev pub find_by_external_reference : List ℕ → List PaymentRow → Option Payment
find_by_external_reference reference rows =
    seen (find (λ row. same_uuid row.external_reference reference) rows)

-- INSERT … ON CONFLICT (user_id, idempotency_key) DO NOTHING: the check comes before the indexes.
unfoldable pub insert : Payment → List PaymentRow → Outcome (Bool × List PaymentRow)
insert p rows =
    if ltb 0 p.amount_xaf
    then if exists (idempotency_key_of p.user_id p.idempotency_key) rows
      then done (false, rows)
      else if exists
          (λ row. payment_key p.id row || same_uuid row.external_reference p.external_reference)
          rows
      then thrown unique_violation
      else done (true, row_of p ∷ rows)
    else thrown check_violation

abbrev pub is_unset : Option ℕ → Bool
is_unset none = true
is_unset (some x) = false

abbrev pub unreferenced_key : ℕ → PaymentRow → Bool
unreferenced_key id row = payment_key id row && is_unset row.provider_reference

abbrev pub references : PaymentProvider → ℕ → PaymentRow → Bool
references provider reference row =
    same_provider row.provider provider && is_some_id row.provider_reference reference

-- UPDATE … WHERE id = … AND provider_reference IS NULL, under the unique constraint on
-- (provider, provider_reference).
abbrev pub attach_to :
    Option PaymentRow → (id reference at : ℕ) → List PaymentRow → Outcome (Bool × List PaymentRow)
attach_to none id reference at rows = done (false, rows)
attach_to (some row) id reference at rows =
    if exists (references row.provider reference) rows
    then thrown unique_violation
    else done (
      true,
      update (unreferenced_key id)
          (λ r. record r { provider_reference = some reference; updated_at = at }) rows,
    )

unfoldable pub attach_provider_reference :
    (id reference at : ℕ) → List PaymentRow → Outcome (Bool × List PaymentRow)
attach_provider_reference id reference at rows =
    attach_to (find (unreferenced_key id) rows) id reference at rows

abbrev pub in_status : ℕ → PaymentStatus → PaymentRow → Bool
in_status id from row = payment_key id row && same_status row.status from

-- What `complete` writes in a row.
abbrev pub completed_row : PaymentCompletion → (at : ℕ) → PaymentRow → PaymentRow
completed_row completion at row = record row {
  status = status_of completion;
  confirmed_via = via_of completion;
  failure_code = failure_of completion;
  completed_at = some at;
  updated_at = at;
}

-- UPDATE … WHERE id = … AND status = from; whether a row was updated.
unfoldable pub complete :
    ℕ
    → (from : PaymentStatus) → PaymentCompletion
    → (at : ℕ) → List PaymentRow
    → Bool × List PaymentRow
complete id from completion at rows =
    (exists (in_status id from) rows, update (in_status id from) (completed_row completion at) rows)

-- Those the sweep reads: pending, of an account, created before, the oldest first.
abbrev pub sweepable : (created_before : ℕ) → PaymentRow → Bool
sweepable created_before row =
    same_status row.status pending
    && (ltb row.created_at created_before && not (is_unset row.user_id))

abbrev pub insert_by_age : PaymentRow → List PaymentRow → List PaymentRow
insert_by_age x [] = x ∷ []
insert_by_age x (y ∷ ys) =
    if leb x.created_at y.created_at then x ∷ y ∷ ys else y ∷ insert_by_age x ys

-- ORDER BY created_at ASC; of two rows with one time, the first.
abbrev pub oldest_first : List PaymentRow → List PaymentRow
oldest_first [] = []
oldest_first (x ∷ xs) = insert_by_age x (oldest_first xs)

abbrev pub first_rows : ℕ → List PaymentRow → List PaymentRow
first_rows zero rows = []
first_rows (suc n) [] = []
first_rows (suc n) (r ∷ rs) = r ∷ first_rows n rs

abbrev pub keep_some : Option Payment → List Payment → List Payment
keep_some none ps = ps
keep_some (some p) ps = p ∷ ps

abbrev pub payments_of : List PaymentRow → List Payment
payments_of [] = []
payments_of (r ∷ rs) = keep_some (to_payment r) (payments_of rs)

unfoldable pub list_pending_created_before :
    (created_before limit : ℕ) → List PaymentRow → List Payment
list_pending_created_before created_before limit rows =
    payments_of (first_rows limit (oldest_first (select (sweepable created_before) rows)))

unfoldable pub has_pending_for_user : (user : ℕ) → List PaymentRow → Bool
has_pending_for_user user rows =
    exists (λ row. is_some_id row.user_id user && same_status row.status pending) rows
