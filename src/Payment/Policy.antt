-- ===== src/Payment/Policy.antt =====
-- payment/domain/services/payment-policy.ts, with `countAttempts` of
-- payment/infrastructure/persistence/payment.drizzle-repository.ts. Times are milliseconds; the
-- clock is later than the first day of 1970, so the subtractions do not stop at 0.
use voxkivre_backend.Prelude.{
  ℕ, ◌-◌, ◌*◌, ◌==◌, ltb, leb, ◌&&◌, ◌||◌, Bool, false, List, [], ◌∷◌, Option, none, some, select,
  length, if◌then◌else◌,
}
use voxkivre_backend.Payment.Status.{pending, same_status, Payment, PaymentRow}
use voxkivre_backend.Payment.Store.{is_some_id, is_unset}

abbrev minute_ms : ℕ
minute_ms = 60 * 1000

abbrev pub hour_ms : ℕ
hour_ms = 60 * minute_ms

abbrev pub max_attempts_per_user_per_hour : ℕ
max_attempts_per_user_per_hour = 5

abbrev pub max_attempts_per_phone_per_day : ℕ
max_attempts_per_phone_per_day = 3

abbrev pub in_flight_window_ms : ℕ
in_flight_window_ms = 15 * minute_ms

abbrev pub sweep_grace_ms : ℕ
sweep_grace_ms = 2 * minute_ms

abbrev pub pending_ttl_ms : ℕ
pending_ttl_ms = 24 * hour_ms

abbrev pub unreferenced_ttl_ms : ℕ
unreferenced_ttl_ms = 15 * minute_ms

pub record AttemptWindows : Type 0 where
  pub in_flight_since : ℕ
  pub user_since : ℕ
  pub phone_since : ℕ

abbrev pub attempt_windows : (now : ℕ) → AttemptWindows
attempt_windows now = record {
  in_flight_since = now - in_flight_window_ms;
  user_since = now - hour_ms;
  phone_since = now - 24 * hour_ms;
}

pub data AttemptRefusal : Type 0 where
  user_hourly_limit phone_daily_limit : AttemptRefusal

pub record AttemptCounts : Type 0 where
  pub in_flight_payment_id : Option ℕ
  pub user_attempts_last_hour : ℕ
  pub phone_attempts_last_day : ℕ

unfoldable pub attempt_refusal_for : AttemptCounts → Option AttemptRefusal
attempt_refusal_for counts =
    if leb max_attempts_per_user_per_hour counts.user_attempts_last_hour
    then some user_hourly_limit
    else if leb max_attempts_per_phone_per_day counts.phone_attempts_last_day
    then some phone_daily_limit
    else none

abbrev pub sweep_cutoff : (now : ℕ) → ℕ
sweep_cutoff now = now - sweep_grace_ms

unfoldable pub is_expiry_due : Payment → (now : ℕ) → Bool
is_expiry_due payment now =
    if same_status payment.status pending
    then (if is_unset payment.provider_reference
        then leb unreferenced_ttl_ms (now - payment.created_at)
        else leb pending_ttl_ms (now - payment.created_at))
    else false

abbrev pub of_user : (user since : ℕ) → PaymentRow → Bool
of_user user since row = is_some_id row.user_id user && leb since row.created_at

abbrev pub of_phone : (phone_hmac since : ℕ) → PaymentRow → Bool
of_phone phone_hmac since row = row.phone_hmac == phone_hmac && leb since row.created_at

abbrev pub in_flight : (user since : ℕ) → PaymentRow → Bool
in_flight user since row =
    is_some_id row.user_id user && (same_status row.status pending && ltb since row.created_at)

abbrev later : PaymentRow → Option PaymentRow → PaymentRow
later x none = x
later x (some y) = if ltb x.created_at y.created_at then y else x

-- The last created; of two created at once, the first.
abbrev pub latest : List PaymentRow → Option PaymentRow
latest [] = none
latest (x ∷ xs) = some (later x (latest xs))

abbrev pub id_of_row : Option PaymentRow → Option ℕ
id_of_row none = none
id_of_row (some row) = some row.id

unfoldable pub count_attempts :
    (user phone_hmac : ℕ) → AttemptWindows → List PaymentRow → AttemptCounts
count_attempts user phone_hmac windows rows =
    let read =
      select
        (λ row. of_user user windows.user_since row || of_phone phone_hmac windows.phone_since row)
        rows in
    record {
      in_flight_payment_id =
          id_of_row (latest (select (in_flight user windows.in_flight_since) read));
      user_attempts_last_hour = length (select (of_user user windows.user_since) read);
      phone_attempts_last_day = length (select (of_phone phone_hmac windows.phone_since) read);
    }
