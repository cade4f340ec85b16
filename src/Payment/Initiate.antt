-- ===== src/Payment/Initiate.antt =====
-- payment/application/use-cases/initiate-payment.use-case.ts, with `findOffer` of
-- payment/infrastructure/billing/billing.adapter.ts and
-- payment/domain/services/payment-description.ts. Statements that do not share a transaction stay
-- written when a later one throws.
use voxkivre_backend.Prelude.{
  ℕ, ◌==◌, Bool, true, false, not, ◌||◌, List, find, Option, none, some, Outcome, done, thrown,
  ◌>>=◌, broken_invariant, Result, ok, err, if◌then◌else◌,
}
use voxkivre_backend.Shared.IdempotencyKey.{idempotency_key_from}
use voxkivre_backend.Billing.Offers.{Terms, pass, credits, Offer}
use voxkivre_backend.Billing.Store.{Db}
use voxkivre_backend.Billing.Catalog.{list_active}
use voxkivre_backend.Payment.MobileMoneyNumber.{of, suffix}
use voxkivre_backend.Payment.Status.{
  pending, PaymentProvider, invalid_phone, same_status, Target, Payment, PaymentRow,
  new_pending_payment,
}
use voxkivre_backend.Payment.Store.{
  World, to_failed, is_unset, find_by_idempotency_key, insert, attach_provider_reference, complete,
}
use voxkivre_backend.Payment.Policy.{
  AttemptRefusal, AttemptCounts, attempt_windows, attempt_refusal_for, count_attempts,
}

pub record InitiatePaymentInput : Type 0 where
  pub user_id : ℕ
  pub offer_code : ℕ
  pub phone_number : List ℕ
  pub idempotency_key : List ℕ

pub data InitiateError : Type 0 where
  payments_disabled invalid_idempotency_key invalid_payment_phone : InitiateError
  idempotency_conflict collect_unavailable refused_phone : InitiateError
  offer_not_found payment_in_progress : ℕ → InitiateError
  attempts_exceeded : AttemptRefusal → InitiateError

-- The text for the customer, by its only variable part.
pub data PaymentDescription : Type 0 where
  pass_of_days credits_of_units : ℕ → PaymentDescription

abbrev pub described : Terms → ℕ → PaymentDescription
described (pass days) units = pass_of_days days
described credits units = credits_of_units units

abbrev pub payment_description : Offer → PaymentDescription
payment_description offer = described offer.terms offer.units

pub record CollectRequest : Type 0 where
  pub external_reference : List ℕ
  pub amount_xaf : ℕ
  pub phone : List ℕ
  pub description : PaymentDescription

pub data CollectError : Type 0 where
  unavailable invalid_number : CollectError

-- The provider and the hashes, which the use case calls.
pub record Services : Type 0 where
  pub provider : Option PaymentProvider
  pub collect : CollectRequest → Result ℕ CollectError
  pub key_of : List ℕ → ℕ
  pub idempotency_hash_of : (offer_code phone_hmac : ℕ) → ℕ

-- The clock at the two places where it is read, and the fresh identifiers.
pub record Fresh : Type 0 where
  pub now : ℕ
  pub collected_at : ℕ
  pub id : ℕ
  pub external_reference : List ℕ

abbrev pub Answer : Type 0
Answer = Outcome (Result Payment InitiateError) × World

unfoldable pub find_offer : (code : ℕ) → Db → Outcome (Option Offer)
find_offer code db = do
  offers ← list_active db
  done (find (λ candidate. candidate.code == code) offers)

abbrev pub attached_to :
    Payment → (reference at : ℕ) → World → Outcome (Bool × List PaymentRow) → Answer
attached_to payment reference at world (thrown fault) = (thrown fault, world)
attached_to payment reference at world (done (attached, rows)) = (
  done (ok (record payment { provider_reference = some reference; updated_at = at })),
  record world { payments = rows },
)

unfoldable pub collected : Payment → (at : ℕ) → Result ℕ CollectError → World → Answer
collected payment at (ok reference) world =
    attached_to payment reference at world
      (attach_provider_reference payment.id reference at world.payments)
collected payment at (err unavailable) world = (done (err collect_unavailable), world)
collected payment at (err invalid_number) world = (
  done (err refused_phone),
  record world {
    payments = (complete payment.id pending (to_failed none invalid_phone) at world.payments).1;
  },
)

unfoldable pub collect : Services → Payment → Offer → (phone : List ℕ) → (at : ℕ) → World → Answer
collect services payment offer phone at world =
    collected payment at
      (services.collect (record {
        external_reference = payment.external_reference;
        amount_xaf = payment.amount_xaf;
        phone = phone;
        description = payment_description offer;
      }))
      world

-- An offer that was withdrawn in between: the payment will expire without a reference.
abbrev pub collect_again :
    Services → Payment → (phone : List ℕ) → (at : ℕ) → World → Outcome (Option Offer) → Answer
collect_again services existing phone at world (thrown fault) = (thrown fault, world)
collect_again services existing phone at world (done none) = (done (ok existing), world)
collect_again services existing phone at world (done (some offer)) =
    collect services existing offer phone at world

unfoldable pub replay :
    Services → Payment → (request_hash : ℕ) → (phone : List ℕ) → (at : ℕ) → World → Answer
replay services existing request_hash phone at world =
    if not (existing.request_hash == request_hash)
    then (done (err idempotency_conflict), world)
    else if not (same_status existing.status pending) || not (is_unset existing.provider_reference)
    then (done (ok existing), world)
    else collect_again services existing phone at world
        (find_offer existing.offer_code world.billing)

-- The request that came first with the key is the one that counts.
abbrev pub lost_to : (request_hash : ℕ) → World → Option Payment → Answer
lost_to request_hash world none = (thrown broken_invariant, world)
lost_to request_hash world (some winner) =
    if winner.request_hash == request_hash
    then (done (ok winner), world)
    else (done (err idempotency_conflict), world)

abbrev pub inserted :
    Services
    → Payment
    → Offer
    → (phone : List ℕ) → (at : ℕ) → World
    → Outcome (Bool × List PaymentRow)
    → Answer
inserted services payment offer phone at world (thrown fault) = (thrown fault, world)
inserted services payment offer phone at world (done (true, rows)) =
    collect services payment offer phone at (record world { payments = rows })
inserted services payment offer phone at world (done (false, rows)) =
    lost_to payment.request_hash (record world { payments = rows })
      (find_by_idempotency_key payment.user_id payment.idempotency_key rows)

-- What `execute` has checked of the request.
pub record Request : Type 0 where
  pub user_id : ℕ
  pub offer_code : ℕ
  pub provider : PaymentProvider
  pub key : List ℕ
  pub phone : List ℕ
  pub phone_hmac : ℕ
  pub request_hash : ℕ

abbrev pub target_of : Request → Offer → Fresh → Target ℕ
target_of r offer fresh = record {
  id = fresh.id;
  user_id = r.user_id;
  offer_code = offer.code;
  amount_xaf = offer.price;
  idempotency_key = r.key;
  request_hash = r.request_hash;
  provider = r.provider;
  external_reference = fresh.external_reference;
  phone_hmac = r.phone_hmac;
  phone_suffix = suffix r.phone;
}

abbrev pub unless_refused :
    Services → Request → Offer → Fresh → World → Option AttemptRefusal → Answer
unless_refused services r offer fresh world (some refusal) =
    (done (err (attempts_exceeded refusal)), world)
unless_refused services r offer fresh world none =
    let payment = new_pending_payment (target_of r offer fresh) fresh.now in
    inserted services payment offer r.phone fresh.collected_at world (insert payment world.payments)

abbrev pub unless_in_flight :
    Services → Request → Offer → Fresh → World → AttemptCounts → Option ℕ → Answer
unless_in_flight services r offer fresh world counts (some id) =
    (done (err (payment_in_progress id)), world)
unless_in_flight services r offer fresh world counts none =
    unless_refused services r offer fresh world (attempt_refusal_for counts)

abbrev pub for_offer : Services → Request → Fresh → World → Outcome (Option Offer) → Answer
for_offer services r fresh world (thrown fault) = (thrown fault, world)
for_offer services r fresh world (done none) = (done (err (offer_not_found r.offer_code)), world)
for_offer services r fresh world (done (some offer)) =
    let counts = count_attempts r.user_id r.phone_hmac (attempt_windows fresh.now) world.payments in
    unless_in_flight services r offer fresh world counts counts.in_flight_payment_id

abbrev pub unless_known : Services → Request → Fresh → World → Option Payment → Answer
unless_known services r fresh world (some existing) =
    replay services existing r.request_hash r.phone fresh.collected_at world
unless_known services r fresh world none =
    for_offer services r fresh world (find_offer r.offer_code world.billing)

unfoldable pub initiate_checked : Services → Request → Fresh → World → Answer
initiate_checked services r fresh world =
    unless_known services r fresh world (find_by_idempotency_key r.user_id r.key world.payments)

abbrev pub with_phone :
    Services
    → InitiatePaymentInput
    → PaymentProvider
    → (key : List ℕ) → Fresh
    → World
    → Option (List ℕ)
    → Answer
with_phone services input provider key fresh world none = (done (err invalid_payment_phone), world)
with_phone services input provider key fresh world (some phone) =
    let phone_hmac = services.key_of phone in
    initiate_checked services
      (record {
        user_id = input.user_id;
        offer_code = input.offer_code;
        provider = provider;
        key = key;
        phone = phone;
        phone_hmac = phone_hmac;
        request_hash = services.idempotency_hash_of input.offer_code phone_hmac;
      })
      fresh world

abbrev pub with_key :
    Services → InitiatePaymentInput → PaymentProvider → Fresh → World → Option (List ℕ) → Answer
with_key services input provider fresh world none = (done (err invalid_idempotency_key), world)
with_key services input provider fresh world (some key) =
    with_phone services input provider key fresh world (of input.phone_number)

abbrev pub with_provider :
    Services → InitiatePaymentInput → Fresh → World → Option PaymentProvider → Answer
with_provider services input fresh world none = (done (err payments_disabled), world)
with_provider services input fresh world (some provider) =
    with_key services input provider fresh world (idempotency_key_from input.idempotency_key)

unfoldable pub initiate : Services → InitiatePaymentInput → Fresh → World → Answer
initiate services input fresh world = with_provider services input fresh world services.provider
