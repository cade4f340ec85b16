-- ===== src/Payment/Tests.antt =====
-- The theorems on payments at concrete inputs.
use mathlib.Core.List.{Perm}
use voxkivre_backend.Prelude.{
  ℕ, ◌+◌, ◌≡◌, ◌≤◌, ◌-◌, refl, ◌⊎◌, true, List, [], ◌∷◌, none, some, done, ok, Result, All, pos,
  length, with_transaction, ◌++◌, select,
}
use voxkivre_backend.Billing.System.{initial}
use voxkivre_backend.Billing.Tests.{offers}
use voxkivre_backend.Payment.MobileMoneyNumber.{of, to_e164, is_local_mobile, is_cameroon_mobile}
use voxkivre_backend.Payment.MobileMoneyNumber.Shape.{IsNormal, of_lem}
use voxkivre_backend.Payment.Status.{
  PaymentStatus, campay, same_status, sweep, webhook, Payment, Target, to_upper_case,
  TransactionStatus, integer, ProviderTransaction,
}
use voxkivre_backend.Payment.Settlement.{
  succeed, carries, payment_currency, settle_successful, settlement_for, is_amount_matching,
}
use voxkivre_backend.Payment.Settlement.Decisions.{IsOpen, settlement_for-succeed}
use voxkivre_backend.Payment.Store.{World, row_of, insert, complete}
use voxkivre_backend.Payment.Settler.{
  PaymentUnavailable, Stamps, waiting, succeed_in_transaction, settle_with_reference, settle,
}
use voxkivre_backend.Payment.Sweep.{
  Gateway, handle_notification, expired, expire, conclude_sweep, reconcile,
}
use voxkivre_backend.Payment.Policy.{is_expiry_due}
use voxkivre_backend.Payment.Initiate.{
  Services, Fresh, Request, InitiatePaymentInput, initiate, initiate_checked,
}
use voxkivre_backend.Payment.Lifecycle.Calls.{Follows}
use voxkivre_backend.Payment.Lifecycle.UseCases.{
  handle_notification-Follows, reconcile-Follows, initiate-Follows,
}
use voxkivre_backend.Payment.System.{IsRead, Step, Reaches, here, then_}
use voxkivre_backend.Payment.System.Paid.{IsPaid}
use voxkivre_backend.Payment.System.Succeeds.{Reaches-IsPaid}
use voxkivre_backend.Payment.System.Refines.{settle_with_reference-Reaches, reconcile-Reaches}
use voxkivre_backend.Payment.Replay.{IsFinal, final_outcome, settle_with_reference-final}
use voxkivre_backend.Payment.Expiry.{ttl_of, reconcile-expired}
use voxkivre_backend.Payment.Batch.{Moment, reconcile_pending, reconcile_pending-Follows}
use voxkivre_backend.Payment.Store.{list_pending_created_before, payments_of}
use voxkivre_backend.Payment.Store.Listing.{
  is_overdue, AreOldestFirst, list_pending_created_before_lem,
}
use voxkivre_backend.Payment.System.Notified.{handle_notification-Reaches}
use voxkivre_backend.Payment.Limits.{IsAdmitted, initiate_checked-limits}

-- +237 699 00 00 12
abbrev phone : List ℕ
phone = 43 ∷ 50 ∷ 51 ∷ 55 ∷ 54 ∷ 57 ∷ 57 ∷ 48 ∷ 48 ∷ 48 ∷ 48 ∷ 49 ∷ 50 ∷ []

abbrev as_typed : List ℕ
as_typed = 54 ∷ 57 ∷ 57 ∷ 32 ∷ 48 ∷ 48 ∷ 45 ∷ 48 ∷ 48 ∷ 46 ∷ 49 ∷ 50 ∷ []

accepted : of as_typed ≡ some phone
unfolding of to_e164 is_local_mobile is_cameroon_mobile
accepted = refl

of_lem_example : IsNormal phone × (length phone ≡ 13) × (of phone ≡ some phone)
of_lem_example = of_lem as_typed phone accepted

abbrev fresh_at : ℕ
fresh_at = 200000000

abbrev target : Target ℕ
target = record {
  id = 31;
  user_id = 7;
  offer_code = 2;
  amount_xaf = 500;
  idempotency_key = 107 ∷ [];
  request_hash = 99;
  provider = campay;
  external_reference = 97 ∷ 98 ∷ [];
  phone_hmac = 42;
  phone_suffix = 49 ∷ 50 ∷ [];
}

abbrev asked : Payment
asked = record {
  target = target;
  provider_reference = none;
  status = PaymentStatus.pending;
  confirmed_via = none;
  failure_code = none;
  created_at = fresh_at;
  updated_at = fresh_at;
  completed_at = none;
}

-- The provider spells the reference AB.
abbrev paid_for : ProviderTransaction
paid_for = record {
  reference = 77;
  external_reference = some (65 ∷ 66 ∷ []);
  status = TransactionStatus.successful;
  amount = integer (pos 500);
  currency = 120 ∷ 97 ∷ 102 ∷ [];
}

decided : settlement_for asked paid_for ≡ succeed PaymentStatus.pending
unfolding settlement_for settle_successful is_amount_matching
decided = refl

settlement_for-succeed_example :
    (PaymentStatus.pending ≡ asked.status)
    × IsOpen asked.status
    × (carries asked.external_reference paid_for.external_reference ≡ true)
    × (paid_for.status ≡ TransactionStatus.successful)
    × (to_upper_case paid_for.currency ≡ payment_currency)
    × (paid_for.amount ≡ integer (pos 500))
settlement_for-succeed_example = settlement_for-succeed asked paid_for PaymentStatus.pending decided

abbrev empty_world : World
empty_world = record { payments = []; billing = initial offers }

abbrev asked_world : World
asked_world = record empty_world { payments = row_of asked ∷ [] }

abbrev at : Stamps
at = record {
  attached_at = 200060000;
  settled_at = 200060001;
  granted_at = 200060002;
  granted_id = 55;
}

abbrev paid_world : World
paid_world =
    (with_transaction (succeed_in_transaction asked PaymentStatus.pending webhook at) asked_world).1

inserted_once : insert asked [] ≡ done (true, row_of asked ∷ [])
unfolding insert
inserted_once = refl

asked_IsRead : IsRead asked asked_world
asked_IsRead = (row_of asked, refl, refl)

paid_history : Reaches empty_world paid_world
paid_history =
    then_ (Step.inserts asked true (row_of asked ∷ []) refl inserted_once)
      (then_ (Step.succeeds asked PaymentStatus.pending webhook at asked_IsRead) here)

Reaches-IsPaid_example : All (IsPaid paid_world.billing) paid_world.payments
Reaches-IsPaid_example = Reaches-IsPaid (initial offers) paid_world paid_history

abbrev gateway : Gateway ℕ
gateway = record {
  provider = some campay;
  get_transaction = λ reference. ok paid_for;
  verify_notification =
      λ payload. some (record { reference = payload; external_reference = some (97 ∷ 98 ∷ []) });
}

handle_notification-Reaches_example :
    Reaches asked_world (handle_notification gateway 77 at asked_world).1
handle_notification-Reaches_example =
    handle_notification-Reaches gateway 77 at (initial offers) asked_world
      (then_ (Step.inserts asked true (row_of asked ∷ []) refl inserted_once) here)

handle_notification-Follows_example :
    Follows asked_world (handle_notification gateway 77 at asked_world).1
handle_notification-Follows_example = handle_notification-Follows gateway at asked_world 77

abbrev still_waiting : ℕ → Result ProviderTransaction PaymentUnavailable
still_waiting reference = ok (record paid_for { status = TransactionStatus.pending })

reconcile-Follows_example :
    Follows asked_world (reconcile still_waiting asked at 200900000 200900001 asked_world).1
reconcile-Follows_example = reconcile-Follows still_waiting asked at 200900000 200900001 asked_world

reconcile-Reaches_example :
    Reaches asked_world (reconcile still_waiting asked at 200900000 200900001 asked_world).1
reconcile-Reaches_example =
    reconcile-Reaches still_waiting asked at 200900000 200900001 asked_world asked_IsRead

settle_with_reference-Reaches_example :
    Reaches asked_world (settle_with_reference asked 77 webhook at (ok paid_for) asked_world).1
settle_with_reference-Reaches_example =
    settle_with_reference-Reaches asked 77 webhook at (ok paid_for) asked_world asked_IsRead

abbrev expired_world : World
expired_world = (reconcile still_waiting asked at 200900000 200900001 asked_world).1

given_up :
    reconcile still_waiting asked at 200900000 200900001 asked_world ≡ (done expired, expired_world)
unfolding reconcile conclude_sweep settle expire is_expiry_due complete
given_up = refl

reconcile-expired_example :
    ((w₁ : World) × (settle asked sweep at still_waiting asked_world ≡ (done (ok waiting), w₁)))
    × (same_status asked.status PaymentStatus.pending ≡ true)
    × (ttl_of none ≤ 200900000 - fresh_at)
reconcile-expired_example =
    reconcile-expired still_waiting asked at 200900000 200900001 asked_world expired_world given_up

abbrev moment : Payment → Moment
moment payment = record { stamps = at; checked_at = 200900000; expired_at = 200900001 }

reconcile_pending-Follows_example :
    Follows asked_world (reconcile_pending still_waiting moment 200900000 asked_world).1
reconcile_pending-Follows_example =
    reconcile_pending-Follows still_waiting moment 200900000 asked_world

list_pending_created_before_lem_example :
    (rest : List Payment) × Perm
      (list_pending_created_before 200800000 100 asked_world.payments ++ rest)
      (select (is_overdue 200800000) (payments_of asked_world.payments))
    × AreOldestFirst (list_pending_created_before 200800000 100 asked_world.payments ++ rest)
    × (length (list_pending_created_before 200800000 100 asked_world.payments) ≤ 100)
    × ((length (list_pending_created_before 200800000 100 asked_world.payments) ≡ 100)
        ⊎ (rest ≡ []))
list_pending_created_before_lem_example =
    list_pending_created_before_lem 200800000 100 asked_world.payments

abbrev concluded : Payment
concluded = record asked {
  provider_reference = some 77;
  status = PaymentStatus.succeeded;
  completed_at = some 200060001;
}

settle_with_reference-final_example :
    settle_with_reference concluded 77 webhook at (ok paid_for) paid_world ≡ (
      done (ok (final_outcome PaymentStatus.succeeded true TransactionStatus.successful)),
      paid_world,
    )
settle_with_reference-final_example =
    settle_with_reference-final concluded 77 webhook at paid_for paid_world IsFinal.succeeded refl

abbrev services : Services
services = record {
  provider = some campay;
  collect = λ request. ok 77;
  key_of = λ number. 42;
  idempotency_hash_of = λ offer_code phone_hmac. offer_code + phone_hmac;
}

abbrev fresh : Fresh
fresh = record {
  now = fresh_at;
  collected_at = 200000005;
  id = 31;
  external_reference = 97 ∷ 98 ∷ [];
}

abbrev input : InitiatePaymentInput
input = record {
  user_id = 7;
  offer_code = 2;
  phone_number = as_typed;
  idempotency_key = 107 ∷ 101 ∷ 121 ∷ 45 ∷ 48 ∷ 48 ∷ 48 ∷ 49 ∷ [];
}

initiate-Follows_example : Follows empty_world (initiate services input fresh empty_world).1
initiate-Follows_example = initiate-Follows services input fresh empty_world

abbrev request : Request
request = record {
  user_id = 7;
  offer_code = 2;
  provider = campay;
  key = 107 ∷ [];
  phone = phone;
  phone_hmac = 42;
  request_hash = 44;
}

initiate_checked-limits_example :
    ((initiate_checked services request fresh empty_world).1 ≡ empty_world)
    ⊎ IsAdmitted request fresh empty_world
initiate_checked-limits_example = initiate_checked-limits services request fresh empty_world refl
