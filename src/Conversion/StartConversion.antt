-- ===== src/Conversion/StartConversion.antt =====
-- conversion/application/use-cases/start-conversion.use-case.ts, with the adapter of billing
-- (infrastructure/billing/billing-quota.adapter.ts). What the document module answers, the clock,
-- the identifiers and the queue are arguments.
use voxkivre_backend.Prelude.{
  ℕ, leb, Bool, true, false, Option, none, some, Outcome, done, thrown, ◌>>=◌, with_transaction,
  Result, ok, err, Fault, conversion_conflict, range_error, check_violation, unique_violation,
  broken_invariant, unavailable, if◌then◌else◌,
}
use voxkivre_backend.Shared.Text.{Text}
use voxkivre_backend.Billing.Units.{VoiceTier}
use voxkivre_backend.Billing.UnitsLedger.{UnitsReservation}
use voxkivre_backend.Billing.ReserveQuota.{
  QuotaPolicy, ReserveQuotaInput, ReserveError, reserve_quota,
}
use voxkivre_backend.Conversion.Status.{
  queued, same_status, Voice, default_voice_id, find_voice, Conversion, new_queued_conversion,
}
use voxkivre_backend.Conversion.Store.{World, Job, insert}
use voxkivre_backend.Conversion.Store.Reads.{find_active, or_else}
use voxkivre_backend.Conversion.Jobs.{schedule_preparation}

pub record StartConversionInput : Type 0 where
  pub owner_id : ℕ
  pub document_id : ℕ
  pub voice_id : Option Text

-- What the document module says of a text; the status of the document is only passed on.
pub record SourceText : Type 0 where
  pub document_id : ℕ
  pub owner_id : ℕ
  pub text_ready : Bool
  pub char_count : ℕ
  pub text_revision : ℕ
  pub review_pending : Bool

pub data StartError : Type 0 where
  invalid_voice : (requested : Text) → StartError
  source_document_not_found : (document_id : ℕ) → StartError
  source_text_not_ready : (document_id : ℕ) → StartError
  source_text_review_required : (document_id : ℕ) → StartError
  invalid_conversion_text : (document_id : ℕ) → StartError
  quota_refused : ReserveError → StartError

-- The identifier of the conversion, the time, the identifier of a row of the journal of credits,
-- the policy on quotas, and the jobs that the queue takes.
pub record Launching : Type 0 where
  pub id : ℕ
  pub now : ℕ
  pub entry_id : ℕ
  pub policy : QuotaPolicy
  pub accepts : Job → Bool

abbrev pub quota_input : Conversion → VoiceTier → ReserveQuotaInput
quota_input c tier = record {
  reservation_id = c.id;
  user_id = c.owner_id;
  chars = c.reserved_chars;
  tier = tier;
}

abbrev pub insert_if_reserved :
    Conversion
    → Result UnitsReservation ReserveError
    → World
    → Outcome (Result (Unit {0}) ReserveError × World)
insert_if_reserved c (err e) w = done (err e, w)
insert_if_reserved c (ok reservation) w = do
  rows ← insert c w.conversions
  done (ok tt, record w { conversions = rows })

-- The callback of `withTransaction`: the reservation of the quota and the conversion.
unfoldable pub reserve_and_insert :
    Launching → VoiceTier → Conversion → World → Outcome (Result (Unit {0}) ReserveError × World)
reserve_and_insert launching tier c w = do
  (reserved, db) ←
      reserve_quota launching.policy (quota_input c tier) launching.now launching.entry_id w.billing
  insert_if_reserved c reserved (record w { billing = db })

-- A conversion that another launch has inserted.
abbrev pub winner_or : Option Conversion → World → Outcome (Result Conversion StartError) × World
winner_or none w = (thrown conversion_conflict, w)
winner_or (some winner) w = (done (ok winner), w)

abbrev pub is_conflict : Fault → Bool
is_conflict conversion_conflict = true
is_conflict range_error = false
is_conflict check_violation = false
is_conflict unique_violation = false
is_conflict broken_invariant = false
is_conflict unavailable = false

abbrev pub concluded :
    Launching
    → Conversion
    → Outcome (Result (Unit {0}) ReserveError) × World
    → Outcome (Result Conversion StartError) × World
concluded launching c (thrown e, w) =
    if is_conflict e
    then winner_or (find_active c.document_id c.voice_id c.text_revision w) w
    else (thrown e, w)
concluded launching c (done (err e), w) = (done (err (quota_refused e)), w)
concluded launching c (done (ok _), w) =
    (done (ok c), (schedule_preparation launching.accepts c.id w).1)

unfoldable pub launch :
    Launching → VoiceTier → Conversion → World → Outcome (Result Conversion StartError) × World
launch launching tier c w =
    concluded launching c (with_transaction (reserve_and_insert launching tier c) w)

abbrev pub resume : Launching → Conversion → World → Conversion × World
resume launching existing w =
    if same_status existing.status queued
    then (existing, (schedule_preparation launching.accepts existing.id w).1)
    else (existing, w)

abbrev pub conversion_for : Launching → StartConversionInput → Voice → SourceText → Conversion
conversion_for launching input voice source = new_queued_conversion (record {
  id = launching.id;
  owner_id = input.owner_id;
  document_id = source.document_id;
  voice_id = voice.id;
  text_revision = source.text_revision;
  reserved_chars = source.char_count;
  now = launching.now;
})

-- After `findActive`, which may have read the table earlier than what follows.
unfoldable pub resume_or_launch :
    Launching
    → StartConversionInput
    → Voice
    → SourceText
    → Option Conversion
    → World
    → Outcome (Result Conversion StartError) × World
unfolding launch
resume_or_launch launching input voice source (some existing) w =
    let (c, w') = resume launching existing w in (done (ok c), w')
resume_or_launch launching input voice source none w =
    launch launching voice.tier (conversion_for launching input voice source) w

-- `seen` is the state at the time of `findActive`, `w` the one of the transaction.
abbrev pub for_source :
    Launching
    → StartConversionInput
    → Voice
    → Option SourceText
    → (seen w : World) → Outcome (Result Conversion StartError) × World
for_source launching input voice none seen w =
    (done (err (source_document_not_found input.document_id)), w)
for_source launching input voice (some source) seen w =
    if source.text_ready
    then if source.review_pending
      then (done (err (source_text_review_required source.document_id)), w)
      else if leb source.char_count 0
      then (done (err (invalid_conversion_text source.document_id)), w)
      else resume_or_launch launching input voice source
          (find_active source.document_id voice.id source.text_revision seen) w
    else (done (err (source_text_not_ready source.document_id)), w)

abbrev pub for_voice :
    Launching
    → StartConversionInput
    → (requested : Text) → Option Voice
    → Option SourceText
    → (seen w : World) → Outcome (Result Conversion StartError) × World
for_voice launching input requested none source seen w = (done (err (invalid_voice requested)), w)
for_voice launching input requested (some voice) source seen w =
    for_source launching input voice source seen w

-- Between the read of the active conversion and the transaction, others may write: `seen` and `w`
-- are two states.
unfoldable pub start_conversion :
    Launching
    → StartConversionInput
    → Option SourceText
    → (seen w : World) → Outcome (Result Conversion StartError) × World
unfolding resume_or_launch
start_conversion launching input source seen w =
    let requested = or_else input.voice_id default_voice_id in
    for_voice launching input requested (find_voice requested) source seen w
