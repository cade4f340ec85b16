-- ===== src/Conversion/Status.antt =====
-- conversion/domain: the states of a conversion, its entities and the voices.
use voxkivre_backend.Prelude.{ℕ, ◌==◌, ◌||◌, Bool, List, [], ◌∷◌, Option, none, find}
use voxkivre_backend.Shared.Text.{Text, codes, same_text}
use voxkivre_backend.Conversion.Ssml.{SegmentWord}
use voxkivre_backend.Billing.Units.{VoiceTier, standard, natural}

pub data ConversionStatus : Type 0 where
  queued preparing synthesizing synthesized ready failed : ConversionStatus

abbrev pub status_code : ConversionStatus → ℕ
status_code queued = 0
status_code preparing = 1
status_code synthesizing = 2
status_code synthesized = 3
status_code ready = 4
status_code failed = 5

abbrev pub same_status : ConversionStatus → ConversionStatus → Bool
same_status s t = status_code s == status_code t

-- `IN_PROGRESS_STATUSES.includes`
abbrev pub in_progress : ConversionStatus → Bool
in_progress s = same_status s queued || (same_status s preparing || same_status s synthesizing)

pub data ConversionFailureReason : Type 0 where
  text_changed source_unavailable empty_text tts_rejected internal : ConversionFailureReason

pub record Voice : Type 0 where
  pub id : Text
  pub tier : VoiceTier

-- The labels, genders and language codes are only shown.
abbrev pub voices : List Voice
voices =
    record { id = codes "fr-f1"; tier = natural }
    ∷ record { id = codes "fr-m1"; tier = natural }
    ∷ record { id = codes "fr-f2"; tier = standard }
    ∷ record { id = codes "fr-m2"; tier = standard }
    ∷ []

abbrev pub default_voice_id : Text
default_voice_id = codes "fr-f2"

unfoldable pub find_voice : Text → Option Voice
find_voice raw = find (λ (voice : Voice). same_text voice.id raw) voices

pub record Conversion : Type 0 where
  pub id : ℕ
  pub owner_id : ℕ
  pub document_id : ℕ
  pub voice_id : Text
  pub text_revision : ℕ
  pub status : ConversionStatus
  pub reserved_chars : ℕ
  pub segment_count : Option ℕ
  pub part_count : Option ℕ
  pub failure_reason : Option ConversionFailureReason
  pub created_at : ℕ
  pub updated_at : ℕ
  pub completed_at : Option ℕ

pub record NewConversion : Type 0 where
  pub id : ℕ
  pub owner_id : ℕ
  pub document_id : ℕ
  pub voice_id : Text
  pub text_revision : ℕ
  pub reserved_chars : ℕ
  pub now : ℕ

unfoldable pub new_queued_conversion : NewConversion → Conversion
new_queued_conversion input = record {
  id = input.id;
  owner_id = input.owner_id;
  document_id = input.document_id;
  voice_id = input.voice_id;
  text_revision = input.text_revision;
  status = queued;
  reserved_chars = input.reserved_chars;
  segment_count = none;
  part_count = none;
  failure_reason = none;
  created_at = input.now;
  updated_at = input.now;
  completed_at = none;
}

pub record PreparedSegment : Type 0 where
  pub index : ℕ
  pub ssml : Text
  pub words : List SegmentWord
  pub char_count : ℕ
  pub fingerprint : Text
  pub part_index : ℕ
  pub first_word_index : ℕ

pub record SegmentAudio : Type 0 where
  pub audio_key : Text
  pub timepoints : List (Option ℕ)
  pub duration_ms : ℕ
  pub cache_hit : Bool

pub record ConversionSegment : Type 0 where
  pub conversion_id : ℕ
  pub prepared : PreparedSegment
  pub audio : Option SegmentAudio

pub record DeliveredFile : Type 0 where
  pub key : Text
  pub bytes : ℕ
  pub sha256 : Text

pub record PageStart : Type 0 where
  pub page : ℕ
  pub word_index : ℕ

pub record AssembledPart : Type 0 where
  pub audio : DeliveredFile
  pub vtt : DeliveredFile
  pub duration_ms : ℕ
  pub word_count : ℕ
  pub page_starts : List PageStart

pub record ConversionPart : Type 0 where
  pub conversion_id : ℕ
  pub index : ℕ
  pub first_segment : ℕ
  pub last_segment : ℕ
  pub first_word_index : ℕ
  pub assembled : Option AssembledPart
