-- ===== src/Conversion/Store.antt =====
-- The tables of conversion (infrastructure/persistence/schema/conversion.schema.ts) and the
-- statements of conversion.drizzle-repository.ts that write them. A statement that breaks a
-- constraint of the schema throws; a transaction is one step.
pub mod Reads
pub mod Lists
use voxkivre_backend.Prelude.{
  ℕ, ◌+◌, ◌==◌, ltb, leb, ◌&&◌, ◌||◌, not, Bool, true, false, List, [], ◌∷◌, ◌++◌, length, map,
  Option, none, some, find, select, update, exists, all, Outcome, done, thrown, ◌>>=◌, require,
  check_violation, unique_violation, conversion_conflict, if◌then◌else◌,
}
use voxkivre_backend.Shared.Text.{Text, same_text}
use voxkivre_backend.Billing.Store.{Db}
use voxkivre_backend.Conversion.Ssml.{SegmentWord}
use voxkivre_backend.Conversion.PartPlan.{PlannedPart}
use voxkivre_backend.Conversion.Status.{
  ConversionStatus, queued, preparing, synthesizing, synthesized, ready, failed, same_status,
  in_progress, ConversionFailureReason, Conversion, PreparedSegment, SegmentAudio, AssembledPart,
  PageStart,
}

pub record SegmentRow : Type 0 where
  pub conversion_id : ℕ
  pub segment_index : ℕ
  pub ssml : Text
  pub words : List SegmentWord
  pub char_count : ℕ
  pub fingerprint : Text
  pub part_index : Option ℕ
  pub first_word_index : Option ℕ
  pub audio_key : Option Text
  pub timepoints : Option (List (Option ℕ))
  pub duration_ms : Option ℕ
  pub cache_hit : Option Bool
  pub synthesized_at : Option ℕ

pub record PartRow : Type 0 where
  pub conversion_id : ℕ
  pub part_index : ℕ
  pub first_segment : ℕ
  pub last_segment : ℕ
  pub first_word_index : ℕ
  pub audio_key : Option Text
  pub audio_bytes : Option ℕ
  pub audio_sha256 : Option Text
  pub vtt_key : Option Text
  pub vtt_bytes : Option ℕ
  pub vtt_sha256 : Option Text
  pub duration_ms : Option ℕ
  pub word_count : Option ℕ
  pub page_starts : Option (List PageStart)
  pub assembled_at : Option ℕ

-- A conversion row has the columns of the entity, and the data types of the status and of the
-- reason stand for the checks on them. A transaction may span the tables of billing.
pub data Job : Type 0 where
  prepare_conversion : (conversion : ℕ) → Job
  synthesize_segment : (conversion index : ℕ) → Job
  assemble_part : (conversion index : ℕ) (retry_key : Option ℕ) → Job

pub record World : Type 0 where
  pub conversions : List Conversion
  pub segments : List SegmentRow
  pub parts : List PartRow
  pub billing : Db
  -- those that the queue has accepted, the latest first
  pub jobs : List Job

-- `isNotNull`
abbrev pub is_set {ℓ} : {A : Type ℓ} → Option A → Bool
is_set none = false
is_set (some a) = true

abbrev pub is_index : Option ℕ → ℕ → Bool
is_index none i = false
is_index (some j) i = j == i

abbrev pub conversion_key : ℕ → Conversion → Bool
conversion_key id row = row.id == id

abbrev pub segment_of : ℕ → SegmentRow → Bool
segment_of id row = row.conversion_id == id

abbrev pub segment_key : (id index : ℕ) → SegmentRow → Bool
segment_key id index row = row.conversion_id == id && row.segment_index == index

abbrev pub part_of : ℕ → PartRow → Bool
part_of id row = row.conversion_id == id

abbrev pub part_key : (id index : ℕ) → PartRow → Bool
part_key id index row = row.conversion_id == id && row.part_index == index

-- The predicate of the partial unique index on (document, voice, revision), and of `findActive`.
abbrev pub is_active_for : (document : ℕ) (voice : Text) (revision : ℕ) → Conversion → Bool
is_active_for document voice revision row =
    (row.document_id == document)
    && (same_text row.voice_id voice)
    && (row.text_revision == revision)
    && not (same_status row.status failed)

-- The check comes before the indexes. A violation of the partial index, or of the primary key, is
-- reported as a conflict.
unfoldable pub insert : Conversion → List Conversion → Outcome (List Conversion)
insert c rows =
    if ltb 0 c.reserved_chars
    then if exists (conversion_key c.id) rows
        || (not (same_status c.status failed)
            && exists (is_active_for c.document_id c.voice_id c.text_revision) rows)
      then thrown conversion_conflict
      else done (c ∷ rows)
    else thrown check_violation

-- UPDATE … WHERE id = … AND status in …: whether a row was updated.
abbrev pub in_status : ℕ → (ConversionStatus → Bool) → Conversion → Bool
in_status id admits row = conversion_key id row && admits row.status

abbrev pub may_prepare : ConversionStatus → Bool
may_prepare s = same_status s queued || same_status s preparing

unfoldable pub mark_preparing : (id at : ℕ) → World → Bool × World
mark_preparing id at w = (
  exists (in_status id may_prepare) w.conversions,
  record w {
    conversions =
        update (in_status id may_prepare) (λ c. record c { status = preparing; updated_at = at })
          w.conversions;
  },
)

abbrev pub segment_row : ℕ → PreparedSegment → SegmentRow
segment_row id s = record {
  conversion_id = id;
  segment_index = s.index;
  ssml = s.ssml;
  words = s.words;
  char_count = s.char_count;
  fingerprint = s.fingerprint;
  part_index = some s.part_index;
  first_word_index = some s.first_word_index;
  audio_key = none;
  timepoints = none;
  duration_ms = none;
  cache_hit = none;
  synthesized_at = none;
}

-- INSERT INTO conversion_segments, a row at a time: the chunks of the source bound the size of a
-- request, and the transaction makes one statement of them.
unfoldable pub insert_segments :
    ℕ → List PreparedSegment → List SegmentRow → Outcome (List SegmentRow)
insert_segments id [] rows = done rows
insert_segments id (s ∷ segments) rows =
    if exists (segment_key id s.index) rows
    then thrown unique_violation
    else insert_segments id segments (rows ++ (segment_row id s ∷ []))

-- `firstWordOf.get(first) ?? 0`: the last segment of an index is the one that the map keeps.
abbrev pub first_word_of : List PreparedSegment → ℕ → ℕ → ℕ
first_word_of [] other first = other
first_word_of (s ∷ segments) other first =
    first_word_of segments (if s.index == first then s.first_word_index else other) first

abbrev pub part_row : (id : ℕ) → List PreparedSegment → PlannedPart → PartRow
part_row id segments p = record {
  conversion_id = id;
  part_index = p.index;
  first_segment = p.first_segment;
  last_segment = p.last_segment;
  first_word_index = first_word_of segments 0 p.first_segment;
  audio_key = none;
  audio_bytes = none;
  audio_sha256 = none;
  vtt_key = none;
  vtt_bytes = none;
  vtt_sha256 = none;
  duration_ms = none;
  word_count = none;
  page_starts = none;
  assembled_at = none;
}

unfoldable pub insert_parts :
    ℕ → List PreparedSegment → List PlannedPart → List PartRow → Outcome (List PartRow)
insert_parts id segments [] rows = done rows
insert_parts id segments (p ∷ parts) rows =
    if leb p.first_segment p.last_segment
    then if exists (part_key id p.index) rows
      then thrown unique_violation
      else insert_parts id segments parts (rows ++ (part_row id segments p ∷ []))
    else thrown check_violation

abbrev pub prepared_row : (segment_count part_count at : ℕ) → Conversion → Conversion
prepared_row segment_count part_count at c = record c {
  status = synthesizing;
  segment_count = some segment_count;
  part_count = some part_count;
  updated_at = at;
}

-- The rows of a plan, once the status has moved.
unfoldable pub write_plan :
    ℕ → List PreparedSegment → List PlannedPart → (at : ℕ) → World → Outcome (Bool × World)
unfolding insert_segments insert_parts
write_plan id segments parts at w = do
  segment_rows ← insert_segments id segments w.segments
  part_rows ← insert_parts id segments parts w.parts
  done (
    true,
    record {
      conversions =
          update (in_status id (same_status preparing))
            (prepared_row (length segments) (length parts) at) w.conversions;
      segments = segment_rows;
      parts = part_rows;
      billing = w.billing;
      jobs = w.jobs;
    },
  )

unfoldable pub complete_preparation :
    ℕ → List PreparedSegment → List PlannedPart → (at : ℕ) → World → Outcome (Bool × World)
unfolding write_plan
complete_preparation id segments parts at w =
    if exists (in_status id (same_status preparing)) w.conversions
    then write_plan id segments parts at w
    else done (false, w)

-- UPDATE conversions SET updated_at: recent activity.
abbrev pub touch : (id at : ℕ) → List Conversion → List Conversion
touch id at = update (conversion_key id) (λ c. record c { updated_at = at })

abbrev pub unsynthesized_key : (id index : ℕ) → SegmentRow → Bool
unsynthesized_key id index row = segment_key id index row && not (is_set row.audio_key)

abbrev pub synthesized_row : SegmentAudio → (at : ℕ) → SegmentRow → SegmentRow
synthesized_row audio at row = record row {
  audio_key = some audio.audio_key;
  timepoints = some audio.timepoints;
  duration_ms = some audio.duration_ms;
  cache_hit = some audio.cache_hit;
  synthesized_at = some at;
}

unfoldable pub complete_segment : (id index : ℕ) → SegmentAudio → (at : ℕ) → World → Bool × World
complete_segment id index audio at w =
    if exists (unsynthesized_key id index) w.segments
    then (
      true,
      record w {
        segments = update (unsynthesized_key id index) (synthesized_row audio at) w.segments;
        conversions = touch id at w.conversions;
      },
    )
    else (false, w)

-- A segment of the conversion that waits for its audio.
abbrev pub is_pending : ℕ → SegmentRow → Bool
is_pending id row = segment_of id row && not (is_set row.audio_key)

abbrev pub all_synthesized_of : ℕ → World → Conversion → Bool
all_synthesized_of id w row =
    in_status id (same_status synthesizing) row && not (exists (is_pending id) w.segments)

unfoldable pub complete_if_all_segments_synthesized : (id at : ℕ) → World → Bool × World
complete_if_all_segments_synthesized id at w = (
  exists (all_synthesized_of id w) w.conversions,
  record w {
    conversions =
        update (all_synthesized_of id w) (λ c. record c { status = synthesized; updated_at = at })
          w.conversions;
  },
)

pub record FailedConversionCharge : Type 0 where
  pub reserved_chars : ℕ
  pub consumed_chars : ℕ

abbrev pub chars_of : List SegmentRow → ℕ
chars_of [] = 0
chars_of (row ∷ rows) = row.char_count + chars_of rows

-- The characters of the segments of the conversion that have their audio.
unfoldable pub consumed_chars : ℕ → List SegmentRow → ℕ
consumed_chars id rows = chars_of (select (λ row. segment_of id row && is_set row.audio_key) rows)

abbrev pub failed_row : ConversionFailureReason → (at : ℕ) → Conversion → Conversion
failed_row reason at c = record c { status = failed; failure_reason = some reason; updated_at = at }

abbrev pub charge_of : ℕ → World → Option Conversion → Option FailedConversionCharge
charge_of id w none = none
charge_of id w (some c) =
    some
      (record { reserved_chars = c.reserved_chars; consumed_chars = consumed_chars id w.segments })

unfoldable pub mark_failed :
    ℕ → ConversionFailureReason → (at : ℕ) → World → Option FailedConversionCharge × World
unfolding consumed_chars
mark_failed id reason at w = (
  charge_of id w (find (in_status id in_progress) w.conversions),
  record w { conversions = update (in_status id in_progress) (failed_row reason at) w.conversions },
)

abbrev pub unassembled_key : (id index : ℕ) → PartRow → Bool
unassembled_key id index row = part_key id index row && not (is_set row.assembled_at)

abbrev pub assembled_row : AssembledPart → (at : ℕ) → PartRow → PartRow
assembled_row part at row = record row {
  audio_key = some part.audio.key;
  audio_bytes = some part.audio.bytes;
  audio_sha256 = some part.audio.sha256;
  vtt_key = some part.vtt.key;
  vtt_bytes = some part.vtt.bytes;
  vtt_sha256 = some part.vtt.sha256;
  duration_ms = some part.duration_ms;
  word_count = some part.word_count;
  page_starts = some part.page_starts;
  assembled_at = some at;
}

unfoldable pub complete_part : (id index : ℕ) → AssembledPart → (at : ℕ) → World → Bool × World
complete_part id index part at w =
    if exists (unassembled_key id index) w.parts
    then (
      true,
      record w {
        parts = update (unassembled_key id index) (assembled_row part at) w.parts;
        conversions = touch id at w.conversions;
      },
    )
    else (false, w)

abbrev pub is_unassembled : ℕ → PartRow → Bool
is_unassembled id row = part_of id row && not (is_set row.assembled_at)

abbrev pub all_assembled_of : ℕ → World → Conversion → Bool
all_assembled_of id w row =
    in_status id (same_status synthesized) row && not (exists (is_unassembled id) w.parts)

unfoldable pub mark_ready_if_all_parts_assembled : (id at : ℕ) → World → Bool × World
mark_ready_if_all_parts_assembled id at w = (
  exists (all_assembled_of id w) w.conversions,
  record w {
    conversions =
        update (all_assembled_of id w)
          (λ c. record c { status = ready; updated_at = at; completed_at = some at }) w.conversions;
  },
)
