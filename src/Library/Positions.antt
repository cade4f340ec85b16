-- ===== src/Library/Positions.antt =====
-- The positions of readers in library: domain/services/reading-position-policy.ts,
-- infrastructure/persistence/reading-position.drizzle-repository.ts, and the use cases that save
-- and read one. The deletion of a conversion, which takes its position with it, is not followed.
pub mod Newest
use voxkivre_backend.Prelude.{
  ℕ, ◌+◌, ◌*◌, ◌==◌, ltb, leb, ◌&&◌, Bool, true, false, List, [], ◌∷◌, Option, none, some, find,
  select, update, exists, Outcome, done, thrown, broken_invariant, Result, ok, err, if◌then◌else◌,
}
use voxkivre_backend.Conversion.Status.{ConversionStatus}
use voxkivre_backend.Conversion.Store as Conversions
use voxkivre_backend.Conversion.Store.Lists.{member}
use voxkivre_backend.Conversion.Overview.{ConversionOverview, overview_for_owner}

abbrev pub clock_skew_tolerance_ms : ℕ
clock_skew_tolerance_ms = 5 * 60 * 1000

abbrev pub audio_end_tolerance_ms : ℕ
audio_end_tolerance_ms = 1000

pub record ReadingPosition : Type 0 where
  pub conversion_id : ℕ
  pub owner_id : ℕ
  pub word_index : ℕ
  pub audio_ms : ℕ
  pub recorded_at : ℕ
  pub updated_at : ℕ

pub record SavedReadingPosition : Type 0 where
  pub position : ReadingPosition
  pub applied : Bool

pub record SaveReadingPositionInput : Type 0 where
  pub owner_id : ℕ
  pub conversion_id : ℕ
  pub word_index : ℕ
  pub audio_ms : ℕ
  pub recorded_at : ℕ

pub data PositionError : Type 0 where
  conversion_not_found : (conversion : ℕ) → PositionError
  conversion_not_ready : (conversion : ℕ) → ConversionStatus → PositionError
  word_out_of_range : (word_index playable : ℕ) → PositionError
  audio_out_of_range : (audio_ms playable : ℕ) → PositionError
  recorded_in_future : (recorded_at : ℕ) → PositionError
  reading_position_not_found : (conversion : ℕ) → PositionError

unfoldable pub validate_reading_position :
    SaveReadingPositionInput
    → (playable_word_count playable_duration_ms now : ℕ)
    → Result SaveReadingPositionInput PositionError
validate_reading_position input playable_word_count playable_duration_ms now =
    if leb playable_word_count input.word_index
    then err (word_out_of_range input.word_index playable_word_count)
    else if ltb (playable_duration_ms + audio_end_tolerance_ms) input.audio_ms
    then err (audio_out_of_range input.audio_ms playable_duration_ms)
    else if ltb (now + clock_skew_tolerance_ms) input.recorded_at
    then err (recorded_in_future input.recorded_at)
    else ok input

abbrev pub position_key : ℕ → ReadingPosition → Bool
position_key conversion row = row.conversion_id == conversion

-- `setWhere`, on the row of the conversion.
abbrev pub is_older : ReadingPosition → ReadingPosition → Bool
is_older position row =
    position_key position.conversion_id row
    && (ltb row.recorded_at position.recorded_at && row.owner_id == position.owner_id)

abbrev pub overwritten : ReadingPosition → ReadingPosition → ReadingPosition
overwritten position row = record row {
  word_index = position.word_index;
  audio_ms = position.audio_ms;
  recorded_at = position.recorded_at;
  updated_at = position.updated_at;
}

abbrev pub owned_key : (conversion owner : ℕ) → ReadingPosition → Bool
owned_key conversion owner row = position_key conversion row && row.owner_id == owner

unfoldable pub find_for_owner :
    (conversion owner : ℕ) → List ReadingPosition → Option ReadingPosition
find_for_owner conversion owner rows = find (owned_key conversion owner) rows

-- INSERT … ON CONFLICT DO UPDATE … WHERE: the row that was written, and the table.
abbrev pub upsert :
    ReadingPosition → List ReadingPosition → Option ReadingPosition × List ReadingPosition
upsert position rows =
    if exists (position_key position.conversion_id) rows
    then (
      elim (find (is_older position) rows) [
        | none ↦ none
        | some row ↦ some (overwritten position row)
      ],
      update (is_older position) (overwritten position) rows,
    )
    else (some position, position ∷ rows)

abbrev pub kept : Option ReadingPosition → Outcome SavedReadingPosition
kept none = thrown broken_invariant
kept (some current) = done (record { position = current; applied = false })

abbrev pub saved :
    ReadingPosition
    → Option ReadingPosition × List ReadingPosition
    → Outcome SavedReadingPosition × List ReadingPosition
saved position (some row, rows) = (done (record { position = row; applied = true }), rows)
saved position (none, rows) =
    (kept (find_for_owner position.conversion_id position.owner_id rows), rows)

unfoldable pub save_if_newer :
    ReadingPosition → List ReadingPosition → Outcome SavedReadingPosition × List ReadingPosition
save_if_newer position rows = saved position (upsert position rows)

unfoldable pub find_for_conversions :
    (owner : ℕ) → (conversions : List ℕ) → List ReadingPosition → List ReadingPosition
find_for_conversions owner [] rows = []
find_for_conversions owner (c ∷ cs) rows =
    select (λ row. row.owner_id == owner && member (c ∷ cs) row.conversion_id) rows

abbrev pub position_of : SaveReadingPositionInput → (now : ℕ) → ReadingPosition
position_of input now = record {
  conversion_id = input.conversion_id;
  owner_id = input.owner_id;
  word_index = input.word_index;
  audio_ms = input.audio_ms;
  recorded_at = input.recorded_at;
  updated_at = now;
}

abbrev pub as_result :
    Outcome SavedReadingPosition × List ReadingPosition
    → Outcome (Result SavedReadingPosition PositionError) × List ReadingPosition
as_result (done answer, rows) = (done (ok answer), rows)
as_result (thrown e, rows) = (thrown e, rows)

abbrev pub save_valid :
    Result SaveReadingPositionInput PositionError
    → SaveReadingPositionInput
    → (now : ℕ) → List ReadingPosition
    → Outcome (Result SavedReadingPosition PositionError) × List ReadingPosition
save_valid (err e) input now rows = (done (err e), rows)
save_valid (ok _) input now rows = as_result (save_if_newer (position_of input now) rows)

abbrev pub save_for :
    Option ConversionOverview
    → SaveReadingPositionInput
    → (now : ℕ) → List ReadingPosition
    → Outcome (Result SavedReadingPosition PositionError) × List ReadingPosition
save_for none input now rows = (done (err (conversion_not_found input.conversion_id)), rows)
save_for (some c) input now rows =
    if c.playable_word_count == 0
    then (done (err (conversion_not_ready input.conversion_id c.status)), rows)
    else save_valid
        (validate_reading_position input c.playable_word_count c.playable_duration_ms now) input now
        rows

-- The overview of the conversion is read from the tables of that module.
unfoldable pub save_reading_position :
    SaveReadingPositionInput
    → (now : ℕ) → Conversions.World
    → List ReadingPosition
    → Outcome (Result SavedReadingPosition PositionError) × List ReadingPosition
save_reading_position input now w rows =
    save_for (overview_for_owner input.conversion_id input.owner_id w) input now rows

abbrev pub position_found : ℕ → Option ReadingPosition → Result ReadingPosition PositionError
position_found conversion none = err (reading_position_not_found conversion)
position_found conversion (some position) = ok position

unfoldable pub get_reading_position :
    (owner conversion : ℕ) → List ReadingPosition → Result ReadingPosition PositionError
get_reading_position owner conversion rows =
    position_found conversion (find_for_owner conversion owner rows)
