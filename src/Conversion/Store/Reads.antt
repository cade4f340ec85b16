-- ===== src/Conversion/Store/Reads.antt =====
-- The statements of conversion.drizzle-repository.ts that read one row.
use voxkivre_backend.Prelude.{ℕ, ◌==◌, ◌&&◌, not, Bool, false, [], Option, none, some, find, exists}
use voxkivre_backend.Shared.Text.{Text}
use voxkivre_backend.Conversion.Status.{
  Conversion, ConversionSegment, SegmentAudio, ConversionPart, AssembledPart,
}
use voxkivre_backend.Conversion.Store.{
  SegmentRow, PartRow, World, is_index, conversion_key, segment_of, segment_key, part_key,
  is_active_for, is_set,
}

-- `column ?? other`
abbrev pub or_else {ℓ} : {A : Type ℓ} → Option A → A → A
or_else none other = other
or_else (some a) other = a

abbrev pub audio_of : Option Text → SegmentRow → Option SegmentAudio
audio_of none row = none
audio_of (some key) row = some (record {
  audio_key = key;
  timepoints = or_else row.timepoints [];
  duration_ms = or_else row.duration_ms 0;
  cache_hit = or_else row.cache_hit false;
})

abbrev pub to_segment : SegmentRow → ConversionSegment
to_segment row = record {
  conversion_id = row.conversion_id;
  prepared = record {
    index = row.segment_index;
    ssml = row.ssml;
    words = row.words;
    char_count = row.char_count;
    fingerprint = row.fingerprint;
    part_index = or_else row.part_index 0;
    first_word_index = or_else row.first_word_index 0;
  };
  audio = audio_of row.audio_key row;
}

abbrev pub assembled_of : Option ℕ → Option Text → Option Text → PartRow → Option AssembledPart
assembled_of none audio vtt row = none
assembled_of (some at) none vtt row = none
assembled_of (some at) (some audio) none row = none
assembled_of (some at) (some audio) (some vtt) row = some (record {
  audio = record {
    key = audio;
    bytes = or_else row.audio_bytes 0;
    sha256 = or_else row.audio_sha256 [];
  };
  vtt = record { key = vtt; bytes = or_else row.vtt_bytes 0; sha256 = or_else row.vtt_sha256 [] };
  duration_ms = or_else row.duration_ms 0;
  word_count = or_else row.word_count 0;
  page_starts = or_else row.page_starts [];
})

abbrev pub to_part : PartRow → ConversionPart
to_part row = record {
  conversion_id = row.conversion_id;
  index = row.part_index;
  first_segment = row.first_segment;
  last_segment = row.last_segment;
  first_word_index = row.first_word_index;
  assembled = assembled_of row.assembled_at row.audio_key row.vtt_key row;
}

unfoldable pub find_active :
    (document : ℕ) (voice : Text) (revision : ℕ) → World → Option Conversion
find_active document voice revision w = find (is_active_for document voice revision) w.conversions

unfoldable pub find_by_id_for_owner : (id owner : ℕ) → World → Option Conversion
find_by_id_for_owner id owner w = find (λ c. c.id == id && c.owner_id == owner) w.conversions

unfoldable pub find_by_id : ℕ → World → Option Conversion
find_by_id id w = find (conversion_key id) w.conversions

abbrev pub segment_found : Option SegmentRow → Option ConversionSegment
segment_found none = none
segment_found (some row) = some (to_segment row)

unfoldable pub find_segment : (id index : ℕ) → World → Option ConversionSegment
find_segment id index w = segment_found (find (segment_key id index) w.segments)

abbrev pub part_found : Option PartRow → Option ConversionPart
part_found none = none
part_found (some row) = some (to_part row)

unfoldable pub find_part : (id index : ℕ) → World → Option ConversionPart
find_part id index w = part_found (find (part_key id index) w.parts)

-- A segment of the part that waits for its audio: `count() = 0` says that there is none.
unfoldable pub is_part_synthesized : (id part_index : ℕ) → World → Bool
is_part_synthesized id part_index w = not (
    exists
      (λ row.
        segment_of id row && (is_index row.part_index part_index && not (is_set row.audio_key)))
      w.segments)
