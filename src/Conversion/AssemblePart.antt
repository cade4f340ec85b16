-- ===== src/Conversion/AssemblePart.antt =====
-- conversion/application/use-cases/assemble-part.use-case.ts. The bytes of the segments, the
-- assembler of audio, the digest, the clock and the success of writes are arguments; the files
-- themselves are not followed.
use voxkivre_backend.Prelude.{
  ℕ, zero, suc, ◌+◌, ◌==◌, ◌||◌, Bool, true, false, List, [], ◌∷◌, length, Option, none, some,
  exists, not, Outcome, done, thrown, broken_invariant, unavailable, if◌then◌else◌,
}
use voxkivre_backend.Shared.Text.{Text}
use voxkivre_backend.Shared.Text.Utf8.{byte_length}
use voxkivre_backend.Conversion.Ssml.{SegmentWord}
use voxkivre_backend.Conversion.Files.{Names, part_file_keys, manifest_key}
use voxkivre_backend.Conversion.Timeline.{TimedWord, TimelineSegment, build_part_timeline}
use voxkivre_backend.Conversion.Webvtt.{build_web_vtt}
use voxkivre_backend.Conversion.Status.{
  ConversionStatus, synthesizing, synthesized, same_status, Conversion, ConversionSegment,
  SegmentAudio, ConversionPart, AssembledPart, PageStart,
}
use voxkivre_backend.Conversion.Store.{
  World, is_set, complete_part, mark_ready_if_all_parts_assembled,
}
use voxkivre_backend.Conversion.Store.Reads.{find_by_id, find_part}
use voxkivre_backend.Conversion.Store.Lists.{list_parts, list_part_segments}
use voxkivre_backend.Conversion.Jobs.{◌>>>◌}

pub data SkipReason : Type 0 where
  conversion_not_assemblable unknown_part segments_pending : SkipReason

pub data AssemblyOutcome : Type 0 where
  assembled : (duration_ms : ℕ) (conversion_ready : Bool) → AssemblyOutcome
  skipped : SkipReason → AssemblyOutcome

-- The bytes under a key; the frames of several files in one, with the duration of each; the
-- digest of bytes; whether a write succeeds; the times of the two updates.
pub record Assembling : Type 0 where
  pub object : Text → Option (List ℕ)
  pub joined : List (List ℕ) → List ℕ
  pub durations_ms : List (List ℕ) → List ℕ
  pub sha256_of : List ℕ → Text
  pub names : Names
  pub can_put : Text → Bool
  pub completed_at : ℕ
  pub ready_at : ℕ

abbrev pub is_assemblable_status : ConversionStatus → Bool
is_assemblable_status s = same_status s synthesizing || same_status s synthesized

abbrev pub is_page : Option ℕ → ℕ → Bool
is_page none page = false
is_page (some p) page = p == page

unfoldable pub page_starts_of : List TimedWord → (previous_page : Option ℕ) → List PageStart
page_starts_of [] current = []
page_starts_of (word ∷ words) current =
    let rest = page_starts_of words (some word.page) in
    if is_page current word.page
    then rest
    else record { page = word.page; word_index = word.index } ∷ rest

-- The bytes of the segments: none if one has no audio, an exception if the object of one is lost.
abbrev pub chunk_then :
    Option (List ℕ) → Outcome (Option (List (List ℕ))) → Outcome (Option (List (List ℕ)))
chunk_then none rest = thrown broken_invariant
chunk_then (some bytes) (thrown e) = thrown e
chunk_then (some bytes) (done none) = done none
chunk_then (some bytes) (done (some chunks)) = done (some (bytes ∷ chunks))

abbrev pub segment_chunk :
    Assembling
    → Option SegmentAudio
    → Outcome (Option (List (List ℕ)))
    → Outcome (Option (List (List ℕ)))
segment_chunk a none rest = done none
segment_chunk a (some audio) rest = chunk_then (a.object audio.audio_key) rest

unfoldable pub chunks_of : Assembling → List ConversionSegment → Outcome (Option (List (List ℕ)))
chunks_of a [] = done (some [])
chunks_of a (segment ∷ segments) = segment_chunk a segment.audio (chunks_of a segments)

abbrev pub timepoints_of : Option SegmentAudio → List (Option ℕ)
timepoints_of none = []
timepoints_of (some audio) = audio.timepoints

-- Each segment with the duration that the assembler found, 0 where it gives none.
unfoldable pub timeline_segments :
    List ConversionSegment → (durations : List ℕ) → List TimelineSegment
timeline_segments [] durations = []
timeline_segments (segment ∷ segments) [] =
    record {
      first_word_index = segment.prepared.first_word_index;
      words = segment.prepared.words;
      timepoints = timepoints_of segment.audio;
      duration_ms = 0;
    }
    ∷ timeline_segments segments []
timeline_segments (segment ∷ segments) (ms ∷ durations) =
    record {
      first_word_index = segment.prepared.first_word_index;
      words = segment.prepared.words;
      timepoints = timepoints_of segment.audio;
      duration_ms = ms;
    }
    ∷ timeline_segments segments durations

abbrev pub last_page_of_words : Option ℕ → List SegmentWord → Option ℕ
last_page_of_words other [] = other
last_page_of_words other (word ∷ words) = last_page_of_words (some word.p) words

-- `previous.at(-1)?.words.at(-1)?.p`
abbrev pub last_page_of : Option ℕ → List ConversionSegment → Option ℕ
last_page_of other [] = other
last_page_of other (segment ∷ segments) =
    last_page_of (last_page_of_words none segment.prepared.words) segments

unfoldable pub last_page_before : (id part_index : ℕ) → World → Option ℕ
last_page_before id zero w = none
last_page_before id (suc part_index) w = last_page_of none (list_part_segments id part_index w)

abbrev pub sum_ms : List ℕ → ℕ
sum_ms [] = 0
sum_ms (ms ∷ durations) = ms + sum_ms durations

-- The files of a part, once they are stored.
unfoldable pub part_files :
    Assembling
    → Conversion
    → (part_index : ℕ) → List ConversionSegment
    → List (List ℕ)
    → (previous_page : Option ℕ) → AssembledPart
unfolding page_starts_of timeline_segments
part_files a c part_index segments chunks previous_page =
    let audio = a.joined chunks in
    let words = build_part_timeline (timeline_segments segments (a.durations_ms chunks)) in
    let vtt = build_web_vtt words in
    let keys = part_file_keys a.names c.owner_id c.id part_index in
    record {
      audio = record { key = keys.audio; bytes = length audio; sha256 = a.sha256_of audio };
      vtt = record { key = keys.vtt; bytes = byte_length vtt; sha256 = a.names.sha256 vtt };
      duration_ms = sum_ms (a.durations_ms chunks);
      word_count = length words;
      page_starts = page_starts_of words previous_page;
    }

abbrev pub if_stored : Bool → Bool → AssembledPart → Outcome (Option AssembledPart)
if_stored true true part = done (some part)
if_stored true false part = thrown unavailable
if_stored false b part = thrown unavailable

abbrev pub stored_part :
    Assembling
    → Conversion
    → (part_index : ℕ) → List ConversionSegment
    → (previous_page : Option ℕ) → Outcome (Option (List (List ℕ)))
    → Outcome (Option AssembledPart)
stored_part a c part_index segments previous_page (thrown e) = thrown e
stored_part a c part_index segments previous_page (done none) = done none
stored_part a c part_index segments previous_page (done (some chunks)) =
    let part = part_files a c part_index segments chunks previous_page in
    if_stored (a.can_put part.audio.key) (a.can_put part.vtt.key) part

unfoldable pub assemble :
    Assembling → Conversion → (part_index : ℕ) → World → Outcome (Option AssembledPart)
unfolding chunks_of part_files last_page_before
assemble a c part_index w =
    let segments = list_part_segments c.id part_index w in
    stored_part a c part_index segments (last_page_before c.id part_index w) (chunks_of a segments)

abbrev pub mark_ready_if_put : Bool → Assembling → (id : ℕ) → World → Outcome Bool × World
mark_ready_if_put true a id w =
    let (is_ready, w') = mark_ready_if_all_parts_assembled id a.ready_at w in (done is_ready, w')
mark_ready_if_put false a id w = (thrown unavailable, w)

abbrev pub finalize_fresh : Assembling → Option Conversion → World → Outcome Bool × World
finalize_fresh a none w = (done false, w)
finalize_fresh a (some fresh) w =
    if same_status fresh.status synthesized
    then if exists (λ part. not (is_set part.assembled)) (list_parts fresh.id w)
      then (done false, w)
      else mark_ready_if_put (a.can_put (manifest_key a.names fresh.owner_id fresh.id)) a fresh.id w
    else (done false, w)

unfoldable pub finalize : Assembling → (id : ℕ) → World → Outcome Bool × World
finalize a id w = finalize_fresh a (find_by_id id w) w

unfoldable pub conclude_assembly :
    Assembling → Conversion → (duration_ms : ℕ) → World → Outcome AssemblyOutcome × World
unfolding finalize
conclude_assembly a c duration_ms w =
    finalize a c.id w >>> λ is_ready w'. (done (assembled duration_ms is_ready), w')

-- `completePart` answers whether it wrote; the use case does not look at it.
abbrev pub complete_with :
    Assembling
    → Conversion
    → (part_index : ℕ) → Outcome (Option AssembledPart)
    → World
    → Outcome AssemblyOutcome × World
complete_with a c part_index (thrown e) w = (thrown e, w)
complete_with a c part_index (done none) w = (done (skipped segments_pending), w)
complete_with a c part_index (done (some part)) w =
    conclude_assembly a c part.duration_ms (complete_part c.id part_index part a.completed_at w).1

abbrev pub unless_assembled :
    Assembling
    → Conversion
    → (part_index : ℕ) → Option AssembledPart
    → World
    → Outcome AssemblyOutcome × World
unless_assembled a c part_index (some part) w = conclude_assembly a c part.duration_ms w
unless_assembled a c part_index none w = complete_with a c part_index (assemble a c part_index w) w

abbrev pub with_part :
    Assembling
    → Conversion
    → (part_index : ℕ) → Option ConversionPart
    → World
    → Outcome AssemblyOutcome × World
with_part a c part_index none w = (done (skipped unknown_part), w)
with_part a c part_index (some part) w = unless_assembled a c part_index part.assembled w

abbrev pub assemble_for :
    Assembling → (part_index : ℕ) → Option Conversion → World → Outcome AssemblyOutcome × World
assemble_for a part_index none w = (done (skipped conversion_not_assemblable), w)
assemble_for a part_index (some c) w =
    if is_assemblable_status c.status
    then with_part a c part_index (find_part c.id part_index w) w
    else (done (skipped conversion_not_assemblable), w)

unfoldable pub assemble_part :
    Assembling → (id part_index : ℕ) → World → Outcome AssemblyOutcome × World
unfolding conclude_assembly assemble
assemble_part a id part_index w = assemble_for a part_index (find_by_id id w) w
