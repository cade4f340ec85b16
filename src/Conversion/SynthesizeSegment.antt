-- ===== src/Conversion/SynthesizeSegment.antt =====
-- conversion/application/use-cases/synthesize-segment.use-case.ts, with
-- conversion/domain/services/audio-completeness.ts. What the storage and the engine answer, the
-- clock and the queue are arguments; the files themselves are not followed. Times are in
-- thousandths of a second, as in Timeline.
use voxkivre_backend.Prelude.{
  ℕ, ◌+◌, ◌==◌, ltb, max, Bool, true, false, List, [], ◌∷◌, ◌++◌, Option, none, some, Outcome, done,
  thrown, unavailable, if◌then◌else◌,
}
use voxkivre_backend.Shared.Text.{Text, codes, decimal, same_text}
use voxkivre_backend.Conversion.Ssml.{SegmentWord}
use voxkivre_backend.Conversion.Files.{cache_keys_for}
use voxkivre_backend.Conversion.Status.{
  synthesizing, same_status, tts_rejected, Conversion, ConversionSegment, SegmentAudio,
}
use voxkivre_backend.Conversion.Store.{
  World, Job, complete_segment, complete_if_all_segments_synthesized,
}
use voxkivre_backend.Conversion.Store.Reads.{find_by_id, find_segment, is_part_synthesized}
use voxkivre_backend.Conversion.Jobs.{◌>>>◌, schedule_assembly}
use voxkivre_backend.Conversion.FailConversion.{fail_conversion}

pub record SynthesisMark : Type 0 where
  pub name : Text
  pub time_ms : ℕ

pub record CachedMarks : Type 0 where
  pub duration_ms : ℕ
  pub marks : List SynthesisMark

pub data SynthesisOutcome : Type 0 where
  synthesized_now : (cache_hit conversion_completed : Bool) → SynthesisOutcome
  rejected : SynthesisOutcome
  skipped : SynthesisOutcome

-- What the engine answers: marks with the duration of the audio, a refusal that is final, or no
-- answer.
pub data TtsAnswer : Type 0 where
  spoken : CachedMarks → TtsAnswer
  request_rejected : TtsAnswer
  no_answer : TtsAnswer

-- The marks that the cache holds under a key, if they are there and have the right form; whether
-- an object is there; the answer of the engine to a text and a voice; whether a write succeeds.
pub record Synthesizing : Type 0 where
  pub cached_marks : Text → Option CachedMarks
  pub is_stored : Text → Bool
  pub synthesize : (ssml voice : Text) → TtsAnswer
  pub can_put : Text → Bool
  pub now : ℕ
  pub checked_at : ℕ
  pub failed_at : ℕ
  pub entry_id : ℕ
  pub accepts : Job → Bool

abbrev pub last_mark : List SynthesisMark → ℕ
last_mark [] = 0
last_mark (mark ∷ marks) = max mark.time_ms (last_mark marks)

unfoldable pub is_audio_complete : List SynthesisMark → (duration_ms : ℕ) → Bool
is_audio_complete marks duration_ms =
    if duration_ms == 0 then false else ltb (last_mark marks) duration_ms

-- `new Map(…)`: of two marks with one name, the last.
abbrev pub mark_named : Text → Option ℕ → List SynthesisMark → Option ℕ
mark_named name other [] = other
mark_named name other (mark ∷ marks) =
    mark_named name (if same_text mark.name name then some mark.time_ms else other) marks

unfoldable pub aligned_from : (i : ℕ) → List SegmentWord → List SynthesisMark → List (Option ℕ)
aligned_from i [] marks = []
aligned_from i (word ∷ words) marks =
    mark_named (codes "w" ++ decimal i) none marks ∷ aligned_from (i + 1) words marks

unfoldable pub align_timepoints : List SegmentWord → List SynthesisMark → List (Option ℕ)
unfolding aligned_from
align_timepoints words marks = aligned_from 0 words marks

abbrev pub if_usable : Bool → Bool → CachedMarks → Option CachedMarks
if_usable true true marks = some marks
if_usable true false marks = none
if_usable false b marks = none

abbrev pub usable : Synthesizing → (audio_key : Text) → Option CachedMarks → Option CachedMarks
usable s audio_key none = none
usable s audio_key (some cached) =
    if_usable (is_audio_complete cached.marks cached.duration_ms) (s.is_stored audio_key) cached

unfoldable pub read_cache : Synthesizing → (fingerprint : Text) → Option CachedMarks
unfolding is_audio_complete
read_cache s fingerprint =
    let keys = cache_keys_for fingerprint in usable s keys.audio (s.cached_marks keys.marks)

-- What `synthesize` gives back: marks whose audio is complete and stored, the final refusal, or
-- an exception.
pub data Synthesis : Type 0 where
  complete_audio : CachedMarks → Synthesis
  refused : Synthesis
  failing : Synthesis

abbrev pub store_if : Bool → Bool → Bool → CachedMarks → Synthesis
store_if true true true marks = complete_audio marks
store_if true true false marks = failing
store_if true false b marks = failing
store_if false a b marks = failing

abbrev pub synthesis_of : Synthesizing → (fingerprint : Text) → TtsAnswer → Synthesis
synthesis_of s fingerprint (spoken result) =
    let keys = cache_keys_for fingerprint in
    store_if (is_audio_complete result.marks result.duration_ms) (s.can_put keys.audio)
      (s.can_put keys.marks) result
synthesis_of s fingerprint request_rejected = refused
synthesis_of s fingerprint no_answer = failing

abbrev pub if_part_synthesized :
    Bool → Synthesizing → ConversionSegment → World → Outcome (Unit {0}) × World
if_part_synthesized true s segment w =
    schedule_assembly s.accepts segment.conversion_id segment.prepared.part_index none w
if_part_synthesized false s segment w = (done tt, w)

unfoldable pub after_segment : Synthesizing → ConversionSegment → World → Outcome Bool × World
after_segment s segment w =
    if_part_synthesized (is_part_synthesized segment.conversion_id segment.prepared.part_index w) s
      segment w
    >>> λ _ w'.
        let (completed, w'') =
          complete_if_all_segments_synthesized segment.conversion_id s.checked_at w' in
        (done completed, w'')

abbrev pub audio_for : ConversionSegment → CachedMarks → (cache_hit : Bool) → SegmentAudio
audio_for segment marks cache_hit = record {
  audio_key = (cache_keys_for segment.prepared.fingerprint).audio;
  timepoints = align_timepoints segment.prepared.words marks.marks;
  duration_ms = marks.duration_ms;
  cache_hit = cache_hit;
}

-- `completeSegment` answers whether it wrote; the use case does not look at it.
unfoldable pub record_audio :
    Synthesizing
    → ConversionSegment
    → CachedMarks
    → (cache_hit : Bool) → World
    → Outcome SynthesisOutcome × World
unfolding after_segment
record_audio s segment marks cache_hit w =
    let (_, w') =
      complete_segment segment.conversion_id segment.prepared.index
        (audio_for segment marks cache_hit) s.now w in
    after_segment s segment w' >>> λ completed w''.
    (done (synthesized_now cache_hit completed), w'')

unfoldable pub conclude_synthesis :
    Synthesizing → ConversionSegment → Synthesis → World → Outcome SynthesisOutcome × World
unfolding record_audio
conclude_synthesis s segment (complete_audio marks) w = record_audio s segment marks false w
conclude_synthesis s segment refused w =
    fail_conversion segment.conversion_id tts_rejected s.failed_at s.entry_id w >>> λ _ w'.
    (done rejected, w')
conclude_synthesis s segment failing w = (thrown unavailable, w)

abbrev pub from_cache :
    Synthesizing
    → Conversion
    → ConversionSegment
    → Option CachedMarks
    → World
    → Outcome SynthesisOutcome × World
from_cache s c segment (some marks) w = record_audio s segment marks true w
from_cache s c segment none w =
    conclude_synthesis s segment
      (synthesis_of s segment.prepared.fingerprint (s.synthesize segment.prepared.ssml c.voice_id))
      w

abbrev pub unless_audio :
    Synthesizing
    → Conversion
    → ConversionSegment
    → Option SegmentAudio
    → World
    → Outcome SynthesisOutcome × World
unless_audio s c segment (some audio) w = after_segment s segment w >>> λ _ w'. (done skipped, w')
unless_audio s c segment none w =
    from_cache s c segment (read_cache s segment.prepared.fingerprint) w

abbrev pub with_segment :
    Synthesizing → Conversion → Option ConversionSegment → World → Outcome SynthesisOutcome × World
with_segment s c none w = (done skipped, w)
with_segment s c (some segment) w = unless_audio s c segment segment.audio w

abbrev pub with_conversion :
    Synthesizing → Option Conversion → (index : ℕ) → World → Outcome SynthesisOutcome × World
with_conversion s none index w = (done skipped, w)
with_conversion s (some c) index w =
    if same_status c.status synthesizing
    then with_segment s c (find_segment c.id index w) w
    else (done skipped, w)

unfoldable pub synthesize_segment :
    Synthesizing → (id index : ℕ) → World → Outcome SynthesisOutcome × World
unfolding conclude_synthesis record_audio after_segment read_cache
synthesize_segment s id index w = with_conversion s (find_by_id id w) index w
