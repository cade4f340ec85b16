-- ===== src/Conversion/System/Workers.antt =====
-- The tasks of the workers are sequences of steps of the system.
use voxkivre_backend.Prelude.{
  ℕ, Bool, true, false, List, [], ◌∷◌, Option, none, some, map, Outcome, with_transaction,
}
use voxkivre_backend.Conversion.Status.{
  synthesizing, same_status, Conversion, ConversionFailureReason, empty_text, tts_rejected,
  ConversionSegment, SegmentAudio, PreparedSegment,
}
use voxkivre_backend.Conversion.PartPlan.{PlannedPart}
use voxkivre_backend.Conversion.Segmenter.{SsmlSegment, build_ssml_segments}
use voxkivre_backend.Conversion.Store.{
  World, mark_preparing, complete_preparation, complete_segment,
}
use voxkivre_backend.Conversion.Store.Reads.{find_by_id, find_segment, is_part_synthesized}
use voxkivre_backend.Conversion.Store.Lists.{list_pending_segment_indexes}
use voxkivre_backend.Conversion.Jobs.{schedule_synthesis}
use voxkivre_backend.Conversion.FailConversion.{fail_conversion}
use voxkivre_backend.Conversion.PrepareConversion.{
  Preparing, PreparationOutcome, unusable_reason, unless_unusable, fail, resume, write_and_schedule,
  plan_and_write, prepare_marked, if_marked, prepare_found, prepare_conversion,
}
use voxkivre_backend.Conversion.SynthesizeSegment.{
  Synthesizing, CachedMarks, Synthesis, complete_audio, refused, failing, read_cache, audio_for,
  if_part_synthesized, after_segment, record_audio, conclude_synthesis, from_cache, unless_audio,
  with_segment, with_conversion, synthesize_segment,
}
use voxkivre_backend.Conversion.System.{
  prepares, plans, speaks, concludes, Reaches, here, then_, Reaches-trans, Reaches-step,
}
use voxkivre_backend.Conversion.System.Refines.{
  >>>-Reaches, if-Reaches, fail_conversion-Reaches, schedule_synthesis-Reaches,
  schedule_assembly-Reaches,
}

fail-Reaches :
    (p : Preparing) (id : ℕ) (reason : ConversionFailureReason) (w : World)
    → Reaches w (fail p id reason w).1
unfolding fail
fail-Reaches p id reason w =
    >>>-Reaches w (fail_conversion id reason p.failed_at p.entry_id w) _
      (fail_conversion-Reaches id reason p.failed_at p.entry_id w) (λ _ w'. here)

resume-Reaches : (p : Preparing) (c : Conversion) (w : World) → Reaches w (resume p c w).1
unfolding resume
resume-Reaches p c w =
    >>>-Reaches w (schedule_synthesis p.accepts c.id (list_pending_segment_indexes c.id w) w) _
      (schedule_synthesis-Reaches p.accepts c.id (list_pending_segment_indexes c.id w) w)
      (λ _ w'. here)

write_and_schedule-Reaches :
    (p : Preparing) (id : ℕ) (segments : List PreparedSegment) (parts : List PlannedPart)
    (w : World)
    → Reaches w (write_and_schedule p id segments parts w).1
unfolding write_and_schedule
write_and_schedule-Reaches p id segments parts w =
    >>>-Reaches w (with_transaction (complete_preparation id segments parts p.completed_at) w) _
      (Reaches-step (plans id segments parts p.completed_at))
      (λ _ w'.
        >>>-Reaches w'
          (schedule_synthesis p.accepts id (map (λ (s : PreparedSegment). s.index) segments) w') _
          (schedule_synthesis-Reaches p.accepts id (map (λ (s : PreparedSegment). s.index) segments)
            w')
          (λ _ w''. here))

plan_and_write-Reaches :
    (p : Preparing) (c : Conversion) (segments : List SsmlSegment) (w : World)
    → Reaches w (plan_and_write p c segments w).1
unfolding plan_and_write
plan_and_write-Reaches p c [] w = fail-Reaches p c.id empty_text w
plan_and_write-Reaches p c (s ∷ ss) w = write_and_schedule-Reaches p c.id _ _ w

unless_unusable-Reaches :
    (p : Preparing) (id : ℕ) (reason : Option ConversionFailureReason) (w : World)
    (continue : World → Outcome PreparationOutcome × World)
    → ((w' : World) → Reaches w' (continue w').1)
    → Reaches w (unless_unusable p id reason w continue).1
unless_unusable-Reaches p id none w continue h = h w
unless_unusable-Reaches p id (some reason) w continue h = fail-Reaches p id reason w

prepare_marked-Reaches :
    (p : Preparing) (c : Conversion) (w : World) → Reaches w (prepare_marked p c w).1
unfolding prepare_marked
prepare_marked-Reaches p c w =
    unless_unusable-Reaches p c.id (unusable_reason c p.before) w _ (λ w'.
      unless_unusable-Reaches p c.id (unusable_reason c p.after) w' _
        (λ w''. plan_and_write-Reaches p c (build_ssml_segments p.pronounce p.pages) w''))

if_marked-Reaches :
    (p : Preparing) (c : Conversion) (w : World) (m : Bool × World)
    → Reaches w m.1
    → Reaches w (if_marked p c m).1
if_marked-Reaches p c w (true, w') h = Reaches-trans h (prepare_marked-Reaches p c w')
if_marked-Reaches p c w (false, w') h = h

prepare_found-Reaches :
    (p : Preparing) (c : Option Conversion) (w : World) → Reaches w (prepare_found p c w).1
prepare_found-Reaches p none w = here
prepare_found-Reaches p (some c) w =
    if-Reaches (same_status c.status synthesizing) _ _ (resume-Reaches p c w) (
      if_marked-Reaches p c w (mark_preparing c.id p.marked_at w)
        (Reaches-step (prepares c.id p.marked_at)))

-- The preparation of a conversion, whatever the document module answers and even if an exception
-- ends it, is a sequence of steps of the system.
pub prepare_conversion-Reaches :
    (p : Preparing) (id : ℕ) (w : World) → Reaches w (prepare_conversion p id w).1
unfolding prepare_conversion
prepare_conversion-Reaches p id w = prepare_found-Reaches p (find_by_id id w) w

if_part_synthesized-Reaches :
    (b : Bool) (s : Synthesizing) (segment : ConversionSegment) (w : World)
    → Reaches w (if_part_synthesized b s segment w).1
if_part_synthesized-Reaches true s segment w =
    schedule_assembly-Reaches s.accepts segment.conversion_id segment.prepared.part_index none w
if_part_synthesized-Reaches false s segment w = here

after_segment-Reaches :
    (s : Synthesizing) (segment : ConversionSegment) (w : World)
    → Reaches w (after_segment s segment w).1
unfolding after_segment
after_segment-Reaches s segment w =
    let b = is_part_synthesized segment.conversion_id segment.prepared.part_index w in
    >>>-Reaches w (if_part_synthesized b s segment w) _ (if_part_synthesized-Reaches b s segment w)
      (λ _ w'. Reaches-step (concludes segment.conversion_id s.checked_at))

record_audio-Reaches :
    (s : Synthesizing) (segment : ConversionSegment) (marks : CachedMarks) (cache_hit : Bool)
    (w : World)
    → Reaches w (record_audio s segment marks cache_hit w).1
unfolding record_audio
record_audio-Reaches s segment marks cache_hit w =
    let w' =
      (complete_segment segment.conversion_id segment.prepared.index
        (audio_for segment marks cache_hit) s.now w).1 in
    then_
      (speaks segment.conversion_id segment.prepared.index (audio_for segment marks cache_hit)
        s.now)
      (>>>-Reaches w' (after_segment s segment w') _ (after_segment-Reaches s segment w')
        (λ _ w''. here))

conclude_synthesis-Reaches :
    (s : Synthesizing) (segment : ConversionSegment) (result : Synthesis) (w : World)
    → Reaches w (conclude_synthesis s segment result w).1
unfolding conclude_synthesis
conclude_synthesis-Reaches s segment (complete_audio marks) w =
    record_audio-Reaches s segment marks false w
conclude_synthesis-Reaches s segment refused w =
    >>>-Reaches w (fail_conversion segment.conversion_id tts_rejected s.failed_at s.entry_id w) _
      (fail_conversion-Reaches segment.conversion_id tts_rejected s.failed_at s.entry_id w)
      (λ _ w'. here)
conclude_synthesis-Reaches s segment failing w = here

from_cache-Reaches :
    (s : Synthesizing) (c : Conversion) (segment : ConversionSegment) (marks : Option CachedMarks)
    (w : World)
    → Reaches w (from_cache s c segment marks w).1
from_cache-Reaches s c segment (some marks) w = record_audio-Reaches s segment marks true w
from_cache-Reaches s c segment none w = conclude_synthesis-Reaches s segment _ w

unless_audio-Reaches :
    (s : Synthesizing) (c : Conversion) (segment : ConversionSegment) (audio : Option SegmentAudio)
    (w : World)
    → Reaches w (unless_audio s c segment audio w).1
unless_audio-Reaches s c segment (some audio) w =
    >>>-Reaches w (after_segment s segment w) _ (after_segment-Reaches s segment w) (λ _ w'. here)
unless_audio-Reaches s c segment none w =
    from_cache-Reaches s c segment (read_cache s segment.prepared.fingerprint) w

with_segment-Reaches :
    (s : Synthesizing) (c : Conversion) (segment : Option ConversionSegment) (w : World)
    → Reaches w (with_segment s c segment w).1
with_segment-Reaches s c none w = here
with_segment-Reaches s c (some segment) w = unless_audio-Reaches s c segment segment.audio w

with_conversion-Reaches :
    (s : Synthesizing) (c : Option Conversion) (index : ℕ) (w : World)
    → Reaches w (with_conversion s c index w).1
with_conversion-Reaches s none index w = here
with_conversion-Reaches s (some c) index w =
    if-Reaches (same_status c.status synthesizing) _ _
      (with_segment-Reaches s c (find_segment c.id index w) w) here

-- The synthesis of a segment, whatever the storage and the engine answer and even if an exception
-- ends it, is a sequence of steps of the system.
pub synthesize_segment-Reaches :
    (s : Synthesizing) (id index : ℕ) (w : World) → Reaches w (synthesize_segment s id index w).1
unfolding synthesize_segment
synthesize_segment-Reaches s id index w = with_conversion-Reaches s (find_by_id id w) index w
