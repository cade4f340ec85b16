-- ===== src/Conversion/PrepareConversion.antt =====
-- conversion/application/use-cases/prepare-conversion.use-case.ts. The answers of the document
-- module, the signature of the engine, the pronunciation, the digest, the clock and the queue
-- are arguments.
use voxkivre_backend.Prelude.{
  ℕ, ◌+◌, ◌==◌, leb, ◌&&◌, Bool, true, false, List, [], ◌∷◌, length, map, Option, none, some,
  Outcome, done, with_transaction, if◌then◌else◌,
}
use voxkivre_backend.Shared.Text.{Text}
use voxkivre_backend.Conversion.Segmenter.{
  PageText, Pronunciation, SsmlSegment, build_ssml_segments,
}
use voxkivre_backend.Conversion.PartPlan.{PlannedPart, plan_parts}
use voxkivre_backend.Conversion.Files.{Names, segment_fingerprint}
use voxkivre_backend.Conversion.Status.{
  synthesizing, same_status, ConversionFailureReason, text_changed, source_unavailable, empty_text,
  Conversion, PreparedSegment,
}
use voxkivre_backend.Conversion.Store.{World, Job, mark_preparing, complete_preparation}
use voxkivre_backend.Conversion.Store.Reads.{find_by_id}
use voxkivre_backend.Conversion.Store.Lists.{list_pending_segment_indexes}
use voxkivre_backend.Conversion.Jobs.{◌>>>◌, schedule_synthesis}
use voxkivre_backend.Conversion.StartConversion.{SourceText}
use voxkivre_backend.Conversion.FailConversion.{fail_conversion}

pub data PreparationOutcome : Type 0 where
  prepared : (segment_count : ℕ) → PreparationOutcome
  resumed : (pending_segments : ℕ) → PreparationOutcome
  failed : ConversionFailureReason → PreparationOutcome
  skipped : PreparationOutcome

-- The two reads of the state of the document, its pages, and the times of the writes.
pub record Preparing : Type 0 where
  pub before : Option SourceText
  pub pages : List PageText
  pub after : Option SourceText
  pub engine_signature : Text → Text
  pub pronounce : Pronunciation
  pub names : Names
  pub marked_at : ℕ
  pub failed_at : ℕ
  pub completed_at : ℕ
  pub entry_id : ℕ
  pub accepts : Job → Bool

abbrev pub unusable_reason : Conversion → Option SourceText → Option ConversionFailureReason
unusable_reason c none = some source_unavailable
unusable_reason c (some source) =
    if source.text_ready
    then if source.text_revision == c.text_revision then none else some text_changed
    else some source_unavailable

-- `partOf.get(index) ?? 0`: the part whose range holds the segment; of several, the last one.
abbrev pub part_index_of : (other : ℕ) → List PlannedPart → ℕ → ℕ
part_index_of other [] index = other
part_index_of other (part ∷ parts) index =
    part_index_of
      (if leb part.first_segment index && leb index part.last_segment then part.index else other)
      parts index

-- The segments with their fingerprint, their part, and the number of words before them.
unfoldable pub prepared_from :
    Names
    → (signature : Text) → List PlannedPart
    → (words_before : ℕ) → List SsmlSegment
    → List PreparedSegment
prepared_from names signature parts words_before [] = []
prepared_from names signature parts words_before (s ∷ segments) =
    record {
      index = s.index;
      ssml = s.ssml;
      words = s.words;
      char_count = s.char_count;
      fingerprint = segment_fingerprint names signature s.ssml;
      part_index = part_index_of 0 parts s.index;
      first_word_index = words_before;
    }
    ∷ prepared_from names signature parts (words_before + length s.words) segments

unfoldable pub fail :
    Preparing → ℕ → ConversionFailureReason → World → Outcome PreparationOutcome × World
fail p id reason w =
    fail_conversion id reason p.failed_at p.entry_id w >>> λ _ w'. (done (failed reason), w')

unfoldable pub resume : Preparing → Conversion → World → Outcome PreparationOutcome × World
resume p c w =
    let pending = list_pending_segment_indexes c.id w in
    schedule_synthesis p.accepts c.id pending w >>> λ _ w'. (done (resumed (length pending)), w')

-- `completePreparation` answers whether it wrote; the use case does not look at it.
unfoldable pub write_and_schedule :
    Preparing
    → ℕ
    → List PreparedSegment
    → List PlannedPart
    → World
    → Outcome PreparationOutcome × World
write_and_schedule p id segments parts w =
    with_transaction (complete_preparation id segments parts p.completed_at) w >>> λ _ w'.
    schedule_synthesis p.accepts id (map (λ (s : PreparedSegment). s.index) segments) w'
    >>> λ _ w''. (done (prepared (length segments)), w'')

unfoldable pub plan_and_write :
    Preparing → Conversion → List SsmlSegment → World → Outcome PreparationOutcome × World
unfolding fail write_and_schedule prepared_from
plan_and_write p c [] w = fail p c.id empty_text w
plan_and_write p c (s ∷ ss) w =
    let parts = plan_parts (map (λ (s : SsmlSegment). s.char_count) (s ∷ ss)) in
    let segments = prepared_from p.names (p.engine_signature c.voice_id) parts 0 (s ∷ ss) in
    write_and_schedule p c.id segments parts w

abbrev pub unless_unusable :
    Preparing
    → ℕ
    → Option ConversionFailureReason
    → World
    → (World → Outcome PreparationOutcome × World)
    → Outcome PreparationOutcome × World
unless_unusable p id none w continue = continue w
unless_unusable p id (some reason) w continue = fail p id reason w

unfoldable pub prepare_marked : Preparing → Conversion → World → Outcome PreparationOutcome × World
unfolding plan_and_write fail
prepare_marked p c w = unless_unusable p c.id (unusable_reason c p.before) w λ w'.
    unless_unusable p c.id (unusable_reason c p.after) w'
      λ w''. plan_and_write p c (build_ssml_segments p.pronounce p.pages) w''

abbrev pub if_marked : Preparing → Conversion → Bool × World → Outcome PreparationOutcome × World
if_marked p c (true, w) = prepare_marked p c w
if_marked p c (false, w) = (done skipped, w)

abbrev pub prepare_found :
    Preparing → Option Conversion → World → Outcome PreparationOutcome × World
prepare_found p none w = (done skipped, w)
prepare_found p (some c) w =
    if same_status c.status synthesizing
    then resume p c w
    else if_marked p c (mark_preparing c.id p.marked_at w)

unfoldable pub prepare_conversion : Preparing → ℕ → World → Outcome PreparationOutcome × World
unfolding prepare_marked resume
prepare_conversion p id w = prepare_found p (find_by_id id w) w
