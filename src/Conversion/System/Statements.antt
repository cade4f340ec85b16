-- ===== src/Conversion/System/Statements.antt =====
-- Each statement of the repository keeps the tables of conversion sound.
use voxkivre_backend.Prelude.{
  ℕ, ◌≡◌, refl, sym, subst, false, Bool-cases, inl, inr, exists, some, arith,
}
use voxkivre_backend.Conversion.Status.{
  preparing, synthesized, ready, in_progress, ConversionFailureReason, SegmentAudio, AssembledPart,
}
use voxkivre_backend.Conversion.Store.{
  World, touch, conversion_key, in_status, may_prepare, failed_row, is_pending, is_unassembled,
  all_synthesized_of, all_assembled_of, unsynthesized_key, synthesized_row, unassembled_key,
  assembled_row, mark_preparing, complete_segment, complete_if_all_segments_synthesized,
  mark_failed, complete_part, mark_ready_if_all_parts_assembled,
}
use voxkivre_backend.Conversion.System.Sound.{
  IsSound, conversions-IsSound, segments-IsSound, parts-IsSound,
}

pub mark_preparing-IsSound :
    (id at : ℕ) (w : World) → IsSound w → IsSound (mark_preparing id at w).1
unfolding mark_preparing
mark_preparing-IsSound id at w v =
    conversions-IsSound w (in_status id may_prepare)
      (λ c. record c { status = preparing; updated_at = at }) (λ i c. refl)
      (λ d t r c e a. ground arith)
      (λ c e h. record {
        no_segments = λ k. h.no_segments (ground arith);
        no_parts = λ k. h.no_parts (ground arith);
        spoken = λ k. cc;
        delivered = λ k. absurd (cc);
      })
      v

touch-IsSound :
    (id at : ℕ) (w : World)
    → IsSound w
    → IsSound (record w { conversions = touch id at w.conversions })
touch-IsSound id at w v =
    conversions-IsSound w (conversion_key id) (λ c. record c { updated_at = at }) (λ i c. refl)
      (λ d t r c e a. a)
      (λ c e h. record {
        no_segments = h.no_segments;
        no_parts = h.no_parts;
        spoken = h.spoken;
        delivered = h.delivered;
      })
      v

pub complete_segment-IsSound :
    (id index : ℕ) (audio : SegmentAudio) (at : ℕ) (w : World)
    → IsSound w
    → IsSound (complete_segment id index audio at w).1
unfolding complete_segment
complete_segment-IsSound id index audio at w v =
    elim (Bool-cases (exists (unsynthesized_key id index) w.segments)) [
      | inr e ↦ rw e v
      | inl e ↦ rw e (
          touch-IsSound id at _ (
            segments-IsSound w (unsynthesized_key id index) (synthesized_row audio at) (λ s. refl)
              (λ i s k p. ground arith) v))
    ]

pub complete_if_all-IsSound :
    (id at : ℕ) (w : World) → IsSound w → IsSound (complete_if_all_segments_synthesized id at w).1
unfolding complete_if_all_segments_synthesized
complete_if_all-IsSound id at w v =
    conversions-IsSound w (all_synthesized_of id w)
      (λ c. record c { status = synthesized; updated_at = at }) (λ i c. refl)
      (λ d t r c e a. ground arith)
      (λ c e h. record {
        no_segments = λ k. absurd (cc);
        no_parts = λ k. absurd (cc);
        spoken = λ k.
            let same : c.id ≡ id = ground arith in
            let none_left : exists (is_pending id) w.segments ≡ false = ground arith in
            subst (λ i. exists (is_pending i) w.segments ≡ false) (sym same) none_left;
        delivered = λ k. absurd (cc);
      })
      v

pub mark_failed-IsSound :
    (id : ℕ) (reason : ConversionFailureReason) (at : ℕ) (w : World)
    → IsSound w
    → IsSound (mark_failed id reason at w).1
unfolding mark_failed
mark_failed-IsSound id reason at w v =
    conversions-IsSound w (in_status id in_progress) (failed_row reason at) (λ i c. refl)
      (λ d t r c e a. absurd (ground arith))
      (λ c e h. record {
        no_segments = λ k. absurd (cc);
        no_parts = λ k. absurd (cc);
        spoken = λ k. absurd (cc);
        delivered = λ k. absurd (cc);
      })
      v

pub complete_part-IsSound :
    (id index : ℕ) (part : AssembledPart) (at : ℕ) (w : World)
    → IsSound w
    → IsSound (complete_part id index part at w).1
unfolding complete_part
complete_part-IsSound id index part at w v =
    elim (Bool-cases (exists (unassembled_key id index) w.parts)) [
      | inr e ↦ rw e v
      | inl e ↦ rw e (
          touch-IsSound id at _ (
            parts-IsSound w (unassembled_key id index) (assembled_row part at) (λ s. refl)
              (λ i s k p. ground arith) v))
    ]

pub mark_ready-IsSound :
    (id at : ℕ) (w : World) → IsSound w → IsSound (mark_ready_if_all_parts_assembled id at w).1
unfolding mark_ready_if_all_parts_assembled
mark_ready-IsSound id at w v =
    conversions-IsSound w (all_assembled_of id w)
      (λ c. record c { status = ready; updated_at = at; completed_at = some at }) (λ i c. refl)
      (λ d t r c e a. ground arith)
      (λ c e h. record {
        no_segments = λ k. absurd (cc);
        no_parts = λ k. absurd (cc);
        spoken = λ k. h.spoken (ground arith);
        delivered = λ k.
            let same : c.id ≡ id = ground arith in
            let none_left : exists (is_unassembled id) w.parts ≡ false = ground arith in
            subst (λ i. exists (is_unassembled i) w.parts ≡ false) (sym same) none_left;
      })
      v
