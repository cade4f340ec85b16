-- ===== src/Conversion/System/Refines.antt =====
-- A launch, a failure and the scheduling of jobs are sequences of steps of the system.
use voxkivre_backend.Prelude.{
  ℕ, leb, refl, Bool, true, false, Bool-cases, inl, inr, List, [], ◌∷◌, Option, none, some, Outcome,
  done, thrown, with_transaction, Result, ok, err, if◌then◌else◌,
}
use voxkivre_backend.Billing.ReserveQuota.{ReserveError}
use voxkivre_backend.Shared.Text.{Text}
use voxkivre_backend.Conversion.Status.{
  queued, same_status, Voice, find_voice, Conversion, new_queued_conversion,
  ConversionFailureReason,
}
use voxkivre_backend.Conversion.Store.{
  World, Job, prepare_conversion, synthesize_segment, assemble_part,
}
use voxkivre_backend.Conversion.Store.Reads.{find_active}
use voxkivre_backend.Conversion.Jobs.{
  ◌>>>◌, enqueue, enqueue_if, as_scheduled, schedule_preparation, schedule_synthesis,
  schedule_assembly,
}
use voxkivre_backend.Conversion.StartConversion.{
  Launching, StartConversionInput, SourceText, start_conversion, launch, resume_or_launch,
  concluded, winner_or, is_conflict, reserve_and_insert, conversion_for, for_source, for_voice,
}
use voxkivre_backend.Conversion.FailConversion.{fail_conversion}
use voxkivre_backend.Conversion.System.{
  launches, fails, enqueues, Reaches, here, Reaches-trans, Reaches-step,
}

-- A run that may throw in the middle, whose parts are sequences of steps.
pub >>>-Reaches :
    {A B : Type 0} (w : World) (m : Outcome A × World) (f : A → World → Outcome B × World)
    → Reaches w m.1
    → ((a : A) (w' : World) → Reaches w' (f a w').1)
    → Reaches w (m >>> f).1
>>>-Reaches w (done a, w') f h k = Reaches-trans h (k a w')
>>>-Reaches w (thrown e, w') f h k = h

pub if-Reaches :
    {A : Type 0} {w : World} (b : Bool) (x y : Outcome A × World)
    → Reaches w x.1
    → Reaches w y.1
    → Reaches w (if b then x else y).1
if-Reaches true x y h k = h
if-Reaches false x y h k = k

enqueue_if-Reaches : (b : Bool) (job : Job) (w : World) → Reaches w (enqueue_if b job w).1
enqueue_if-Reaches true job w = Reaches-step (enqueues job)
enqueue_if-Reaches false job w = here

pub schedule_preparation-Reaches :
    (accepts : Job → Bool) (id : ℕ) (w : World) → Reaches w (schedule_preparation accepts id w).1
unfolding schedule_preparation
schedule_preparation-Reaches accepts id w = go (accepts (prepare_conversion id))
  where
    go : (b : Bool) → Reaches w (as_scheduled (enqueue_if b (prepare_conversion id) w)).1
    go true = Reaches-step (enqueues (prepare_conversion id))
    go false = here

pub schedule_assembly-Reaches :
    (accepts : Job → Bool) (id part_index : ℕ) (retry_key : Option ℕ) (w : World)
    → Reaches w (schedule_assembly accepts id part_index retry_key w).1
unfolding schedule_assembly
schedule_assembly-Reaches accepts id part_index retry_key w =
    enqueue_if-Reaches (accepts (assemble_part id part_index retry_key))
      (assemble_part id part_index retry_key) w

pub schedule_synthesis-Reaches :
    (accepts : Job → Bool) (id : ℕ) (indexes : List ℕ) (w : World)
    → Reaches w (schedule_synthesis accepts id indexes w).1
unfolding schedule_synthesis
schedule_synthesis-Reaches accepts id [] w = here
schedule_synthesis-Reaches accepts id (i ∷ is) w =
    >>>-Reaches w (enqueue accepts (synthesize_segment id i) w)
      (λ _ w'. schedule_synthesis accepts id is w')
      (enqueue_if-Reaches (accepts (synthesize_segment id i)) (synthesize_segment id i) w)
      (λ _ w'. schedule_synthesis-Reaches accepts id is w')

pub fail_conversion-Reaches :
    (id : ℕ) (reason : ConversionFailureReason) (now entry_id : ℕ) (w : World)
    → Reaches w (fail_conversion id reason now entry_id w).1
unfolding fail_conversion
fail_conversion-Reaches id reason now entry_id w = Reaches-step (fails id reason now entry_id)

concluded-Reaches :
    (launching : Launching) (c : Conversion) (w : World)
    (m : Outcome (Result (Unit {0}) ReserveError) × World)
    → Reaches w m.1
    → Reaches w (concluded launching c m).1
concluded-Reaches launching c w (done (ok _), w') h =
    Reaches-trans h (schedule_preparation-Reaches launching.accepts c.id w')
concluded-Reaches launching c w (done (err e), w') h = h
concluded-Reaches launching c w (thrown e, w') h = elim (Bool-cases (is_conflict e)) [
  | inl k ↦ rw k (go (find_active c.document_id c.voice_id c.text_revision w'))
  | inr k ↦ rw k h
]
  where
    go : (winner : Option Conversion) → Reaches w (winner_or winner w').1
    go none = h
    go (some x) = h

-- `findActive` may have read the table at an earlier time.
pub resume_or_launch-Reaches :
    (launching : Launching) (input : StartConversionInput) (voice : Voice) (source : SourceText)
    (existing : Option Conversion) (w : World)
    → Reaches w (resume_or_launch launching input voice source existing w).1
unfolding resume_or_launch launch new_queued_conversion
resume_or_launch-Reaches launching input voice source (some c) w =
    elim (Bool-cases (same_status c.status queued)) [
      | inl e ↦ rw e (schedule_preparation-Reaches launching.accepts c.id w)
      | inr e ↦ rw e here
    ]
resume_or_launch-Reaches launching input voice source none w =
    let c = conversion_for launching input voice source in
    concluded-Reaches launching c w (with_transaction (reserve_and_insert launching voice.tier c) w)
      (Reaches-step (launches launching voice.tier c refl))

-- Whatever the answer of the document module, and whatever state the active conversion was read
-- in, a launch is a sequence of steps of the system.
pub start_conversion-Reaches :
    (launching : Launching) (input : StartConversionInput) (source : Option SourceText)
    (seen w : World)
    → Reaches w (start_conversion launching input source seen w).1
unfolding start_conversion
start_conversion-Reaches launching input source seen w = for_voice-Reaches _ (find_voice _) source
  where
    for_source-Reaches :
        (voice : Voice) (source : Option SourceText)
        → Reaches w (for_source launching input voice source seen w).1
    for_source-Reaches voice none = here
    for_source-Reaches voice (some s) =
        if-Reaches s.text_ready _ _
          (if-Reaches s.review_pending _ _ here (
            if-Reaches (leb s.char_count 0) _ _ here (
              resume_or_launch-Reaches launching input voice s
                (find_active s.document_id voice.id s.text_revision seen) w)))
          here

    for_voice-Reaches :
        (requested : Text) (voice : Option Voice) (source : Option SourceText)
        → Reaches w (for_voice launching input requested voice source seen w).1
    for_voice-Reaches requested none source = here
    for_voice-Reaches requested (some voice) source = for_source-Reaches voice source
