-- ===== src/Conversion/System/Assembly.antt =====
-- The assembly of a part and the sweep of stalled conversions are sequences of steps.
use voxkivre_backend.Prelude.{
  ℕ, ◌==◌, ◌&&◌, ◌||◌, ◌-◌, ◌/◌, Bool, true, false, List, [], ◌∷◌, Option, none, some, exists, not,
  length, Outcome, done, thrown,
}
use voxkivre_backend.Conversion.Status.{
  queued, synthesizing, synthesized, same_status, Conversion, AssembledPart, ConversionPart,
}
use voxkivre_backend.Conversion.Store.{World, Job, is_set}
use voxkivre_backend.Conversion.Store.Reads.{find_by_id, find_part}
use voxkivre_backend.Conversion.Store.Lists.{
  StalledConversion, find_stalled, list_parts, list_pending_segment_indexes,
  list_assemblable_part_indexes,
}
use voxkivre_backend.Conversion.Files.{manifest_key}
use voxkivre_backend.Conversion.Jobs.{schedule_preparation, schedule_synthesis, schedule_assembly}
use voxkivre_backend.Conversion.AssemblePart.{
  Assembling, is_assemblable_status, assemble, mark_ready_if_put, finalize_fresh, finalize,
  conclude_assembly, complete_with, unless_assembled, with_part, assemble_for, assemble_part,
}
use voxkivre_backend.Conversion.Reschedule.{
  stalled_queued_after_ms, stalled_synthesis_after_ms, reschedule_batch_size, reschedule_queued,
  schedule_assemblies, reschedule_one, reschedule_each, reschedule_stalled,
}
use voxkivre_backend.Conversion.System.{
  delivers, readies, Reaches, here, then_, Reaches-trans, Reaches-step,
}
use voxkivre_backend.Conversion.System.Refines.{
  >>>-Reaches, if-Reaches, schedule_preparation-Reaches, schedule_synthesis-Reaches,
  schedule_assembly-Reaches,
}

mark_ready_if_put-Reaches :
    (b : Bool) (a : Assembling) (id : ℕ) (w : World) → Reaches w (mark_ready_if_put b a id w).1
mark_ready_if_put-Reaches true a id w = Reaches-step (readies id a.ready_at)
mark_ready_if_put-Reaches false a id w = here

finalize_fresh-Reaches :
    (a : Assembling) (c : Option Conversion) (w : World) → Reaches w (finalize_fresh a c w).1
finalize_fresh-Reaches a none w = here
finalize_fresh-Reaches a (some c) w =
    if-Reaches (same_status c.status synthesized) _ _
      (if-Reaches
        (exists (λ (part : ConversionPart). not (is_set part.assembled)) (list_parts c.id w)) _ _
        here
        (mark_ready_if_put-Reaches (a.can_put (manifest_key a.names c.owner_id c.id)) a c.id w))
      here

conclude_assembly-Reaches :
    (a : Assembling) (c : Conversion) (duration_ms : ℕ) (w : World)
    → Reaches w (conclude_assembly a c duration_ms w).1
unfolding conclude_assembly finalize
conclude_assembly-Reaches a c duration_ms w =
    >>>-Reaches w (finalize_fresh a (find_by_id c.id w) w) _
      (finalize_fresh-Reaches a (find_by_id c.id w) w) (λ _ w'. here)

complete_with-Reaches :
    (a : Assembling) (c : Conversion) (part_index : ℕ) (part : Outcome (Option AssembledPart))
    (w : World)
    → Reaches w (complete_with a c part_index part w).1
complete_with-Reaches a c part_index (thrown e) w = here
complete_with-Reaches a c part_index (done none) w = here
complete_with-Reaches a c part_index (done (some part)) w =
    then_ (delivers c.id part_index part a.completed_at)
      (conclude_assembly-Reaches a c part.duration_ms _)

unless_assembled-Reaches :
    (a : Assembling) (c : Conversion) (part_index : ℕ) (part : Option AssembledPart) (w : World)
    → Reaches w (unless_assembled a c part_index part w).1
unless_assembled-Reaches a c part_index (some part) w =
    conclude_assembly-Reaches a c part.duration_ms w
unless_assembled-Reaches a c part_index none w =
    complete_with-Reaches a c part_index (assemble a c part_index w) w

with_part-Reaches :
    (a : Assembling) (c : Conversion) (part_index : ℕ) (part : Option ConversionPart) (w : World)
    → Reaches w (with_part a c part_index part w).1
with_part-Reaches a c part_index none w = here
with_part-Reaches a c part_index (some part) w =
    unless_assembled-Reaches a c part_index part.assembled w

assemble_for-Reaches :
    (a : Assembling) (part_index : ℕ) (c : Option Conversion) (w : World)
    → Reaches w (assemble_for a part_index c w).1
assemble_for-Reaches a part_index none w = here
assemble_for-Reaches a part_index (some c) w =
    if-Reaches (is_assemblable_status c.status) _ _
      (with_part-Reaches a c part_index (find_part c.id part_index w) w) here

-- The assembly of a part, whatever the storage answers and even if an exception ends it, is a
-- sequence of steps of the system.
pub assemble_part-Reaches :
    (a : Assembling) (id part_index : ℕ) (w : World) → Reaches w (assemble_part a id part_index w).1
unfolding assemble_part
assemble_part-Reaches a id part_index w = assemble_for-Reaches a part_index (find_by_id id w) w

reschedule_queued-Reaches :
    (accepts : Job → Bool) (cs : List StalledConversion) (w : World)
    → Reaches w (reschedule_queued accepts cs w).1
unfolding reschedule_queued
reschedule_queued-Reaches accepts [] w = here
reschedule_queued-Reaches accepts (c ∷ cs) w =
    Reaches-trans (schedule_preparation-Reaches accepts c.id w)
      (reschedule_queued-Reaches accepts cs (schedule_preparation accepts c.id w).1)

schedule_assemblies-Reaches :
    (accepts : Job → Bool) (id retry_key : ℕ) (part_indexes : List ℕ) (w : World)
    → Reaches w (schedule_assemblies accepts id retry_key part_indexes w).1
unfolding schedule_assemblies
schedule_assemblies-Reaches accepts id retry_key [] w = here
schedule_assemblies-Reaches accepts id retry_key (i ∷ is) w =
    >>>-Reaches w (schedule_assembly accepts id i (some retry_key) w) _
      (schedule_assembly-Reaches accepts id i (some retry_key) w)
      (λ _ w'. schedule_assemblies-Reaches accepts id retry_key is w')

reschedule_one-Reaches :
    (accepts : Job → Bool) (retry_key id : ℕ) (w : World)
    → Reaches w (reschedule_one accepts retry_key id w).1
unfolding reschedule_one
reschedule_one-Reaches accepts retry_key id w =
    let pending = list_pending_segment_indexes id w in
    let assemblable = list_assemblable_part_indexes id w in
    if-Reaches (length pending == 0 && length assemblable == 0) _ _ here (
      >>>-Reaches w (schedule_synthesis accepts id pending w) _
        (schedule_synthesis-Reaches accepts id pending w)
        (λ _ w'.
          >>>-Reaches w' (schedule_assemblies accepts id retry_key assemblable w') _
            (schedule_assemblies-Reaches accepts id retry_key assemblable w') (λ _ w''. here)))

reschedule_each-Reaches :
    (accepts : Job → Bool) (retry_key : ℕ) (cs : List StalledConversion) (w : World)
    → Reaches w (reschedule_each accepts retry_key cs w).1
unfolding reschedule_each
reschedule_each-Reaches accepts retry_key [] w = here
reschedule_each-Reaches accepts retry_key (c ∷ cs) w =
    >>>-Reaches w (reschedule_one accepts retry_key c.id w) _
      (reschedule_one-Reaches accepts retry_key c.id w)
      (λ scheduled w'.
        >>>-Reaches w' (reschedule_each accepts retry_key cs w') _
          (reschedule_each-Reaches accepts retry_key cs w') (λ count w''. here))

-- The sweep of stalled conversions, even if an exception ends it, is a sequence of steps of the
-- system.
pub reschedule_stalled-Reaches :
    (accepts : Job → Bool) (now : ℕ) (w : World) → Reaches w (reschedule_stalled accepts now w).1
unfolding reschedule_stalled
reschedule_stalled-Reaches accepts now w =
    let queued_now =
      find_stalled (same_status queued) (now - stalled_queued_after_ms) reschedule_batch_size w in
    let w' = (reschedule_queued accepts queued_now w).1 in
    let stalled =
      find_stalled (λ s. same_status s synthesizing || same_status s synthesized)
        (now - stalled_synthesis_after_ms) reschedule_batch_size w' in
    Reaches-trans (reschedule_queued-Reaches accepts queued_now w) (
      >>>-Reaches w' (reschedule_each accepts (now / 60_000) stalled w') _
        (reschedule_each-Reaches accepts (now / 60_000) stalled w') (λ more w''. here))
