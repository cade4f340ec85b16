-- ===== src/Conversion/Reschedule.antt =====
-- conversion/application/use-cases/reschedule-stalled-conversions.use-case.ts
use voxkivre_backend.Prelude.{
  ℕ, ◌+◌, ◌-◌, ◌/◌, ◌==◌, ◌||◌, ◌&&◌, Bool, true, false, List, [], ◌∷◌, length, some, Outcome, done,
  if◌then◌else◌,
}
use voxkivre_backend.Conversion.Status.{queued, synthesizing, synthesized, same_status}
use voxkivre_backend.Conversion.Store.{World, Job}
use voxkivre_backend.Conversion.Store.Lists.{
  StalledConversion, find_stalled, list_pending_segment_indexes, list_assemblable_part_indexes,
}
use voxkivre_backend.Conversion.Jobs.{
  ◌>>>◌, schedule_preparation, schedule_synthesis, schedule_assembly,
}

abbrev pub stalled_queued_after_ms : ℕ
stalled_queued_after_ms = 120_000

abbrev pub stalled_synthesis_after_ms : ℕ
stalled_synthesis_after_ms = 600_000

abbrev pub reschedule_batch_size : ℕ
reschedule_batch_size = 100

abbrev pub one_if : Bool → ℕ
one_if true = 1
one_if false = 0

unfoldable pub reschedule_queued : (Job → Bool) → List StalledConversion → World → ℕ × World
reschedule_queued accepts [] w = (0, w)
reschedule_queued accepts (c ∷ cs) w =
    let (scheduled, w') = schedule_preparation accepts c.id w in
    let (count, w'') = reschedule_queued accepts cs w' in (one_if scheduled + count, w'')

unfoldable pub schedule_assemblies :
    (Job → Bool)
    → ℕ
    → (retry_key : ℕ) → (part_indexes : List ℕ) → World
    → Outcome (Unit {0}) × World
schedule_assemblies accepts id retry_key [] w = (done tt, w)
schedule_assemblies accepts id retry_key (part_index ∷ part_indexes) w =
    schedule_assembly accepts id part_index (some retry_key) w >>> λ _ w'.
    schedule_assemblies accepts id retry_key part_indexes w'

-- One conversion that has waited too long: whether something was scheduled for it.
unfoldable pub reschedule_one : (Job → Bool) → (retry_key id : ℕ) → World → Outcome Bool × World
unfolding schedule_assemblies
reschedule_one accepts retry_key id w =
    let pending = list_pending_segment_indexes id w in
    let assemblable = list_assemblable_part_indexes id w in
    if length pending == 0 && length assemblable == 0
    then (done false, w)
    else (schedule_synthesis accepts id pending w >>> λ _ w'.
        schedule_assemblies accepts id retry_key assemblable w' >>> λ _ w''. (done true, w''))

unfoldable pub reschedule_each :
    (Job → Bool) → (retry_key : ℕ) → List StalledConversion → World → Outcome ℕ × World
unfolding reschedule_one
reschedule_each accepts retry_key [] w = (done 0, w)
reschedule_each accepts retry_key (c ∷ cs) w =
    reschedule_one accepts retry_key c.id w >>> λ scheduled w'.
    reschedule_each accepts retry_key cs w' >>> λ count w''. (done (one_if scheduled + count), w'')

-- The key of a second try is the minute of the sweep. A date before 1970 is no time of the clock,
-- so the differences are natural numbers.
unfoldable pub reschedule_stalled : (Job → Bool) → (now : ℕ) → World → Outcome ℕ × World
unfolding reschedule_queued reschedule_each
reschedule_stalled accepts now w =
    let queued_now =
      find_stalled (same_status queued) (now - stalled_queued_after_ms) reschedule_batch_size w in
    let (count, w') = reschedule_queued accepts queued_now w in
    let stalled =
      find_stalled (λ s. same_status s synthesizing || same_status s synthesized)
        (now - stalled_synthesis_after_ms) reschedule_batch_size w' in
    reschedule_each accepts (now / 60_000) stalled w' >>> λ more w''. (done (count + more), w'')
