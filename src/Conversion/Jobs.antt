-- ===== src/Conversion/Jobs.antt =====
-- conversion/infrastructure/queue/conversion-jobs.adapter.ts over the queue: `accepts` says which
-- jobs it takes. Identifiers of jobs, priorities and attempts are what the queue reads.
use voxkivre_backend.Prelude.{
  ℕ, Bool, true, false, List, [], ◌∷◌, Option, Outcome, done, thrown, unavailable,
}
use voxkivre_backend.Conversion.Store.{
  World, Job, prepare_conversion, synthesize_segment, assemble_part,
}

abbrev pub enqueued : Job → World → World
enqueued job w = record w { jobs = job ∷ w.jobs }

abbrev pub enqueue_if : Bool → Job → World → Outcome (Unit {0}) × World
enqueue_if true job w = (done tt, enqueued job w)
enqueue_if false job w = (thrown unavailable, w)

-- `enqueue`, which throws when the queue does not take the job.
abbrev pub enqueue : (Job → Bool) → Job → World → Outcome (Unit {0}) × World
enqueue accepts job w = enqueue_if (accepts job) job w

abbrev pub as_scheduled : Outcome (Unit {0}) × World → Bool × World
as_scheduled (done _, w) = (true, w)
as_scheduled (thrown e, w) = (false, w)

-- An exception is logged: false.
unfoldable pub schedule_preparation : (Job → Bool) → ℕ → World → Bool × World
schedule_preparation accepts id w = as_scheduled (enqueue accepts (prepare_conversion id) w)

-- What follows a call that may throw, in a run that writes as it goes.
infixl 5 ◌>>>◌
abbrev pub ◌>>>◌ {ℓ κ} :
    {A : Type ℓ} {B : Type κ}
    → Outcome A × World
    → (A → World → Outcome B × World)
    → Outcome B × World
(done a, w) >>> f = f a w
(thrown e, w) >>> f = (thrown e, w)

unfoldable pub schedule_synthesis :
    (Job → Bool) → ℕ → (indexes : List ℕ) → World → Outcome (Unit {0}) × World
schedule_synthesis accepts id [] w = (done tt, w)
schedule_synthesis accepts id (index ∷ indexes) w =
    enqueue accepts (synthesize_segment id index) w >>> λ _ w'.
    schedule_synthesis accepts id indexes w'

unfoldable pub schedule_assembly :
    (Job → Bool) → (id part_index : ℕ) (retry_key : Option ℕ) → World → Outcome (Unit {0}) × World
schedule_assembly accepts id part_index retry_key w =
    enqueue accepts (assemble_part id part_index retry_key) w
