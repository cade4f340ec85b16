-- ===== src/Conversion/System.antt =====
-- The statements and transactions of the conversions as steps of one system, so that launches,
-- workers and sweeps may interleave between them.
pub mod Sound
pub mod Statements
pub mod Planned
pub mod Reserved
pub mod Launched
pub mod Reached
pub mod Later
pub mod Follows
pub mod Refines
pub mod Workers
pub mod Assembly
use voxkivre_backend.Prelude.{ℕ, ◌≡◌, List, [], with_transaction}
use voxkivre_backend.Billing.Units.{VoiceTier}
use voxkivre_backend.Billing.Offers.{Offer}
use voxkivre_backend.Billing.GrantOffer.{GrantOfferInput, grant_offer}
use voxkivre_backend.Billing.System.{initial}
use voxkivre_backend.Conversion.PartPlan.{PlannedPart}
use voxkivre_backend.Conversion.Status.{
  queued, ConversionFailureReason, Conversion, PreparedSegment, SegmentAudio, AssembledPart,
}
use voxkivre_backend.Conversion.Store.{
  World, Job, mark_preparing, complete_preparation, complete_segment,
  complete_if_all_segments_synthesized, complete_part, mark_ready_if_all_parts_assembled,
}
use voxkivre_backend.Conversion.Jobs.{enqueued}
use voxkivre_backend.Conversion.StartConversion.{Launching, reserve_and_insert}
use voxkivre_backend.Conversion.FailConversion.{fail_and_refund}

pub data Step : World → World → Type 0 where
  launches :
      {w : World} (launching : Launching) (tier : VoiceTier) (c : Conversion)
      → c.status ≡ queued
      → Step w (with_transaction (reserve_and_insert launching tier c) w).1
  prepares : {w : World} (id at : ℕ) → Step w (mark_preparing id at w).1
  plans :
      {w : World} (id : ℕ) (segments : List PreparedSegment) (parts : List PlannedPart) (at : ℕ)
      → Step w (with_transaction (complete_preparation id segments parts at) w).1
  speaks :
      {w : World} (id index : ℕ) (audio : SegmentAudio) (at : ℕ)
      → Step w (complete_segment id index audio at w).1
  concludes : {w : World} (id at : ℕ) → Step w (complete_if_all_segments_synthesized id at w).1
  fails :
      {w : World} (id : ℕ) (reason : ConversionFailureReason) (now entry_id : ℕ)
      → Step w (with_transaction (fail_and_refund id reason now entry_id) w).1
  delivers :
      {w : World} (id index : ℕ) (part : AssembledPart) (at : ℕ)
      → Step w (complete_part id index part at w).1
  readies : {w : World} (id at : ℕ) → Step w (mark_ready_if_all_parts_assembled id at w).1
  enqueues : {w : World} (job : Job) → Step w (enqueued job w)
  -- a purchase, the one call of billing that conversion does not make
  buys :
      {w : World} (input : GrantOfferInput) (now id : ℕ)
      → Step w (record w { billing = (with_transaction (grant_offer input now id) w.billing).1 })

-- Any sequence of steps.
pub data Reaches : World → World → Type 0 where
  here : {w : World} → Reaches w w
  then_ : {w w' w'' : World} → Step w w' → Reaches w' w'' → Reaches w w''

pub Reaches-trans : {w w' w'' : World} → Reaches w w' → Reaches w' w'' → Reaches w w''
Reaches-trans here k = k
Reaches-trans (then_ s h) k = then_ s (Reaches-trans h k)

pub Reaches-step : {w w' : World} → Step w w' → Reaches w w'
Reaches-step s = then_ s here

-- Before anybody has converted or bought anything.
abbrev pub empty_world : List Offer → World
empty_world offers = record {
  conversions = [];
  segments = [];
  parts = [];
  billing = initial offers;
  jobs = [];
}
