-- ===== src/Conversion.antt =====
-- src/modules/conversion: a text becomes an audio book.
pub mod Ssml
pub mod Segmenter
pub mod PartPlan
pub mod Timeline
pub mod Webvtt
pub mod Files
pub mod Status
pub mod Store
pub mod Jobs
pub mod StartConversion
pub mod FailConversion
pub mod PrepareConversion
pub mod SynthesizeSegment
pub mod Manifest
pub mod AssemblePart
pub mod Reschedule
pub mod Overview
pub mod GetConversion
pub mod System
pub mod Outcomes
mod Tests
