-- ===== src/Conversion/PartPlan.antt =====
-- conversion/domain/services/part-plan.ts: consecutive segments make a part.
pub mod Covers
use voxkivre_backend.Prelude.{
  ℕ, ◌+◌, ◌-◌, ◌==◌, leb, ◌||◌, List, [], ◌∷◌, ◌++◌, length, if◌then◌else◌,
}

abbrev pub first_part_target_chars : ℕ
first_part_target_chars = 1800

abbrev pub part_target_chars : ℕ
part_target_chars = 9000

pub record PlannedPart : Type 0 where
  pub index : ℕ
  pub first_segment : ℕ
  pub last_segment : ℕ

-- The characters that a part is to reach, by the number of parts before it.
abbrev pub target_of : ℕ → ℕ
target_of planned = if planned == 0 then first_part_target_chars else part_target_chars

-- The loop over the sizes of the segments: `index` is the position, `planned` the number of parts
-- pushed so far, and `first` and `chars` are the source's variables. A segment is the last one
-- when none is left.
unfoldable pub plan_from : (planned first chars index : ℕ) → List ℕ → List PlannedPart
plan_from planned first chars index [] = []
plan_from planned first chars index (char_count ∷ rest) =
    let closed =
      record { index = planned; first_segment = first; last_segment = index }
      ∷ plan_from (planned + 1) (index + 1) 0 (index + 1) rest in
    let goes_on = plan_from planned first (chars + char_count) (index + 1) rest in
    if leb (target_of planned) (chars + char_count) || length rest == 0 then closed else goes_on

unfoldable pub plan_parts : List ℕ → List PlannedPart
unfolding plan_from
plan_parts char_counts = plan_from 0 0 0 0 char_counts
