-- ===== src/Conversion/PartPlan/Covers.antt =====
-- The parts of a plan follow each other and cover every segment.
use voxkivre_backend.Prelude.{
  ℕ, ◌+◌, ◌≤◌, ◌==◌, leb, ◌||◌, ◌≡◌, refl, Bool-cases, inl, inr, List, [], ◌∷◌, length, arith,
}
use voxkivre_backend.Conversion.PartPlan.{PlannedPart, target_of, plan_from, plan_parts}

-- The parts from number `planned` on begin at segment `first`, each where the one before it has
-- ended, with at least one segment, and the last of them ends before segment `total`.
abbrev pub AreConsecutive : (planned first total : ℕ) → List PlannedPart → Type 0
AreConsecutive planned first total [] = first ≡ total
AreConsecutive planned first total (part ∷ parts) =
    (part.index ≡ planned)
    × (part.first_segment ≡ first)
    × (first ≤ part.last_segment)
    × AreConsecutive (planned + 1) (part.last_segment + 1) total parts

plan_from-AreConsecutive :
    (planned first chars index total : ℕ) (rest : List ℕ)
    → first ≤ index
    → (length rest ≡ 0 → first ≡ index)
    → total ≡ index + length rest
    → AreConsecutive planned first total (plan_from planned first chars index rest)
unfolding plan_from
plan_from-AreConsecutive planned first chars index total [] le e t = ground (arith, e refl)
plan_from-AreConsecutive planned first chars index total (n ∷ rest) le e t =
    elim (Bool-cases (leb (target_of planned) (chars + n) || length rest == 0)) [
      | inl h ↦ rw h (
        refl,
        refl,
        le,
        plan_from-AreConsecutive (planned + 1) (index + 1) 0 (index + 1) total rest (omega arith)
            (λ z. refl) (omega arith),
      )
      | inr h ↦ rw h (
          plan_from-AreConsecutive planned first (chars + n) (index + 1) total rest (omega arith)
            (λ z. absurd (ground arith)) (omega arith))
    ]

-- The parts of a plan are numbered from 0, the first begins at segment 0, each of the others
-- where the one before it has ended, none is empty, and the last ends at the last segment.
pub plan_parts-AreConsecutive :
    (char_counts : List ℕ) → AreConsecutive 0 0 (length char_counts) (plan_parts char_counts)
unfolding plan_parts
plan_parts-AreConsecutive char_counts =
    plan_from-AreConsecutive 0 0 0 0 (length char_counts) char_counts (omega arith) (λ z. refl)
      (omega arith)
