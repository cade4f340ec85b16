-- ===== src/Billing/Allocation.antt =====
-- billing/domain/services/allocation.ts
pub mod Greedy
use voxkivre_backend.Prelude.{
  ℕ, ◌+◌, ◌-◌, ltb, min, List, [], ◌∷◌, Outcome, done, ◌>>=◌, Result, ok, err, if◌then◌else◌,
}
use mathlib.Core.List.{reverse}
use voxkivre_backend.Billing.Units.{VoiceTier, standard, natural, units_of}

pub data QuotaSource : Type 0 where
  free pass credits : QuotaSource

abbrev pub debit_order : List QuotaSource
debit_order = free ∷ pass ∷ credits ∷ []

abbrev pub refund_order : List QuotaSource
refund_order = reverse debit_order

pub record UnitsBySource : Type 0 where
  pub free : ℕ
  pub pass : ℕ
  pub credits : ℕ

pub record Shortfall : Type 0 where
  pub requested : ℕ
  pub tier : VoiceTier
  pub available : UnitsBySource
  pub usable : ℕ

abbrev pub of_source : UnitsBySource → QuotaSource → ℕ
of_source u free = u.free
of_source u pass = u.pass
of_source u credits = u.credits

abbrev set_source : UnitsBySource → QuotaSource → ℕ → UnitsBySource
set_source u free n = record u { free = n }
set_source u pass n = record u { pass = n }
set_source u credits n = record u { credits = n }

abbrev pub nothing_taken : UnitsBySource
nothing_taken = record { free = 0; pass = 0; credits = 0 }

-- Free units pay for the standard voices only.
unfoldable pub usable_from : QuotaSource → VoiceTier → UnitsBySource → ℕ
usable_from free natural available = 0
usable_from source tier available = of_source available source

-- One loop serves both functions of the file: `from s` is what source `s` may give, and the
-- state is what each source gave with what is still missing.
spread : (QuotaSource → ℕ) → List QuotaSource → UnitsBySource → ℕ → UnitsBySource × ℕ
spread from [] taken missing = (taken, missing)
spread from (source ∷ rest) taken missing =
    let take = min missing (from source) in
    spread from rest (set_source taken source take) (missing - take)

-- `Units.of` on each part of the result.
abbrev units_by_source : UnitsBySource → Outcome UnitsBySource
units_by_source u = do
  f ← units_of u.free
  p ← units_of u.pass
  c ← units_of u.credits
  done (record { free = f; pass = p; credits = c })

unfoldable pub allocate : ℕ → VoiceTier → UnitsBySource → Outcome (Result UnitsBySource Shortfall)
unfolding spread
allocate requested tier available =
    let (taken, missing) =
      spread (λ s. usable_from s tier available) debit_order nothing_taken requested in
    if ltb 0 missing
    then (do
      usable ← units_of (requested - missing)
      done (
          err (record {
            requested = requested;
            tier = tier;
            available = available;
            usable = usable;
          })))
    else (do units ← units_by_source taken; done (ok units))

unfoldable pub split_refund : UnitsBySource → ℕ → Outcome UnitsBySource
unfolding spread
split_refund reserved units =
    units_by_source (spread (of_source reserved) refund_order nothing_taken units).0

unfoldable pub total_units : UnitsBySource → Outcome ℕ
total_units u = units_of (u.free + u.pass + u.credits)
