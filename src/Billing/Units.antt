-- ===== src/Billing/Units.antt =====
-- billing/domain/value-objects: units of account, tiers of voice.
use voxkivre_backend.Prelude.{ℕ, ◌*◌, ◌≤◌, ◌≡◌, Outcome, done, range_error, require, leb, arith}

-- `Number.MAX_SAFE_INTEGER`
abbrev pub max_safe_integer : ℕ
max_safe_integer = 9_007_199_254_740_991

pub data VoiceTier : Type 0 where
  standard natural : VoiceTier

abbrev pub voice_tier_weight : VoiceTier → ℕ
voice_tier_weight standard = 1
voice_tier_weight natural = 4

-- `Units.of`: a natural number is an integer and not negative, so the test that is left is the
-- upper bound of a safe integer.
unfoldable pub units_of : ℕ → Outcome ℕ
units_of value = require (leb value max_safe_integer) range_error value

unfoldable pub units_for_chars : ℕ → VoiceTier → Outcome ℕ
units_for_chars chars tier = units_of (chars * voice_tier_weight tier)

pub units_of_safe : (value : ℕ) → value ≤ max_safe_integer → units_of value ≡ done value
unfolding units_of
units_of_safe value h = ground arith

pub units_of-done :
    (value n : ℕ) → units_of value ≡ done n → (n ≡ value) × (value ≤ max_safe_integer)
unfolding units_of
units_of-done value n h = ground arith
