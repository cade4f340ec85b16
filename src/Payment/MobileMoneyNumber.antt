-- ===== src/Payment/MobileMoneyNumber.antt =====
-- payment/domain/value-objects/mobile-money-number.vo.ts. A text is the list of its characters'
-- codes.
pub mod Shape
use voxkivre_backend.Prelude.{
  ℕ, zero, suc, ◌-◌, ◌==◌, leb, ◌&&◌, ◌||◌, not, Bool, true, false, List, [], ◌∷◌, select, length,
  Option, none, some, if◌then◌else◌,
}
use voxkivre_backend.Shared.IdempotencyKey.{is_space}

-- Spaces, parentheses, the dash and the dot.
abbrev pub is_ignored : ℕ → Bool
is_ignored c = is_space c || (c == 40) || (c == 41) || (c == 45) || (c == 46)

abbrev pub is_digit : ℕ → Bool
is_digit c = leb 48 c && leb c 57

-- \d{n}, to the end of the text
abbrev pub digits_exactly : ℕ → List ℕ → Bool
digits_exactly zero [] = true
digits_exactly zero (c ∷ cs) = false
digits_exactly (suc n) [] = false
digits_exactly (suc n) (c ∷ cs) = is_digit c && digits_exactly n cs

-- What follows a prefix, if the text starts with it.
abbrev pub after : List ℕ → List ℕ → Option (List ℕ)
after [] cs = some cs
after (p ∷ ps) [] = none
after (p ∷ ps) (c ∷ cs) = if c == p then after ps cs else none

abbrev rest_is_digits : ℕ → Option (List ℕ) → Bool
rest_is_digits n none = false
rest_is_digits n (some cs) = digits_exactly n cs

-- +2376
abbrev pub cameroon_prefix : List ℕ
cameroon_prefix = 43 ∷ 50 ∷ 51 ∷ 55 ∷ 54 ∷ []

unfoldable pub is_cameroon_mobile : List ℕ → Bool
is_cameroon_mobile cs = rest_is_digits 8 (after cameroon_prefix cs)

unfoldable pub is_local_mobile : List ℕ → Bool
is_local_mobile cs = rest_is_digits 8 (after (54 ∷ []) cs)

abbrev starts_with_237 : Option (List ℕ) → Bool
starts_with_237 none = false
starts_with_237 (some cs) = true

unfoldable pub to_e164 : List ℕ → List ℕ
to_e164 compact =
    if is_local_mobile compact
    then 43 ∷ 50 ∷ 51 ∷ 55 ∷ compact
    else if starts_with_237 (after (50 ∷ 51 ∷ 55 ∷ []) compact)
    then 43 ∷ compact
    else compact

abbrev pub compact_of : List ℕ → List ℕ
compact_of raw = select (λ c. not (is_ignored c)) raw

unfoldable pub of : List ℕ → Option (List ℕ)
of raw = let e164 = to_e164 (compact_of raw) in if is_cameroon_mobile e164 then some e164 else none

-- slice(-n)
abbrev drop : ℕ → List ℕ → List ℕ
drop zero cs = cs
drop (suc n) [] = []
drop (suc n) (c ∷ cs) = drop n cs

abbrev pub suffix : List ℕ → List ℕ
suffix phone = drop (length phone - 2) phone

abbrev pub digits : List ℕ → List ℕ
digits phone = drop 1 phone
