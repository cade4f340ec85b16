-- ===== src/Shared/Text/Decimal.antt =====
-- The digits of a number are ASCII.
use voxkivre_backend.Prelude.{ℕ, zero, suc, ◌+◌, ◌/◌, ◌%◌, ltb, Bool-cases, inl, inr, ◌∷◌, arith}
use voxkivre_backend.Shared.Text.{Text, digits_before, decimal}
use voxkivre_backend.Shared.Text.Utf8.{IsAscii}

digits_before-IsAscii :
    (fuel n : ℕ) (rest : Text) → IsAscii rest → IsAscii (digits_before fuel n rest)
unfolding digits_before
digits_before-IsAscii zero n rest h = h
digits_before-IsAscii (suc fuel) n rest h = elim (Bool-cases (ltb n 10)) [
  | inl e ↦ rw e (ground arith, h)
  | inr e ↦ rw e (digits_before-IsAscii fuel (n / 10) ((48 + n % 10) ∷ rest) (omega arith, h))
]

pub decimal-IsAscii : (n : ℕ) → IsAscii (decimal n)
unfolding decimal
decimal-IsAscii n = digits_before-IsAscii (suc n) n _ tt
