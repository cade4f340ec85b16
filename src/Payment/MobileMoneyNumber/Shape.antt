-- ===== src/Payment/MobileMoneyNumber/Shape.antt =====
-- The numbers that `MobileMoneyNumber.of` lets through.
use voxkivre_backend.Prelude.{
  ℕ, zero, suc, ◌≡◌, refl, sym, true, Bool-cases, inl, inr, List, [], ◌∷◌, length, some, arith, ap,
  ◌∙◌,
}
use voxkivre_backend.Payment.MobileMoneyNumber.{
  digits_exactly, is_cameroon_mobile, is_local_mobile, to_e164, compact_of, of,
}

digits_exactly-length : (n : ℕ) (cs : List ℕ) → digits_exactly n cs ≡ true → length cs ≡ n
digits_exactly-length zero [] h = refl
digits_exactly-length zero (c ∷ cs) h = absurd (cc)
digits_exactly-length (suc n) [] h = absurd (cc)
digits_exactly-length (suc n) (c ∷ cs) h = ground (arith, digits_exactly-length n cs)

-- A number in its normal form: +2376 and eight digits.
abbrev pub IsNormal : List ℕ → Type 0
IsNormal cs =
    (rest : List ℕ) × (cs ≡ 43 ∷ 50 ∷ 51 ∷ 55 ∷ 54 ∷ rest) × (digits_exactly 8 rest ≡ true)

is_cameroon_mobile-IsNormal : (cs : List ℕ) → is_cameroon_mobile cs ≡ true → IsNormal cs
unfolding is_cameroon_mobile
is_cameroon_mobile-IsNormal [] h = absurd (cc)
is_cameroon_mobile-IsNormal (a ∷ []) h = absurd (ground arith)
is_cameroon_mobile-IsNormal (a ∷ b ∷ []) h = absurd (ground arith)
is_cameroon_mobile-IsNormal (a ∷ b ∷ c ∷ []) h = absurd (ground arith)
is_cameroon_mobile-IsNormal (a ∷ b ∷ c ∷ d ∷ []) h = absurd (ground arith)
is_cameroon_mobile-IsNormal (a ∷ b ∷ c ∷ d ∷ e ∷ rest) h = (rest, ground arith, ground arith)

digits_kept : (n : ℕ) (cs : List ℕ) → digits_exactly n cs ≡ true → compact_of cs ≡ cs
digits_kept zero [] h = refl
digits_kept zero (c ∷ cs) h = absurd (cc)
digits_kept (suc n) [] h = absurd (cc)
digits_kept (suc n) (c ∷ cs) h = ground (arith, digits_kept n cs)

pub of-IsNormal : (raw phone : List ℕ) → of raw ≡ some phone → IsNormal phone
unfolding of
of-IsNormal raw phone h =
    let e164 = to_e164 (compact_of raw) in
    elim (Bool-cases (is_cameroon_mobile e164)) [
      | inl e ↦
          let same : e164 ≡ phone = ground arith in
          is_cameroon_mobile-IsNormal phone (ap is_cameroon_mobile (sym same) ∙ e)
      | inr e ↦ absurd (ground arith)
    ]

normal-of :
    (rest : List ℕ)
    → digits_exactly 8 rest ≡ true
    → of (43 ∷ 50 ∷ 51 ∷ 55 ∷ 54 ∷ rest) ≡ some (43 ∷ 50 ∷ 51 ∷ 55 ∷ 54 ∷ rest)
unfolding of to_e164 is_local_mobile is_cameroon_mobile
normal-of rest h = rw (digits_kept 8 rest h, h) refl

-- A number that is accepted is `+2376` and eight digits, thirteen characters, and it is accepted
-- again as it is.
pub of_lem :
    (raw phone : List ℕ)
    → of raw ≡ some phone
    → IsNormal phone × (length phone ≡ 13) × (of phone ≡ some phone)
of_lem raw phone h =
    let (rest, same, d) = of-IsNormal raw phone h in
    (
      (rest, same, d),
      ground (arith, digits_exactly-length 8 rest d),
      ap of same ∙ normal-of rest d ∙ ap some (sym same),
    )
