-- ===== src/Billing/Period.antt =====
-- billing/domain/value-objects/quota-period.vo.ts. The text `YYYY-MM` is the number YYYYMM. A date
-- is its milliseconds since 1970-01-01 UTC; the year and the month are those of the proleptic
-- Gregorian calendar, as `getUTCFullYear` and `getUTCMonth` give them, counted in years that begin
-- in March.
use voxkivre_backend.Prelude.{ℕ, ◌+◌, ◌-◌, ◌*◌, ◌/◌, ◌%◌, ◌≡◌, refl, ltb, if◌then◌else◌}

-- Days since 0000-03-01.
abbrev day_number : ℕ → ℕ
day_number ms = ms / 86_400_000 + 719_468

abbrev day_of_era : ℕ → ℕ
day_of_era day = day % 146_097

abbrev year_of_era : ℕ → ℕ
year_of_era doe = (doe - doe / 1460 + doe / 36_524 - doe / 146_096) / 365

abbrev day_of_year : ℕ → ℕ → ℕ
day_of_year doe yoe = doe - (365 * yoe + yoe / 4 - yoe / 100)

-- March is 0.
abbrev month_index : ℕ → ℕ
month_index doy = (5 * doy + 2) / 153

abbrev civil : ℕ → ℕ → ℕ
civil year month = if ltb month 10 then year * 100 + (month + 3) else (year + 1) * 100 + (month - 9)

unfoldable pub period_at : ℕ → ℕ
period_at ms =
    let day = day_number ms in
    let doe = day_of_era day in
    let yoe = year_of_era doe in
    civil (day / 146_097 * 400 + yoe) (month_index (day_of_year doe yoe))

-- 2000-02-29, 2023-12-31T23:59:59.999Z, 2024-01-01, 2026-11-26
period_at_tests :
    (period_at 951_782_400_000 ≡ 200_002)
    × (period_at 1_704_067_199_999 ≡ 202_312)
    × (period_at 1_704_067_200_000 ≡ 202_401)
    × (period_at 1_795_701_600_000 ≡ 202_611)
unfolding period_at
period_at_tests = (refl, refl, refl, refl)
