-- ===== src/Serialize/Calendar.antt =====
-- The date and time that src/serialize.rs takes a timestamp apart into is the one it counts.
use dsct.Base.{ℕ, suc, ◌+◌, ◌-◌, ◌/◌, ◌<◌, ◌≡◌, ap, ◌∙◌, Option, some, arith, ◌>>=◌}
use dsct.Serialize.Timestamp.{
  TimeParts, is_leap_year, month_days, year_loop, parts_of, with_year, decompose_timestamp,
}
use dsct.Serialize.Loops.{
  days_of_years, Found, FoundMonth, year_loop-Found, month_loop-FoundMonth, sum-month_days,
}
use dsct.Serialize.Gregorian.{
  leap_day, days_before_year, month_length, days_of_months, seconds_of, IsMoment,
  days_of_years-days_before_year, month_found,
}

back : (a b : ℕ) → a + b - a ≡ b
back a b = omega arith

-- A timestamp before the year 10000 is taken apart into the existing date and time, of the Gregorian
-- calendar, that lies as many seconds after 1970 began.
pub decompose_timestamp-IsMoment :
    (secs : ℕ)
    → secs / 86400 < days_before_year 10000
    → (p : TimeParts) × (decompose_timestamp secs ≡ some p) × (seconds_of p ≡ secs) × IsMoment p
unfolding decompose_timestamp seconds_of
decompose_timestamp-IsMoment secs early = of_year (
    year_loop-Found 8030 8032 1970 (secs / 86400) (omega arith) (omega arith)
      (omega (arith, early, days_of_years-days_before_year 8030 1970 (omega arith))))
  where
    of_month :
        (j rest : ℕ)
        → year_loop 8032 1970 (secs / 86400) ≡ some (some (1970 + j, rest))
        → days_of_years 1970 j + rest ≡ secs / 86400
        → FoundMonth (month_days (is_leap_year (1970 + j))) 1 rest
        → (p : TimeParts) × (decompose_timestamp secs ≡ some p) × (seconds_of p ≡ secs) × IsMoment p
    of_month j rest found total (m, days, md, month, sums, here, inside) =
        let (within, md_length, before) = month_found (1970 + j) m (omega arith) here in
        let next_month : 1 + m ≡ suc m = omega arith in
        let months = days_of_months (leap_day (1970 + j)) in
        (
          parts_of secs (1970 + j) (1 + m, days),
          ap (λ (o : Option (Option (ℕ × ℕ))). o >>= λ f. some (with_year secs f)) found
              ∙ ap (λ (md : ℕ × ℕ). some (parts_of secs (1970 + j) md)) month,
          omega (
            arith,
            days_of_years-days_before_year j 1970 (omega arith),
            ap months (back 1 m),
            total,
            sums,
            before,
          ),
          (
            omega arith,
            omega (arith, within),
            omega arith,
            omega (arith, inside, md_length, ap (month_length (leap_day (1970 + j))) next_month),
            omega arith,
            omega arith,
            omega arith,
          ),
        )

    of_year :
        Found 8032 1970 (secs / 86400)
        → (p : TimeParts) × (decompose_timestamp secs ≡ some p) × (seconds_of p ≡ secs) × IsMoment p
    of_year (j, rest, found, total, inside) = of_month j rest found total (
        month_loop-FoundMonth (month_days (is_leap_year (1970 + j))) 1 rest
          (omega (arith, inside, sum-month_days (1970 + j))))
