-- ===== src/Serialize/Gregorian.antt =====
-- The Gregorian calendar, and that src/serialize.rs has its leap years and months.
use dsct.Base.{
  none, length, ℕ, zero, suc, ◌+◌, ◌-◌, ◌*◌, ◌/◌, ◌≤◌, ◌<◌, ◌≡◌, refl, ap, ◌∙◌, sym, Bool, true,
  false, Bool-cases, Option, some, List, [], ◌∷◌, ◌%◌, ◌==◌, ◌||◌, if◌then◌else◌, not, ◌&&◌, take,
  get_elem?, inl, inr, arith,
}
use dsct.Base.Bits.{table, below_table}
use dsct.Serialize.Timestamp.{TimeParts, is_leap_year, days_in_year, month_days}
use dsct.Serialize.Loops.{days_of_years, sum}

-- The Gregorian calendar, counted without the tests of the code: the leap years up to one, and so
-- whether it has a leap day, the days before it since 1970, and the length of its months.
abbrev pub leap_years : ℕ → ℕ
leap_years year = year / 4 + year / 400 - year / 100

abbrev pub leap_day : ℕ → ℕ
leap_day year = leap_years year - leap_years (year - 1)

abbrev pub days_before_year : ℕ → ℕ
days_before_year year = 365 * (year - 1970) + (leap_years (year - 1) - leap_years 1969)

unfoldable pub month_length : ℕ → ℕ → ℕ
month_length leap month =
    if month == 2
    then 28 + leap
    else if month == 4 || month == 6 || (month == 9 || month == 11)
    then 30
    else 31

unfoldable pub days_of_months : ℕ → ℕ → ℕ
unfolding month_length
days_of_months leap zero = 0
days_of_months leap (suc n) = days_of_months leap n + month_length leap (suc n)

-- The seconds since 1970 began at the time that the parts name.
unfoldable pub seconds_of : TimeParts → ℕ
unfolding days_of_months
seconds_of p =
    (days_before_year p.year + days_of_months (leap_day p.year) (p.month - 1) + (p.day - 1)) * 86400
    + (p.hours * 3600 + (p.minutes * 60 + p.seconds))

-- The parts are those of a day and a time that exist.
abbrev pub IsMoment : TimeParts → Type 0
IsMoment p =
    (1 ≤ p.month)
    × (p.month ≤ 12)
    × (1 ≤ p.day)
    × (p.day ≤ month_length (leap_day p.year) p.month)
    × (p.hours < 24)
    × (p.minutes < 60)
    × (p.seconds < 60)

-- A quotient grows by one at the multiples of the divisor.
module _ (year : ℕ) (h : 1 ≤ year) where
  by_four : year / 4 ≡ (year - 1) / 4 + (if year % 4 == 0 then 1 else 0)
  by_four = ground arith

  by_hundred : year / 100 ≡ (year - 1) / 100 + (if year % 100 == 0 then 1 else 0)
  by_hundred = ground arith

  by_four_hundred : year / 400 ≡ (year - 1) / 400 + (if year % 400 == 0 then 1 else 0)
  by_four_hundred = ground arith

  hundred_four : (year % 100 == 0) ≡ true → (year % 4 == 0) ≡ true
  hundred_four e = ground arith

  four_hundred_hundred : (year % 400 == 0) ≡ true → (year % 100 == 0) ≡ true
  four_hundred_hundred e = ground arith

  fewer : year / 100 ≤ year / 4
  fewer = omega arith

  leap_years_grow :
      (four hundred four_hundred : Bool)
      → (hundred ≡ true → four ≡ true)
      → (four_hundred ≡ true → hundred ≡ true)
      → year / 4 ≡ (year - 1) / 4 + (if four then 1 else 0)
      → year / 100 ≡ (year - 1) / 100 + (if hundred then 1 else 0)
      → year / 400 ≡ (year - 1) / 400 + (if four_hundred then 1 else 0)
      → leap_years year
        ≡ leap_years (year - 1) + (if four && not hundred || four_hundred then 1 else 0)
  leap_years_grow true true true p q a b c = omega (arith, a, b, c)
  leap_years_grow true true false p q a b c = omega (arith, a, b, c)
  leap_years_grow true false true p q a b c = absurd (cc (q refl))
  leap_years_grow true false false p q a b c = omega (arith, a, b, c)
  leap_years_grow false true true p q a b c = absurd (cc (p refl))
  leap_years_grow false true false p q a b c = absurd (cc (p refl))
  leap_years_grow false false true p q a b c = absurd (cc (q refl))
  leap_years_grow false false false p q a b c = omega (arith, a, b, c)

  -- The code's leap years are those of the count.
  leap_years-is_leap_year :
      leap_years year ≡ leap_years (year - 1) + (if is_leap_year year then 1 else 0)
  unfolding is_leap_year
  leap_years-is_leap_year =
      leap_years_grow (year % 4 == 0) (year % 100 == 0) (year % 400 == 0) hundred_four
        four_hundred_hundred by_four by_hundred by_four_hundred

days_in_year-leap_day : (year : ℕ) → 1 ≤ year → days_in_year year ≡ 365 + leap_day year
unfolding days_in_year
days_in_year-leap_day year h = elim (Bool-cases (is_leap_year year)) [
  | inl e ↦ let more = leap_years-is_leap_year year h in rw e (omega (arith, rw e at more))
  | inr e ↦ let more = leap_years-is_leap_year year h in rw e (omega (arith, rw e at more))
]

leap_years_since : (year : ℕ) → 1969 ≤ year → leap_years 1969 ≤ leap_years year
leap_years_since year h = omega arith

pub days_of_years-days_before_year :
    (n year : ℕ)
    → 1970 ≤ year
    → days_before_year year + days_of_years year n ≡ days_before_year (year + n)
unfolding days_of_years
days_of_years-days_before_year zero year h = none_more (year + 0) (omega arith)
  where
    none_more : (y : ℕ) → y ≡ year → days_before_year year + 0 ≡ days_before_year y
    none_more y e = omega (arith, ap days_before_year e)
days_of_years-days_before_year (suc n) year h =
    let one_more : days_before_year year + days_in_year year ≡ days_before_year (year + 1) =
      one year h in
    let rest = days_of_years-days_before_year n (year + 1) (omega arith) in
    let same : year + 1 + n ≡ year + suc n = omega arith in
    omega (arith, one_more, rest, ap days_before_year same)
  where
    one : (y : ℕ) → 1970 ≤ y → days_before_year y + days_in_year y ≡ days_before_year (y + 1)
    one y h =
        let back : y + 1 - 1 ≡ y = omega arith in
        let grown = leap_years-is_leap_year y (omega arith) in
        omega (
          arith,
          days_in_year-leap_day y (omega arith),
          ap leap_years back,
          grown,
          leap_years_since (y - 1) (omega arith),
        )

-- The lengths of the months, and their sums, by a table.
or_zero : Option ℕ → ℕ
or_zero none = 0
or_zero (some n) = n

abbrev bit : Bool → ℕ
bit t = if t then 1 else 0

month_table :
    (t : Bool) (j : ℕ)
    → j < 12
    → (or_zero (get_elem? (month_days t) j) ≡ month_length (bit t) (suc j))
      × (sum (take j (month_days t)) ≡ days_of_months (bit t) j)
unfolding or_zero month_length days_of_months sum table
month_table true j h = (
  below_table (λ j. or_zero (get_elem? (month_days true) j)) (λ j. month_length 1 (suc j)) 12 j h
      refl,
  below_table (λ j. sum (take j (month_days true))) (λ j. days_of_months 1 j) 12 j h refl,
)
month_table false j h = (
  below_table (λ j. or_zero (get_elem? (month_days false) j)) (λ j. month_length 0 (suc j)) 12 j h
      refl,
  below_table (λ j. sum (take j (month_days false))) (λ j. days_of_months 0 j) 12 j h refl,
)

month_within : (xs : List ℕ) (j : ℕ) {md : ℕ} → get_elem? xs j ≡ some md → j < length xs
month_within [] j e = absurd (cc e)
month_within (x ∷ xs) zero e = omega arith
month_within (x ∷ xs) (suc j) e = omega (arith, month_within xs j e)

twelve : (t : Bool) → length (month_days t) ≡ 12
twelve true = refl
twelve false = refl

bit-leap_day : (year : ℕ) → 1 ≤ year → bit (is_leap_year year) ≡ leap_day year
bit-leap_day year h = omega (arith, leap_years-is_leap_year year h)

-- A month of the code's table is one of the calendar.
pub month_found :
    (year j : ℕ) {md : ℕ}
    → 1 ≤ year
    → get_elem? (month_days (is_leap_year year)) j ≡ some md
    → (j < 12)
      × (md ≡ month_length (leap_day year) (suc j))
      × (sum (take j (month_days (is_leap_year year))) ≡ days_of_months (leap_day year) j)
unfolding or_zero
month_found year j {md} h e =
    let t = is_leap_year year in
    let within : j < 12 = omega (arith, month_within (month_days t) j e, twelve t) in
    let (len, before) = month_table t j within in
    (
      within,
      sym (ap or_zero e) ∙ len ∙ ap (λ d. month_length d (suc j)) (bit-leap_day year h),
      before ∙ ap (λ d. days_of_months d j) (bit-leap_day year h),
    )
