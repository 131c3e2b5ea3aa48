-- ===== src/Serialize/Loops.antt =====
-- The two loops of `decompose_timestamp` in src/serialize.rs find the year and the month.
use dsct.Base.{
  ℕ, zero, suc, ◌+◌, ◌-◌, ◌≤◌, ◌<◌, ◌≡◌, refl, ap, ◌∙◌, false, Bool-cases, some, List, [], ◌∷◌, ltb,
  ltb→lt, lt→ltb, subst, take, get_elem?, inl, inr, arith,
}
use dsct.Serialize.Timestamp.{is_leap_year, days_in_year, month_days, year_loop, month_loop}

ltb-false : (a b : ℕ) → ltb a b ≡ false → b ≤ a
ltb-false a b e = ground arith

not_lt : (a b : ℕ) → b ≤ a → ltb a b ≡ false
not_lt a b h = ground arith

-- The days of `n` years from `year` on.
unfoldable pub days_of_years : ℕ → ℕ → ℕ
unfolding days_in_year
days_of_years year zero = 0
days_of_years year (suc n) = days_in_year year + days_of_years (year + 1) n

unfoldable pub sum : List ℕ → ℕ
sum [] = 0
sum (n ∷ ns) = n + sum ns

year_loop_stops :
    (fuel year days : ℕ)
    → year ≤ 9999
    → days < days_in_year year
    → year_loop (suc fuel) year days ≡ some (some (year, days))
unfolding year_loop
year_loop_stops fuel year days early inside =
    rw (not_lt 9999 year early, lt→ltb days (days_in_year year) inside)

year_loop_goes_on :
    (fuel year days : ℕ)
    → year ≤ 9999
    → days_in_year year ≤ days
    → year_loop (suc fuel) year days ≡ year_loop fuel (year + 1) (days - days_in_year year)
unfolding year_loop
year_loop_goes_on fuel year days early over =
    rw (not_lt 9999 year early, not_lt days (days_in_year year) over)

in_year : (rest y z : ℕ) → y ≡ z → rest < days_in_year y → rest < days_in_year z
in_year rest y z e = subst (λ (x : ℕ). rest < days_in_year x) e

-- A year of the loop's, and the days left in it.
abbrev pub Found : ℕ → ℕ → ℕ → Type 0
Found fuel year days =
    (j : ℕ) × (rest : ℕ) × (year_loop fuel year days ≡ some (some (year + j, rest)))
    × (days_of_years year j + rest ≡ days)
    × (rest < days_in_year (year + j))

pub year_loop-Found :
    (n fuel year days : ℕ)
    → n < fuel
    → year + n ≤ 10000
    → days < days_of_years year n
    → Found fuel year days
unfolding days_of_years
year_loop-Found zero fuel year days enough limit less = absurd (omega arith)
year_loop-Found (suc n) zero year days enough limit less = absurd (omega arith)
year_loop-Found (suc n) (suc fuel) year days enough limit less =
    elim (Bool-cases (ltb days (days_in_year year))) [
      | inl e ↦ (
        0,
        days,
        year_loop_stops fuel year days (omega (arith, limit)) (ltb→lt days (days_in_year year) e)
            ∙ ap (λ (y : ℕ). some (some (y, days))) (omega arith),
        omega arith,
        in_year days year (year + 0) (omega arith) (ltb→lt days (days_in_year year) e),
      )
      | inr e ↦
          later
            (year_loop-Found n fuel (year + 1) (days - days_in_year year) (omega (arith, enough))
              (omega (arith, limit)) (omega (arith, less, over e)))
            (over e)
    ]
  where
    over : ltb days (days_in_year year) ≡ false → days_in_year year ≤ days
    over e = ltb-false days (days_in_year year) e

    later :
        Found fuel (year + 1) (days - days_in_year year)
        → days_in_year year ≤ days
        → Found (suc fuel) year days
    later (j, rest, found, total, inside) above = (
      suc j,
      rest,
      year_loop_goes_on fuel year days (omega (arith, limit)) above
          ∙ found
          ∙ ap (λ (y : ℕ). some (some (y, rest))) (omega arith),
      omega (arith, total, above),
      in_year rest (year + 1 + j) (year + suc j) (omega arith) inside,
    )

-- A month of the loop's, and the days left in it.
abbrev pub FoundMonth : List ℕ → ℕ → ℕ → Type 0
FoundMonth mds month days =
    (j : ℕ) × (rest : ℕ) × (md : ℕ) × (month_loop month days mds ≡ (month + j, rest))
    × (sum (take j mds) + rest ≡ days)
    × (get_elem? mds j ≡ some md)
    × (rest < md)

pub month_loop-FoundMonth :
    (mds : List ℕ) (month days : ℕ) → days < sum mds → FoundMonth mds month days
unfolding month_loop sum
month_loop-FoundMonth [] month days less = absurd (omega arith)
month_loop-FoundMonth (md ∷ mds) month days less = elim (Bool-cases (ltb days md)) [
  | inl e ↦ (
    0,
    days,
    md,
    rw e (ap (λ (m : ℕ). (m, days)) (omega arith)),
    omega arith,
    refl,
    ltb→lt days md e,
  )
  | inr e ↦
      later e (
        month_loop-FoundMonth mds (month + 1) (days - md)
          (omega (arith, less, ltb-false days md e)))
]
  where
    later :
        ltb days md ≡ false
        → FoundMonth mds (month + 1) (days - md)
        → FoundMonth (md ∷ mds) month days
    later e (j, rest, at, found, total, here, inside) = (
      suc j,
      rest,
      at,
      rw e (found ∙ ap (λ (m : ℕ). (m, rest)) (omega arith)),
      omega (arith, total, ltb-false days md e),
      here,
      inside,
    )

pub sum-month_days : (year : ℕ) → sum (month_days (is_leap_year year)) ≡ days_in_year year
unfolding days_in_year sum
sum-month_days year = elim (Bool-cases (is_leap_year year)) [
  | inl e ↦ rw e (omega arith)
  | inr e ↦ rw e (omega arith)
]
