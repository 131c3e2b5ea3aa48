-- ===== src/Serialize/Timestamp.antt =====
-- `decompose_timestamp` of src/serialize.rs: the date and time of a number of seconds since 1970.
use dsct.Base.{
  ℕ, zero, suc, ◌+◌, ◌-◌, ◌/◌, ◌%◌, Bool, true, false, not, ◌&&◌, ◌||◌, Option, none, some, List,
  [], ◌∷◌, ltb, ◌==◌, if◌then◌else◌, ◌>>=◌,
}

pub record TimeParts : Type 0 where
  pub year : ℕ
  pub month : ℕ
  pub day : ℕ
  pub hours : ℕ
  pub minutes : ℕ
  pub seconds : ℕ

unfoldable pub is_leap_year : ℕ → Bool
is_leap_year year = year % 4 == 0 && not (year % 100 == 0) || year % 400 == 0

unfoldable pub days_in_year : ℕ → ℕ
unfolding is_leap_year
days_in_year year = if is_leap_year year then 366 else 365

abbrev pub month_days : Bool → List ℕ
month_days true = 31 ∷ 29 ∷ 31 ∷ 30 ∷ 31 ∷ 30 ∷ 31 ∷ 31 ∷ 30 ∷ 31 ∷ 30 ∷ 31 ∷ []
month_days false = 31 ∷ 28 ∷ 31 ∷ 30 ∷ 31 ∷ 30 ∷ 31 ∷ 31 ∷ 30 ∷ 31 ∷ 30 ∷ 31 ∷ []

-- The year and the days left, or nothing inside behind the year 9999; nothing at all out of fuel.
unfoldable pub year_loop : ℕ → ℕ → ℕ → Option (Option (ℕ × ℕ))
unfolding days_in_year
year_loop zero year days = none
year_loop (suc fuel) year days =
    let later = year_loop fuel (year + 1) (days - days_in_year year) in
    if ltb 9999 year
    then some none
    else if ltb days (days_in_year year)
    then some (some (year, days))
    else later

unfoldable pub month_loop : ℕ → ℕ → List ℕ → ℕ × ℕ
month_loop month days [] = (month, days)
month_loop month days (md ∷ mds) =
    let later = month_loop (month + 1) (days - md) mds in
    if ltb days md then (month, days) else later

abbrev pub last_moment : TimeParts
last_moment = record { year = 9999; month = 12; day = 31; hours = 23; minutes = 59; seconds = 59 }

abbrev pub parts_of : ℕ → ℕ → ℕ × ℕ → TimeParts
parts_of secs year (month, days) = record {
  year = year;
  month = month;
  day = days + 1;
  hours = secs % 86400 / 3600;
  minutes = secs % 86400 % 3600 / 60;
  seconds = secs % 86400 % 60;
}

abbrev pub with_year : ℕ → Option (ℕ × ℕ) → TimeParts
with_year secs none = last_moment
with_year secs (some (year, days)) =
    parts_of secs year (month_loop 1 days (month_days (is_leap_year year)))

unfoldable pub decompose_timestamp : ℕ → Option TimeParts
unfolding year_loop month_loop is_leap_year
decompose_timestamp secs = do
  found ← year_loop 8032 1970 (secs / 86400)
  some (with_year secs found)
