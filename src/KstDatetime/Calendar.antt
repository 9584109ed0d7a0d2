-- ===== src/KstDatetime/Calendar.antt =====
-- The calendar finds a date whose day number is the day that was asked for.
use native.Mathlib.Numerals.{add-one}
use nestjs_graphql_fastify_a.Common.{
  ℕ, zero, suc, ◌+◌, ◌-◌, ◌*◌, ◌/◌, ◌%◌, ◌≤◌, ◌<◌, Bool, true, false, nat_eq, if◌then◌else◌, ◌≡◌,
  refl, ap, ◌∙◌, arith,
}
use nestjs_graphql_fastify_a.KstDatetime.{
  days_in_year, days_in_month, days_before_year, days_before_month, find_year, find_month, is_leap,
  utc_fields, date_utc, Fields, ms_per_day,
}

days_in_year_range : (y : ℕ) → (365 ≤ days_in_year y) × (days_in_year y ≤ 366)
unfolding days_in_year
days_in_year_range y = ground arith

-- With fuel for more than the days that are left, the year is found.
find_year_lem :
    (fuel y d : ℕ)
    → d < fuel
    → let found = find_year fuel y d in
      (days_before_year found.0 + found.1 ≡ days_before_year y + d)
      × (found.1 < days_in_year found.0)
unfolding find_year
find_year_lem zero y d h = absurd (omega arith)
find_year_lem (suc fuel) y d h =
    ground
      (arith, find_year_lem fuel (y + 1) (d - days_in_year y), days_in_year_range y, before_next y)
  where
    before_next : (y : ℕ) → days_before_year (y + 1) ≡ days_before_year y + days_in_year y
    before_next y = rw (add-one y) (unfold days_before_year in refl)

twelve_months : (y : ℕ) → days_before_month (is_leap y) 12 ≡ days_in_year y
unfolding days_in_year days_before_month
twelve_months y = all_months (is_leap y)
  where
    all_months : (leap : Bool) → days_before_month leap 12 ≡ (if leap then 366 else 365)
    all_months true = refl
    all_months false = refl

days_in_month_range : (leap : Bool) (m : ℕ) → days_in_month leap m ≤ 31
days_in_month_range leap m = ground arith

find_month_lem :
    (leap : Bool) (fuel m d : ℕ)
    → m + fuel ≡ 12
    → days_before_month leap m + d < days_before_month leap 12
    → let found = find_month leap fuel m d in
      (days_before_month leap found.0 + found.1 ≡ days_before_month leap m + d)
      × (found.1 < days_in_month leap found.0)
      × (found.0 < 12)
unfolding find_month
find_month_lem leap zero m d e h = absurd (ground (arith, ap (days_before_month leap) e))
find_month_lem leap (suc fuel) m d e h =
    ground (arith, find_month_lem leap fuel (m + 1) (d - days_in_month leap m), before_next leap m)
  where
    before_next :
        (leap : Bool) (m : ℕ)
        → days_before_month leap (m + 1) ≡ days_before_month leap m + days_in_month leap m
    before_next leap m = rw (add-one m) (unfold days_before_month in refl)

-- The fields that the pattern's places have room for
pub record IsInRange (f : Fields) : Type 0 where
  pub month_in : f.month < 12
  pub day_in : (1 ≤ f.day) × (f.day ≤ 31)
  pub hours_in : f.hours < 24
  pub minutes_in : f.minutes < 60
  pub seconds_in : f.seconds < 60
  pub milliseconds_in : f.milliseconds < 1000

month_of_day :
    (leap : Bool) (d : ℕ)
    → d < days_before_month leap 12
    → let found = find_month leap 12 0 d in
      (days_before_month leap found.0 + found.1 ≡ d)
      × (found.1 < days_in_month leap found.0)
      × (found.0 < 12)
month_of_day leap d h = ground (arith, none_before leap, find_month_lem leap 12 0 d)
  where
    none_before : (leap : Bool) → days_before_month leap 0 ≡ 0
    none_before leap = unfold days_before_month in refl

year_of_day :
    (d : ℕ)
    → let found = find_year (suc d) 0 d in
      (days_before_year found.0 + found.1 ≡ d) × (found.1 < days_in_year found.0)
unfolding days_before_year
year_of_day d = omega (arith, find_year_lem (suc d) 0 d)

-- From the fields, `Date.UTC` counts the days before the year and the month again.
date_utc_lem :
    (y m d ms : ℕ)
    → 100 ≤ y
    → m < 12
    → ms < ms_per_day
    → date_utc y (m + 1) (d + 1) (ms / 3600000) (ms / 60000 % 60) (ms / 1000 % 60) (ms % 1000)
      ≡ (days_before_year y + days_before_month (is_leap y) m + d) * ms_per_day + ms
unfolding date_utc
date_utc_lem y m d ms hy hm hms =
    let same_year : (y * 12 + (m + 1) - 1) / 12 ≡ y = omega arith in
    let same_month : (y * 12 + (m + 1) - 1) % 12 ≡ m = omega arith in
    ground (arith, same_year, same_month)

module _ (t : ℕ) where
  abbrev day_number : ℕ
  day_number = t / ms_per_day

  abbrev year_found : ℕ × ℕ
  year_found = find_year (suc day_number) 0 day_number

  abbrev month_found : ℕ × ℕ
  month_found = find_month (is_leap year_found.0) 12 0 year_found.1

  found_month :
      (days_before_month (is_leap year_found.0) month_found.0 + month_found.1 ≡ year_found.1)
      × (month_found.1 < days_in_month (is_leap year_found.0) month_found.0)
      × (month_found.0 < 12)
  found_month =
      month_of_day (is_leap year_found.0) year_found.1
        (omega (arith, (year_of_day day_number).1, twelve_months year_found.0))

  pub utc_fields-IsInRange : IsInRange (utc_fields t)
  unfolding utc_fields
  utc_fields-IsInRange = record {
    month_in = found_month.2;
    day_in = omega (arith, found_month.1, days_in_month_range (is_leap year_found.0) month_found.0);
    hours_in = omega arith;
    minutes_in = omega arith;
    seconds_in = omega arith;
    milliseconds_in = omega arith;
  }

  -- `Date.UTC` of the UTC fields of a time is that time.
  pub date_utc-utc_fields :
      100 ≤ (utc_fields t).year
      → let f = utc_fields t in
        date_utc f.year (f.month + 1) f.day f.hours f.minutes f.seconds f.milliseconds ≡ t
  unfolding utc_fields
  date_utc-utc_fields h =
      date_utc_lem year_found.0 month_found.0 month_found.1 (t % ms_per_day) h found_month.2
        (omega arith)
      ∙ omega (arith, found_month.0, (year_of_day day_number).0)
