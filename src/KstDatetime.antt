-- ===== src/KstDatetime.antt =====
-- Timestamps in the database as Korean wall-clock text
-- (apps/auth/src/database/kst-datetime.ts). A `Date` is its milliseconds, counted from the start of the
-- year 0 where JavaScript counts them from 1970; earlier dates are not modelled.
mod Calendar
mod Written
mod Fraction
mod RoundTrip
mod Tests
use Prim.Native.Char.{Char, code}
use Prim.Native.String as Str
use Prim.Native.String.{count}
use nestjs_graphql_fastify_a.Common.{
  ℕ, zero, suc, ◌+◌, ◌-◌, ◌*◌, ◌/◌, ◌%◌, String, Bool, true, false, not, ◌&&◌, ◌||◌, Option, none,
  some, List, [], ◌∷◌, ltb, leb, ◌==◌, nat_eq, string_eq, if◌then◌else◌,
}
use nestjs_graphql_fastify_a.Common.Text.{
  template, to_text, trim, number, is_digit, slice_to, pad_start, pad_end,
}

abbrev pub kst_offset_ms : ℕ
kst_offset_ms = 9 * 60 * 60 * 1000

abbrev pub ms_per_day : ℕ
ms_per_day = 86400000

-- The calendar of `Date`, in UTC
unfoldable pub is_leap : ℕ → Bool
is_leap y = y % 4 == 0 && (not (y % 100 == 0) || y % 400 == 0)

unfoldable pub days_in_year : ℕ → ℕ
days_in_year y = if is_leap y then 366 else 365

-- The months are counted from 0, as JavaScript counts them.
abbrev pub days_in_month : Bool → ℕ → ℕ
days_in_month leap month =
    if month == 1
    then (if leap then 29 else 28)
    else if month == 3 || month == 5 || month == 8 || month == 10
    then 30
    else 31

unfoldable pub days_before_year : ℕ → ℕ
days_before_year zero = 0
days_before_year (suc y) = days_before_year y + days_in_year y

unfoldable pub days_before_month : Bool → ℕ → ℕ
days_before_month leap zero = 0
days_before_month leap (suc m) = days_before_month leap m + days_in_month leap m

-- The year that has the day `d` counted from the start of the year `y`, and the day in that year
unfoldable pub find_year : (fuel y d : ℕ) → ℕ × ℕ
find_year zero y d = (y, d)
find_year (suc fuel) y d =
    let later = find_year fuel (y + 1) (d - days_in_year y) in
    if ltb d (days_in_year y) then (y, d) else later

unfoldable pub find_month : Bool → (fuel m d : ℕ) → ℕ × ℕ
find_month leap zero m d = (m, d)
find_month leap (suc fuel) m d =
    let later = find_month leap fuel (m + 1) (d - days_in_month leap m) in
    if ltb d (days_in_month leap m) then (m, d) else later

-- What the `getUTC…` methods give; the day of the month counts from 1.
pub record Fields : Type 0 where
  pub year : ℕ
  pub month : ℕ
  pub day : ℕ
  pub hours : ℕ
  pub minutes : ℕ
  pub seconds : ℕ
  pub milliseconds : ℕ

unfoldable pub utc_fields : ℕ → Fields
unfolding find_year find_month
utc_fields t =
    let days = t / ms_per_day in
    let ms = t % ms_per_day in
    let (year, day_of_year) = find_year (suc days) 0 days in
    let (month, day_of_month) = find_month (is_leap year) 12 0 day_of_year in
    record {
      year = year;
      month = month;
      day = day_of_month + 1;
      hours = ms / 3600000;
      minutes = ms / 60000 % 60;
      seconds = ms / 1000 % 60;
      milliseconds = ms % 1000;
    }

-- `Date.UTC(year, month - 1, day, hours, minutes, seconds, milliseconds)`: years below 100 count from
-- 1900, and a month that the year does not have is carried into the year.
unfoldable pub date_utc : (year month : ℕ) → (day hours minutes seconds milliseconds : ℕ) → ℕ
date_utc year month day hours minutes seconds milliseconds =
    let full_year = if leb year 99 then 1900 + year else year in
    let months = full_year * 12 + month - 1 in
    let y = months / 12 in
    let days = days_before_year y + days_before_month (is_leap y) (months % 12) + day - 1 in
    days * ms_per_day + hours * 3600000 + minutes * 60000 + seconds * 1000 + milliseconds

-- `pad(value, length)`
unfoldable pub pad : (value length : ℕ) → String
pad value length = pad_start length "0" (to_text value)

unfoldable pub format_kst_datetime : ℕ → String
unfolding utc_fields pad
format_kst_datetime value =
    let kst = utc_fields (value + kst_offset_ms) in
    template (
      to_text kst.year
      ∷ "-"
      ∷ pad (kst.month + 1) 2
      ∷ "-"
      ∷ pad kst.day 2
      ∷ " "
      ∷ pad kst.hours 2
      ∷ ":"
      ∷ pad kst.minutes 2
      ∷ ":"
      ∷ pad kst.seconds 2
      ∷ "."
      ∷ pad kst.milliseconds 3
      ∷ [])

-- `(\d{k})`: the number and the rest of the text
unfoldable pub digits : (k acc : ℕ) → String → Option (ℕ × String)
digits zero acc s = some (acc, s)
digits (suc k) acc Str.[] = none
digits (suc k) acc (Str.◌∷◌ c s) =
    let rest = digits k (acc * 10 + (code c - b'0')) s in if is_digit (code c) then rest else none

-- One character of those that the pattern allows
unfoldable pub expect : (allowed other : ℕ) → String → Option String
expect allowed other Str.[] = none
expect allowed other (Str.◌∷◌ c s) = if code c == allowed || code c == other then some s else none

unfoldable pub all_digits : String → Bool
all_digits Str.[] = true
all_digits (Str.◌∷◌ c s) = let rest = all_digits s in is_digit (code c) && rest

-- `(?:\.(\d{1,6}))?$`: the fraction, "" where there is none
unfoldable pub fraction_of : String → Option String
fraction_of Str.[] = some ""
fraction_of (Str.◌∷◌ c s) =
    if code c == b'.' && all_digits s && leb 1 (count s) && leb (count s) 6 then some s else none

abbrev pub bind {ℓ κ} : {A : Type ℓ} {B : Type κ} → Option A → (A → Option B) → Option B
bind none f = none
bind (some a) f = f a

-- `Number(fraction.padEnd(3, '0').slice(0, 3))`
unfoldable pub milliseconds_of : String → Option ℕ
milliseconds_of fraction = number (slice_to 3 (pad_end 3 "0" fraction))

-- `parseKstDatetime`: `none` where it throws.
unfoldable pub parse_kst_datetime : String → Option ℕ
parse_kst_datetime value = bind (digits 4 0 (trim value)) λ year.
    bind (expect b'-' b'-' year.1) λ s. bind (digits 2 0 s) λ month.
      bind (expect b'-' b'-' month.1) λ s. bind (digits 2 0 s) λ day.
        bind (expect b' ' b'T' day.1) λ s. bind (digits 2 0 s) λ hours.
          bind (expect b':' b':' hours.1) λ s. bind (digits 2 0 s) λ minutes.
            bind (expect b':' b':' minutes.1) λ s. bind (digits 2 0 s) λ seconds.
              bind (fraction_of seconds.1) λ fraction. bind (milliseconds_of fraction) λ ms.
                some (date_utc year.0 month.0 day.0 hours.0 minutes.0 seconds.0 ms - kst_offset_ms)

-- `dataType(config)`
unfoldable pub data_type : (fsp : Option ℕ) → String
data_type none = "datetime"
data_type (some fsp) = template ("datetime(" ∷ to_text fsp ∷ ")" ∷ [])
