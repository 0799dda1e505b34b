-- ===== src/Calendar/Dates.antt =====
-- The parts of JavaScript's `Date` that web/src/components/views/CalendarView.tsx uses, in local
-- time: a date is its year, its month from 0 to 11 and its day, a moment is a date with the
-- milliseconds since its midnight. Years are natural numbers, and a local day has 24 hours.
use Prim.Native.String.{◌++◌}
use ku_crud.Base.{
  ℕ, zero, suc, ◌+◌, ◌*◌, ◌%◌, ◌≤◌, ◌<◌, String, ◌≡◌, refl, Bool, not, ◌&&◌, ◌||◌, ltb, eqb,
  if◌then◌else◌,
}
use ku_crud.Base.Text.{show, pad}

pub record Day : Type 0 where
  pub year : ℕ
  pub month : ℕ
  pub date : ℕ

pub record Moment : Type 0 where
  pub day : Day
  pub time : ℕ

abbrev pub is_leap : ℕ → Bool
is_leap y = eqb (y % 4) 0 && (not (eqb (y % 100) 0) || eqb (y % 400) 0)

-- `new Date(y, m + 1, 0).getDate()`
unfoldable pub month_length : ℕ → ℕ → ℕ
month_length y m =
    if eqb m 1
    then (if is_leap y then 29 else 28)
    else if eqb m 3 || eqb m 5 || eqb m 8 || eqb m 10
    then 30
    else 31

-- the days of a year before a month, and those before a year
unfoldable pub month_start : ℕ → ℕ → ℕ
unfolding month_length
month_start y zero = 0
month_start y (suc m) = month_start y m + month_length y m

unfoldable pub year_start : ℕ → ℕ
year_start zero = 0
year_start (suc y) = year_start y + (if is_leap y then 366 else 365)

-- the place of a date in the succession of all days
unfoldable pub number : Day → ℕ
unfolding year_start month_start
number d = year_start d.year + month_start d.year d.month + d.date

-- `d.getDay()`, 0 on a Sunday
unfoldable pub week_day : Day → ℕ
unfolding number
week_day d = (number d + 5) % 7

abbrev pub day_ms : ℕ
day_ms = 86400000

-- the order of `d <= e` on dates
unfoldable pub stamp : Moment → ℕ
unfolding number
stamp m = number m.day * day_ms + m.time

abbrev pub midnight : Day → Moment
midnight d = record { day = d; time = 0 }

-- `new Date(y, m, d + 1)` for a date of the calendar
unfoldable pub next_day : Day → Day
unfolding month_length
next_day d =
    if ltb d.date (month_length d.year d.month)
    then record d { date = d.date + 1 }
    else if ltb d.month 11
    then record { year = d.year; month = d.month + 1; date = 1 }
    else record { year = d.year + 1; month = 0; date = 1 }

pub record IsDay (d : Day) : Type 0 where
  pub in_year : d.month < 12
  pub from_one : 1 ≤ d.date
  pub in_month : d.date ≤ month_length d.year d.month

pub record IsMoment (m : Moment) : Type 0 where
  pub on_day : IsDay m.day
  pub in_day : m.time < day_ms

unfoldable pub key_of : Day → String
unfolding show pad
key_of d = show d.year ++ "-" ++ pad (d.month + 1) ++ "-" ++ pad d.date

week_day_tests :
    (week_day (record { year = 2024; month = 0; date = 1 }) ≡ 1)
    × (week_day (record { year = 1970; month = 0; date = 1 }) ≡ 4)
    × (week_day (record { year = 2000; month = 1; date = 29 }) ≡ 2)
unfolding week_day
week_day_tests = (refl, refl, refl)

key_tests : key_of (record { year = 2024; month = 1; date = 9 }) ≡ "2024-02-09"
unfolding key_of
key_tests = refl
