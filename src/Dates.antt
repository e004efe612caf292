-- ===== src/Dates.antt =====
-- packages/shared/src/datetime-nl.ts: the calendar behind `addDays`, and the weekdays.
pub mod Clock
pub mod Phrases
pub mod Ordinal
pub mod Laws
pub mod Zone
use ai_phone_plattform.Prelude.{
  ℕ, zero, suc, ◌+◌, ◌-◌, ◌%◌, Bool, not, ◌&&◌, ◌||◌, ◌==◌, ltb, if◌then◌else◌,
}

pub record CalendarDate : Type 0 where
  pub year : ℕ
  pub month : ℕ
  pub day : ℕ

abbrev pub date : ℕ → ℕ → ℕ → CalendarDate
date y m d = record { year = y; month = m; day = d }

-- `NlNow`, and `ZonedParts` of apps/api/src/lib/timezone.ts
pub record NlNow : Type 0 where
  pub today : CalendarDate
  pub hour : ℕ
  pub minute : ℕ
  -- 0 is Sunday
  pub weekday : ℕ

-- The Gregorian calendar of `Date`.
unfoldable pub is_leap : ℕ → Bool
is_leap y = y % 4 == 0 && (not (y % 100 == 0) || y % 400 == 0)

unfoldable pub days_in_month : ℕ → ℕ → ℕ
unfolding is_leap
days_in_month y m =
    if m == 2
    then (if is_leap y then 29 else 28)
    else if m == 4 || m == 6 || (m == 9 || m == 11)
    then 30
    else 31

unfoldable pub next_day : CalendarDate → CalendarDate
unfolding days_in_month
next_day t =
    if ltb t.day (days_in_month t.year t.month)
    then record t { day = t.day + 1 }
    else if ltb t.month 12
    then date t.year (t.month + 1) 1
    else date (t.year + 1) 1 1

-- `addDays`: `setUTCDate` of a date of the calendar goes on by whole days. The years from 100 on, since
-- `Date.UTC` reads the years before as those of the 20th century.
unfoldable pub add_days : CalendarDate → ℕ → CalendarDate
unfolding next_day
add_days t zero = t
add_days t (suc n) = next_day (add_days t n)

-- `daysUntilWeekday`
unfoldable pub days_until_weekday : ℕ → ℕ → ℕ
days_until_weekday from target = let diff = (target + 7 - from) % 7 in if diff == 0 then 7 else diff
