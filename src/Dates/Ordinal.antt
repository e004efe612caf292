-- ===== src/Dates/Ordinal.antt =====
-- The days of the calendar in order: a closed formula for the number of a day, day 1 being 1 January
-- of the year 1, and the steps of `addDays` (packages/shared/src/datetime-nl.ts) on it.
use ai_phone_plattform.Prelude.{
  ℕ, zero, suc, ◌+◌, ◌-◌, ◌*◌, ◌/◌, ◌%◌, ◌≤◌, ◌<◌, ◌≡◌, refl, ap, arith, leb, if◌then◌else◌,
  Bool-cases, inl, inr, ltb,
}
use ai_phone_plattform.Dates.{
  CalendarDate, is_leap, days_in_month, next_day, add_days, days_until_weekday,
}

pub record IsValid (t : CalendarDate) : Type 0 where
  pub year_pos : 1 ≤ t.year
  pub month_pos : 1 ≤ t.month
  pub month_le : t.month ≤ 12
  pub day_pos : 1 ≤ t.day
  pub day_le : t.day ≤ days_in_month t.year t.month

unfoldable pub year_start : ℕ → ℕ
year_start y = let p = y - 1 in 365 * p + p / 4 + p / 400 - p / 100

-- the days before a month, which from March on follow a line of slope 153 / 5
unfoldable pub month_start : ℕ → ℕ → ℕ
month_start y m =
    if leb m 2 then 31 * (m - 1) else (153 * (m - 3) + 2) / 5 + (if is_leap y then 60 else 59)

unfoldable pub ordinal : CalendarDate → ℕ
ordinal t = year_start t.year + month_start t.year t.month + t.day

month_start-next :
    (y m : ℕ) → 1 ≤ m → m < 12 → month_start y (m + 1) ≡ month_start y m + days_in_month y m
unfolding month_start days_in_month
month_start-next y m h k = ground arith

month_start-twelve : (y : ℕ) → month_start y 12 + 31 ≡ (if is_leap y then 366 else 365)
unfolding month_start
month_start-twelve y = ground arith

year_start-next :
    (y : ℕ) → 1 ≤ y → year_start (y + 1) ≡ year_start y + (if is_leap y then 366 else 365)
unfolding year_start is_leap
year_start-next y h = ground arith

month_lengths :
    (y m : ℕ) → (28 ≤ days_in_month y m) × (days_in_month y 12 ≡ 31) × (days_in_month y 1 ≡ 31)
unfolding days_in_month
month_lengths y m = ground arith

pub next_day-IsValid : (t : CalendarDate) → IsValid t → IsValid (next_day t)
unfolding next_day
next_day-IsValid t v = ground (
  arith,
  month_lengths t.year t.month,
  month_lengths t.year (t.month + 1),
  month_lengths (t.year + 1) 1,
)

december_end : (t : CalendarDate) → t.month ≡ 12 → t.day ≡ days_in_month t.year t.month → t.day ≡ 31
unfolding days_in_month
december_end t m d = ground arith

month_start_first : (y : ℕ) → month_start y 1 ≡ 0
unfolding month_start
month_start_first y = refl

pub ordinal-next_day : (t : CalendarDate) → IsValid t → ordinal (next_day t) ≡ ordinal t + 1
unfolding next_day ordinal
ordinal-next_day t v = elim (Bool-cases (ltb t.day (days_in_month t.year t.month))) [
  | inl within ↦ rw within (omega arith)
  | inr last ↦
      let full : t.day ≡ days_in_month t.year t.month = ground (arith, v.day_le) in
      elim (Bool-cases (ltb t.month 12)) [
        | inl inside ↦
            rw (last, inside)
              (omega (arith, full, month_start-next t.year t.month v.month_pos (ground arith)))
        | inr december ↦
            let twelve : t.month ≡ 12 = ground (arith, v.month_le) in
            rw (last, december)
              (omega (
                arith,
                year_start-next t.year v.year_pos,
                month_start-twelve t.year,
                december_end t twelve full,
                ap (month_start t.year) twelve,
                month_start_first (t.year + 1),
              ))
      ]
]

pub add_days-IsValid : (t : CalendarDate) (n : ℕ) → IsValid t → IsValid (add_days t n)
unfolding add_days
add_days-IsValid t zero v = v
add_days-IsValid t (suc n) v = next_day-IsValid (add_days t n) (add_days-IsValid t n v)

-- Going on by days adds them to the number of the day.
pub ordinal-add_days :
    (t : CalendarDate) (n : ℕ) → IsValid t → ordinal (add_days t n) ≡ ordinal t + n
unfolding add_days
ordinal-add_days t zero v = omega arith
ordinal-add_days t (suc n) v =
    omega (arith, ordinal-next_day (add_days t n) (add_days-IsValid t n v), ordinal-add_days t n v)

-- The day of the week, 0 for Sunday: 1 January of the year 1 is a Monday.
abbrev pub weekday_of : CalendarDate → ℕ
weekday_of t = ordinal t % 7

pub days_until_weekday_lem :
    (from target : ℕ)
    → from < 7
    → target < 7
    → (1 ≤ days_until_weekday from target)
      × (days_until_weekday from target ≤ 7)
      × ((from + days_until_weekday from target) % 7 ≡ target)
unfolding days_until_weekday
days_until_weekday_lem from target h k = ground arith

-- From a day, the next day of a weekday is one to seven days on, and it is that weekday.
pub weekday_of-add_days :
    (t : CalendarDate) (target : ℕ)
    → IsValid t
    → target < 7
    → weekday_of (add_days t (days_until_weekday (weekday_of t) target)) ≡ target
weekday_of-add_days t target v h = omega (
  arith,
  ordinal-add_days t (days_until_weekday (weekday_of t) target) v,
  days_until_weekday_lem (weekday_of t) target (omega arith) h,
)
