-- ===== src/Tests/Dates.antt =====
-- The tests of packages/shared/src/datetime-nl.test.ts, and the theorems on dates at such inputs.
use ai_phone_plattform.Prelude.{
  ℕ, ◌+◌, ◌/◌, ◌%◌, arith, ◌≡◌, refl, Bool, true, false, ◌||◌, ◌&&◌, Option, none, some, Text,
  codes, trim, leb,
}
use ai_phone_plattform.Js.Sample.{sample}
use ai_phone_plattform.Dates.{NlNow, date, days_in_month, add_days, days_until_weekday}
use ai_phone_plattform.Dates.Clock.{clock, parse_time}
use ai_phone_plattform.Dates.Phrases.{
  NlResult, parse_natural_datetime, find_date, relative_date, weekday_date, daypart_hour, padded,
  weekdays, iso_pattern, german_pattern,
}
use ai_phone_plattform.Dates.Ordinal.{IsValid, ordinal, year_start, month_start}
use ai_phone_plattform.Dates.Laws.{IsNext, parse_natural_datetime-IsNext}
use ai_phone_plattform.Regex.{search, replace}

abbrev is_letter : ℕ → Bool
is_letter c = leb b'a' c && leb c b'z' || leb b'A' c && leb c b'Z' || leb 0xc0 c && leb c 0x24f

abbrev wednesday : NlNow
wednesday = record { today = date 2026 7 1; hour = 10; minute = 0; weekday = 3 }

parsed : Text → Option NlResult
unfolding parse_natural_datetime find_date search trim relative_date add_days parse_time replace
    daypart_hour weekday_date days_until_weekday
parsed s = parse_natural_datetime sample is_letter s wednesday

abbrev result : ℕ → ℕ → ℕ → ℕ → Bool → Option NlResult
result m d h min assumed =
    some (record { on = date 2026 m d; time = clock h min; assumed_time = assumed })

phrases :
    (parsed (codes "morgen um 14 uhr") ≡ result 7 2 14 0 false)
    × (parsed (codes "übermorgen nachmittag") ≡ result 7 3 15 0 true)
    × (parsed (codes "nächsten dienstag um 10") ≡ result 7 7 10 0 false)
    × (parsed (codes "am 15.07.2026 um halb drei") ≡ result 7 15 2 30 false)
    × (parsed (codes "next monday at 3pm") ≡ result 7 6 15 0 false)
    × (parsed (codes "2026-08-20t09:30") ≡ result 8 20 9 30 false)
    × (parsed (codes "in 3 tagen") ≡ result 7 4 9 0 true)
    × (parsed (codes "irgendwann bald") ≡ none)
    × (parsed (codes "um 14 uhr") ≡ none)
    × (parsed (codes "2026-13-45 99:99") ≡ result 13 45 99 99 false)
unfolding parsed
phrases = (refl, refl, refl, refl, refl, refl, refl, refl, refl, refl)

abbrev tuesday : Text
tuesday = codes "nächsten dienstag um 10"

wednesday-IsValid : IsValid wednesday.today
unfolding days_in_month
wednesday-IsValid = omega arith

no_iso : search iso_pattern (padded sample tuesday) ≡ none
unfolding search trim iso_pattern
no_iso = refl

no_german : search german_pattern (padded sample tuesday) ≡ none
unfolding search trim german_pattern
no_german = refl

parse_natural_datetime-IsNext_example :
    IsNext is_letter wednesday (padded sample tuesday) weekdays (date 2026 7 7)
unfolding parsed ordinal relative_date search trim year_start month_start
parse_natural_datetime-IsNext_example =
    parse_natural_datetime-IsNext sample is_letter tuesday wednesday wednesday-IsValid no_iso
      no_german {r = record { on = date 2026 7 7; time = clock 10 0; assumed_time = false }} refl
      refl refl

-- A zone two hours ahead of UTC.
abbrev shown_at : ℕ → NlNow
shown_at t = record {
  today = add_days (date 1970 1 1) ((t + 7200000) / 86400000);
  hour = (t + 7200000) / 3600000 % 24;
  minute = t / 60000 % 60;
  weekday = ((t + 7200000) / 86400000 + 4) % 7;
}
