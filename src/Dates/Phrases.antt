-- ===== src/Dates/Phrases.antt =====
-- `parseNaturalDateTime` of packages/shared/src/datetime-nl.ts. `toLowerCase` and the letters of
-- Unicode, `\p{L}`, are parameters. `NlResult.confident` is always true and is left out.
use ai_phone_plattform.Prelude.{
  ℕ, Bool, true, false, ◌&&◌, Option, none, some, List, [], ◌∷◌, ◌++◌, Text, codes, trim, leb,
  is_some, is_empty, if◌then◌else◌,
}
use ai_phone_plattform.Js.{Js}
use ai_phone_plattform.Regex.{
  Pattern, word_edge, seq, alt, opt, group, Match, search, replace, lit, alts, one_or_two, digits,
  some_spaces,
}
use ai_phone_plattform.Dates.{CalendarDate, date, NlNow, add_days, days_until_weekday}
use ai_phone_plattform.Dates.Clock.{ClockTime, clock, numeral, group_at, first_of, word, parse_time}

pub record NlResult : Type 0 where
  pub on : CalendarDate
  pub time : ClockTime
  pub assumed_time : Bool

-- A date that is found: with the time of an ISO date, and the text without the date.
pub record Dated : Type 0 where
  pub on : CalendarDate
  pub stated : Option ClockTime
  pub rest : Text

-- `/\b(\d{4})-(\d{2})-(\d{2})(?:[t ](\d{1,2}):(\d{2}))?\b/`
abbrev t_or_space : Pattern
t_or_space = alt (lit (codes "t")) (lit (codes " "))

abbrev dash : Pattern
dash = lit (codes "-")

unfoldable pub iso_pattern : Pattern
iso_pattern = seq word_edge (
    seq (group (digits 4)) (
      seq dash (
        seq (group (digits 2)) (
          seq dash (
            seq (group (digits 2)) (
              seq
                (opt (
                  seq t_or_space
                    (seq (group one_or_two) (seq (lit (codes ":")) (group (digits 2))))))
                word_edge))))))

-- `/\b(\d{1,2})\.(\d{1,2})\.(\d{4})\b/`
abbrev dot : Pattern
dot = lit (codes ".")

unfoldable pub german_pattern : Pattern
german_pattern = seq word_edge (
    seq (group one_or_two)
      (seq dot (seq (group one_or_two) (seq dot (seq (group (digits 4)) word_edge)))))

abbrev pub without : Match → Text → Text
without m t = replace m.whole (codes " ") t

abbrev pub iso_time : List (Option Text) → Option ClockTime
iso_time gs =
    if is_empty (group_at 3 gs)
    then none
    else some (clock (numeral (group_at 3 gs)) (numeral (group_at 4 gs)))

abbrev pub iso_found : Text → Option Match → Option Dated
iso_found t none = none
iso_found t (some m) = some (record {
  on =
      date (numeral (group_at 0 m.groups)) (numeral (group_at 1 m.groups))
        (numeral (group_at 2 m.groups));
  stated = iso_time m.groups;
  rest = without m t;
})

abbrev pub dated : CalendarDate → Match → Text → Dated
dated d m t = record { on = d; stated = none; rest = without m t }

abbrev pub german_dated : ℕ → ℕ → ℕ → Match → Text → Option Dated
german_dated day month year m t =
    if leb 1 month && leb month 12 && (leb 1 day && leb day 31)
    then some (dated (date year month day) m t)
    else none

abbrev pub german_found : Text → Option Match → Option Dated
german_found t none = none
german_found t (some m) =
    german_dated (numeral (group_at 0 m.groups)) (numeral (group_at 1 m.groups))
      (numeral (group_at 2 m.groups)) m t

abbrev pub ahead : (Match → ℕ) → NlNow → Text → Option Match → Option Dated
ahead days now t none = none
ahead days now t (some m) = some (dated (add_days now.today (days m)) m t)

abbrev words : List Text → Pattern
words [] = lit []
words (w ∷ []) = lit w
words (w ∷ v ∷ ws) = alt (lit w) (words (v ∷ ws))

-- `WEEKDAYS`, in the order of its entries
unfoldable pub weekdays : List (Text × ℕ)
weekdays =
    (codes "sonntag", 0)
    ∷ (codes "montag", 1)
    ∷ (codes "dienstag", 2)
    ∷ (codes "mittwoch", 3)
    ∷ (codes "donnerstag", 4)
    ∷ (codes "freitag", 5)
    ∷ (codes "samstag", 6)
    ∷ (codes "sonnabend", 6)
    ∷ (codes "sunday", 0)
    ∷ (codes "monday", 1)
    ∷ (codes "tuesday", 2)
    ∷ (codes "wednesday", 3)
    ∷ (codes "thursday", 4)
    ∷ (codes "friday", 5)
    ∷ (codes "saturday", 6)
    ∷ []

module _ (is_letter : ℕ → Bool) where
  -- `DAYPARTS`
  unfoldable pub dayparts : List (Pattern × ℕ)
  dayparts =
      (
        word is_letter
            (words (codes "vormittag" ∷ codes "morgens" ∷ codes "früh" ∷ codes "morning" ∷ [])),
        9,
      )
      ∷ (
        word is_letter (
            alt (seq (lit (codes "nachmittag")) (opt (lit (codes "s")))) (lit (codes "afternoon"))),
        15,
      )
      ∷ (
        word is_letter (
            alts (seq (lit (codes "mittag")) (opt (lit (codes "s"))))
              (lit (codes "noon") ∷ lit (codes "lunchtime") ∷ [])),
        12,
      )
      ∷ (
        word is_letter (
            alts (seq (lit (codes "abend")) (opt (lit (codes "s"))))
              (lit (codes "evening") ∷ lit (codes "tonight") ∷ [])),
        18,
      )
      ∷ (
        word is_letter
            (alt (seq (lit (codes "nacht")) (opt (lit (codes "s")))) (lit (codes "night"))),
        20,
      )
      ∷ []

  -- `B('übermorgen|…')`, `B('morgen|tomorrow')`, `B('heute|today')`
  unfoldable pub overmorrow_pattern : Pattern
  overmorrow_pattern =
      word is_letter
        (words (codes "übermorgen" ∷ codes "overmorrow" ∷ codes "day after tomorrow" ∷ []))

  unfoldable pub tomorrow_pattern : Pattern
  tomorrow_pattern = word is_letter (words (codes "morgen" ∷ codes "tomorrow" ∷ []))

  pub today_pattern : Pattern
  today_pattern = word is_letter (words (codes "heute" ∷ codes "today" ∷ []))

  -- `/(?<![\p{L}\d])in\s+(\d{1,2})\s+(tagen|days?)(?![\p{L}\d])/u`
  pub in_days_pattern : Pattern
  in_days_pattern = word is_letter (
      seq (lit (codes "in")) (
        seq some_spaces (
          seq (group one_or_two) (
            seq some_spaces (
              group
                (alt (lit (codes "tagen")) (seq (lit (codes "day")) (opt (lit (codes "s"))))))))))

  -- the relative days, in the order of the tests
  unfoldable pub relative_date : NlNow → Text → Option Dated
  unfolding overmorrow_pattern tomorrow_pattern today_pattern in_days_pattern
  relative_date now t = first_of (ahead (λ m. 2) now t (search overmorrow_pattern t)) (
      first_of (ahead (λ m. 1) now t (search tomorrow_pattern t)) (
        first_of (ahead (λ m. 0) now t (search today_pattern t))
          (ahead (λ m. numeral (group_at 0 m.groups)) now t (search in_days_pattern t))))

  -- the loop over the names of the weekdays
  unfoldable pub weekday_date : NlNow → Text → List (Text × ℕ) → Option Dated
  weekday_date now t [] = none
  weekday_date now t ((name, day) ∷ names) =
      let later = weekday_date now t names in
      first_of
        (ahead (λ m. days_until_weekday now.weekday day) now t
          (search (word is_letter (lit name)) t))
        later

  unfoldable pub find_date : NlNow → Text → Option Dated
  unfolding iso_pattern german_pattern weekdays
  find_date now t = first_of (iso_found t (search iso_pattern t)) (
      first_of (german_found t (search german_pattern t))
        (first_of (relative_date now t) (weekday_date now t weekdays)))

  -- the loop over the parts of the day
  unfoldable pub daypart_hour : Text → List (Pattern × ℕ) → ℕ
  daypart_hour t [] = 9
  daypart_hour t ((part, hour) ∷ parts) =
      let later = daypart_hour t parts in if is_some (search part t) then hour else later

  abbrev pub timed : Text → Option ClockTime → ClockTime × Bool
  timed t (some time) = (time, false)
  timed t none = (clock (daypart_hour t dayparts) 0, true)

  abbrev pub resolved : Option Dated → Option NlResult
  resolved none = none
  resolved (some d) =
      let found = timed d.rest (first_of d.stated (parse_time is_letter d.rest)) in
      some (record { on = d.on; time = found.0; assumed_time = found.1 })

-- ` ${text.toLowerCase().trim()} `
abbrev pub padded : Js → Text → Text
padded js text = codes " " ++ (trim (js.to_lower text) ++ codes " ")

unfoldable pub parse_natural_datetime : Js → (ℕ → Bool) → Text → NlNow → Option NlResult
unfolding dayparts
parse_natural_datetime js is_letter text now =
    resolved is_letter (find_date is_letter now (padded js text))
