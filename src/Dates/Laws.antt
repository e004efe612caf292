-- ===== src/Dates/Laws.antt =====
-- What a phrase is resolved to by packages/shared/src/datetime-nl.ts.
use ai_phone_plattform.Prelude.{
  ℕ, ◌+◌, ◌≤◌, ◌<◌, ◌≡◌, refl, ◌⊎◌, inl, inr, arith, Bool, Option, none, some, List, [], ◌∷◌, Text,
  true, false, is_some, All, if◌then◌else◌, subst,
}
use mathlib.Core.Option
use ai_phone_plattform.Js.{Js}
use ai_phone_plattform.Regex.{Pattern, Match, search, lit}
use ai_phone_plattform.Dates.{CalendarDate, NlNow, add_days, days_until_weekday}
use ai_phone_plattform.Dates.Clock.{
  ClockTime, numeral, group_at, on_24h, half_number, first_of, in_day, half_of, ampm_time,
  half_time, hour_time, word, ampm_pattern, half_pattern, cue_pattern, hour_pattern, parse_time,
}
use ai_phone_plattform.Dates.Phrases.{
  NlResult, Dated, iso_pattern, german_pattern, german_found, ahead, weekdays, overmorrow_pattern,
  tomorrow_pattern, today_pattern, in_days_pattern, relative_date, weekday_date, find_date, padded,
  dayparts, daypart_hour, timed, resolved, parse_natural_datetime,
}
use ai_phone_plattform.Dates.Ordinal.{
  IsValid, ordinal, weekday_of, add_days-IsValid, ordinal-add_days, days_until_weekday_lem,
  weekday_of-add_days,
}

-- A property of what is found, if anything is.
abbrev Found {ℓ} : {A : Type ℓ} → (A → Type 0) → Option A → Type 0
Found P none = Unit
Found P (some a) = P a

first_of-Found {ℓ} :
    {A : Type ℓ} (P : A → Type 0) (o other : Option A)
    → Found P o
    → Found P other
    → Found P (first_of o other)
first_of-Found P none other h k = k
first_of-Found P (some a) other h k = h

abbrev pub IsTime : ClockTime → Type 0
IsTime c = (c.hour ≤ 23) × (c.minute ≤ 59)

in_day-IsTime : (h m : ℕ) → Found IsTime (in_day h m)
in_day-IsTime h m = ground arith

half_of-IsTime : (n : ℕ) → Found IsTime (half_of n)
half_of-IsTime n = ground arith

ampm_time-IsTime : (m : Option Match) → Found IsTime (ampm_time m)
ampm_time-IsTime none = tt
ampm_time-IsTime (some m) =
    in_day-IsTime (on_24h (group_at 2 m.groups) (numeral (group_at 0 m.groups)))
      (numeral (group_at 1 m.groups))

half_time-IsTime : (m : Option Match) → Found IsTime (half_time m)
half_time-IsTime none = tt
half_time-IsTime (some m) = half_of-IsTime (half_number (group_at 0 m.groups))

hour_time-IsTime : (m : Option Match) → Found IsTime (hour_time m)
hour_time-IsTime none = tt
hour_time-IsTime (some m) =
    in_day-IsTime (numeral (group_at 0 m.groups)) (numeral (group_at 1 m.groups))

if-Found {ℓ} :
    {A : Type ℓ} (P : A → Type 0) (b : Bool) (o : Option A)
    → Found P o
    → Found P (if b then o else none)
if-Found P true o h = h
if-Found P false o h = tt

Found-eq {ℓ} : {A : Type ℓ} (P : A → Type 0) (o : Option A) {a : A} → Found P o → o ≡ some a → P a
Found-eq P none h e = absurd (ground arith)
Found-eq P (some b) {a} h e = let same : b ≡ a = ground arith in subst P same h

module _ (is_letter : ℕ → Bool) where
  parse_time-IsTime : (t : Text) → Found IsTime (parse_time is_letter t)
  unfolding parse_time
  parse_time-IsTime t =
      first_of-Found IsTime (ampm_time (search ampm_pattern t)) _
        (ampm_time-IsTime (search ampm_pattern t))
        (first_of-Found IsTime (half_time (search (half_pattern is_letter) t)) _
          (half_time-IsTime (search (half_pattern is_letter) t))
          (if-Found IsTime (is_some (search cue_pattern t)) (hour_time (search hour_pattern t))
            (hour_time-IsTime (search hour_pattern t))))

  daypart_hour-le :
      (t : Text) (parts : List (Pattern × ℕ))
      → All (λ p. p.1 ≤ 23) parts
      → daypart_hour is_letter t parts ≤ 23
  unfolding daypart_hour
  daypart_hour-le t [] h = omega arith
  daypart_hour-le t (p ∷ parts) h = ground (arith, daypart_hour-le t parts h.1)

  timed-IsTime : (t : Text) (o : Option ClockTime) → Found IsTime o → IsTime (timed is_letter t o).0
  unfolding dayparts
  timed-IsTime t (some c) h = h
  timed-IsTime t none h = (daypart_hour-le t (dayparts is_letter) (omega arith), omega arith)

-- A day of the calendar that is not before today, with no time stated beside it.
abbrev IsAhead : NlNow → Dated → Type 0
IsAhead now d = IsValid d.on × (ordinal now.today ≤ ordinal d.on) × (d.stated ≡ none)

abbrev Untimed : Dated → Type 0
Untimed d = d.stated ≡ none

-- The weekday names of a list that a text holds, one of which is the day of a date.
abbrev pub IsNamed : (ℕ → Bool) → Text → CalendarDate → List (Text × ℕ) → Type 0
IsNamed is_letter t d [] = ⊥
IsNamed is_letter t d ((name, day) ∷ names) =
    ((is_some (search (word is_letter (lit name)) t) ≡ true) × (weekday_of d ≡ day))
    ⊎ IsNamed is_letter t d names

-- A date on a weekday that the text names, in the next seven days.
abbrev pub IsNext : (ℕ → Bool) → NlNow → Text → List (Text × ℕ) → CalendarDate → Type 0
IsNext is_letter now t names d =
    (ordinal now.today < ordinal d)
    × (ordinal d ≤ ordinal now.today + 7)
    × IsNamed is_letter t d names

german_found-Untimed : (t : Text) (m : Option Match) → Found Untimed (german_found t m)
german_found-Untimed t none = tt
german_found-Untimed t (some m) = ground arith

module _ (now : NlNow) (v : IsValid now.today) where
  ahead-IsAhead :
      (days : Match → ℕ) (t : Text) (m : Option Match) → Found (IsAhead now) (ahead days now t m)
  ahead-IsAhead days t none = tt
  ahead-IsAhead days t (some m) = (
    add_days-IsValid now.today (days m) v,
    omega (arith, ordinal-add_days now.today (days m) v),
    refl,
  )

  module _ (is_letter : ℕ → Bool) (t : Text) where
    relative_date-IsAhead : Found (IsAhead now) (relative_date is_letter now t)
    unfolding relative_date
    relative_date-IsAhead =
        first_of-Found (IsAhead now) _ _
          (ahead-IsAhead (λ m. 2) t (search (overmorrow_pattern is_letter) t))
          (first_of-Found (IsAhead now) _ _
            (ahead-IsAhead (λ m. 1) t (search (tomorrow_pattern is_letter) t))
            (first_of-Found (IsAhead now) _ _
              (ahead-IsAhead (λ m. 0) t (search (today_pattern is_letter) t))
              (ahead-IsAhead (λ m. numeral (group_at 0 m.groups)) t
                (search (in_days_pattern is_letter) t))))

    weekday_date-IsAhead :
        (names : List (Text × ℕ)) → Found (IsAhead now) (weekday_date is_letter now t names)
    unfolding weekday_date
    weekday_date-IsAhead [] = tt
    weekday_date-IsAhead ((name, day) ∷ names) =
        first_of-Found (IsAhead now) _ _
          (ahead-IsAhead (λ m. days_until_weekday now.weekday day) t
            (search (word is_letter (lit name)) t))
          (weekday_date-IsAhead names)

    module _ (day_now : now.weekday ≡ weekday_of now.today) where
      named :
          (name : Text) (day : ℕ) (names : List (Text × ℕ)) (m : Option Match)
          → search (word is_letter (lit name)) t ≡ m
          → day < 7
          → Found
              (λ d. IsNext is_letter now t ((name, day) ∷ names) d.on)
              (ahead (λ m. days_until_weekday now.weekday day) now t m)
      named name day names none e h = tt
      named name day names (some m) e h = rw day_now (
        omega (
          arith,
          ordinal-add_days now.today (days_until_weekday (weekday_of now.today) day) v,
          days_until_weekday_lem (weekday_of now.today) day (omega arith) h,
        ),
        omega (
          arith,
          ordinal-add_days now.today (days_until_weekday (weekday_of now.today) day) v,
          days_until_weekday_lem (weekday_of now.today) day (omega arith) h,
        ),
        inl (rw e, weekday_of-add_days now.today day v h),
      )

      later-Found :
          (entry : Text × ℕ) (names : List (Text × ℕ)) (o : Option Dated)
          → Found (λ d. IsNext is_letter now t names d.on) o
          → Found (λ d. IsNext is_letter now t (entry ∷ names) d.on) o
      later-Found (name, day) names none h = tt
      later-Found (name, day) names (some d) h = (h.0, h.1, inr h.2)

      weekday_date-IsNext :
          (names : List (Text × ℕ))
          → All (λ e. e.1 < 7) names
          → Found (λ d. IsNext is_letter now t names d.on) (weekday_date is_letter now t names)
      unfolding weekday_date
      weekday_date-IsNext [] h = tt
      weekday_date-IsNext ((name, day) ∷ names) h =
          first_of-Found (λ d. IsNext is_letter now t ((name, day) ∷ names) d.on) _ _
            (named name day names (search (word is_letter (lit name)) t) refl h.0)
            (later-Found (name, day) names (weekday_date is_letter now t names)
              (weekday_date-IsNext names h.1))

Found-resolved :
    (is_letter : ℕ → Bool) (P : CalendarDate → Type 0) (o : Option Dated)
    → Found (λ d. P d.on) o
    → Found (λ r. P r.on) (resolved is_letter o)
Found-resolved is_letter P none h = tt
Found-resolved is_letter P (some d) h = h

Found-timed :
    (is_letter : ℕ → Bool) (o : Option Dated)
    → Found Untimed o
    → Found (λ r. IsTime r.time) (resolved is_letter o)
Found-timed is_letter none h = tt
Found-timed is_letter (some d) h =
    timed-IsTime is_letter d.rest (first_of d.stated (parse_time is_letter d.rest))
      (rw h (parse_time-IsTime is_letter d.rest))

module _ (js : Js) (is_letter : ℕ → Bool) (text : Text) (now : NlNow) (v : IsValid now.today)
    (iso : search iso_pattern (padded js text) ≡ none) where
  Untimed-ahead : (o : Option Dated) → Found (IsAhead now) o → Found Untimed o
  Untimed-ahead none h = tt
  Untimed-ahead (some d) h = h.2

  -- Without an ISO date in the text, the time is a time of a day.
  pub parse_natural_datetime-IsTime :
      {r : NlResult} → parse_natural_datetime js is_letter text now ≡ some r → IsTime r.time
  unfolding parse_natural_datetime find_date
  parse_natural_datetime-IsTime e =
      Found-eq (λ r. IsTime r.time) (parse_natural_datetime js is_letter text now)
        (Found-timed is_letter (find_date is_letter now (padded js text)) (
          rw iso (
            first_of-Found Untimed _ _
              (german_found-Untimed _ (search german_pattern (padded js text)))
              (first_of-Found Untimed _ _
                (Untimed-ahead _ (relative_date-IsAhead now v is_letter (padded js text)))
                (Untimed-ahead _
                  (weekday_date-IsAhead now v is_letter (padded js text) weekdays))))))
        e

  module _ (german : search german_pattern (padded js text) ≡ none) where
    -- Without an ISO or German date in the text, what is found is a day of the calendar that is not
    -- before today.
    pub parse_natural_datetime-IsValid :
        {r : NlResult}
        → parse_natural_datetime js is_letter text now ≡ some r
        → IsValid r.on × (ordinal now.today ≤ ordinal r.on)
    unfolding parse_natural_datetime find_date
    parse_natural_datetime-IsValid e =
        Found-eq (λ r. IsValid r.on × (ordinal now.today ≤ ordinal r.on))
          (parse_natural_datetime js is_letter text now)
          (Found-resolved is_letter (λ d. IsValid d × (ordinal now.today ≤ ordinal d))
            (find_date is_letter now (padded js text))
            (rw (iso, german)
              (dates _ (
                first_of-Found (IsAhead now) _ _
                  (relative_date-IsAhead now v is_letter (padded js text))
                  (weekday_date-IsAhead now v is_letter (padded js text) weekdays)))))
          e
      where
        dates :
            (o : Option Dated)
            → Found (IsAhead now) o
            → Found (λ d. IsValid d.on × (ordinal now.today ≤ ordinal d.on)) o
        dates none h = tt
        dates (some d) h = (h.0, h.1)

    -- If the text holds no date and no relative day either, what is found is a weekday that the text
    -- names, one to seven days on.
    pub parse_natural_datetime-IsNext :
        {r : NlResult}
        → now.weekday ≡ weekday_of now.today
        → relative_date is_letter now (padded js text) ≡ none
        → parse_natural_datetime js is_letter text now ≡ some r
        → IsNext is_letter now (padded js text) weekdays r.on
    unfolding parse_natural_datetime find_date
    parse_natural_datetime-IsNext day_now relative e =
        Found-eq (λ r. IsNext is_letter now (padded js text) weekdays r.on)
          (parse_natural_datetime js is_letter text now)
          (Found-resolved is_letter (IsNext is_letter now (padded js text) weekdays)
            (find_date is_letter now (padded js text))
            (rw (iso, german, relative)
              (weekday_date-IsNext now v is_letter (padded js text) day_now weekdays all_days)))
          e
      where
        all_days : All (λ e. e.1 < 7) weekdays
        all_days = omega arith

    -- A text that holds the word "morgen" or "tomorrow", and no date and no word for the day after,
    -- means tomorrow, whatever weekday or "heute" it holds too.
    pub parse_natural_datetime-eq-tomorrow :
        {m : Match}
        → search (overmorrow_pattern is_letter) (padded js text) ≡ none
        → search (tomorrow_pattern is_letter) (padded js text) ≡ some m
        → Option.map (λ r. r.on) (parse_natural_datetime js is_letter text now)
          ≡ some (add_days now.today 1)
    unfolding parse_natural_datetime find_date relative_date
    parse_natural_datetime-eq-tomorrow over morrow = rw (iso, german, over, morrow) refl
