-- ===== src/Dates/Zone.antt =====
-- apps/api/src/lib/timezone.ts. An instant is a number of milliseconds from the epoch. The wall clock
-- of a time zone that the runtime knows is a parameter: what `Intl.DateTimeFormat` shows of an instant.
use ai_phone_plattform.Prelude.{
  ℕ, ◌+◌, ◌-◌, ◌*◌, ◌≤◌, ◌≡◌, arith, Bool, not, ◌&&◌, ◌||◌, Option, none, some, Text, leb, ltb,
  ◌==◌, if◌then◌else◌,
}
use ai_phone_plattform.Js.{Js}
use ai_phone_plattform.Dates.{CalendarDate, NlNow}
use ai_phone_plattform.Dates.Clock.{ClockTime}
use ai_phone_plattform.Dates.Phrases.{NlResult, parse_natural_datetime}
use ai_phone_plattform.Dates.Ordinal.{ordinal}

abbrev minute_ms : ℕ
minute_ms = 60000

-- the number of 1 January 1970
abbrev epoch : ℕ
epoch = 719163

-- `Date.UTC(year, month - 1, day, hour, minute)`, of a date since 1970
unfoldable pub date_utc : CalendarDate → ℕ → ℕ → ℕ
date_utc d hour minute = (((ordinal d - epoch) * 24 + hour) * 60 + minute) * minute_ms

-- what `formatToParts` of a zone shows of an instant, the hour as it is printed
pub record Zone : Type 0 where
  pub format : ℕ → NlNow

-- `zonedParts`: some runtimes print 24 for midnight
unfoldable pub zoned_parts : Zone → ℕ → NlNow
zoned_parts z t = record (z.format t) {
  hour = if (z.format t).hour == 24 then 0 else (z.format t).hour;
}

abbrev pub wall_utc : NlNow → ℕ
wall_utc p = date_utc p.today p.hour p.minute

-- `zonedWallToUtc`: `asUTC - (asIfLocal - asUTC)`
unfoldable pub zoned_wall_to_utc : Zone → CalendarDate → ClockTime → ℕ
zoned_wall_to_utc z d time =
    let as_utc = date_utc d time.hour time.minute in
    as_utc + as_utc - wall_utc (zoned_parts z as_utc)

-- `isBusinessHours`
unfoldable pub is_business_hours : Zone → ℕ → ℕ → ℕ → Bool
is_business_hours z start_hour end_hour t =
    let p = zoned_parts z t in
    not (p.weekday == 0 || p.weekday == 6) && (leb start_hour p.hour && ltb p.hour end_hour)

abbrev instant : Zone → Option NlResult → Option ℕ
instant z none = none
instant z (some r) = some (zoned_wall_to_utc z r.on r.time)

-- the instant of a datetime answer, in `resolveDatetimeAnswer` of
-- apps/api/src/services/conversation.service.ts
unfoldable pub requested_instant : Js → (ℕ → Bool) → Zone → ℕ → Text → Option ℕ
requested_instant js is_letter z now text =
    instant z (parse_natural_datetime js is_letter text (zoned_parts z now))

-- At an instant on a full minute, the wall clock of the zone is `east` ahead of UTC and `west` behind.
pub record IsOffset (z : Zone) (east west t : ℕ) : Type 0 where
  pub shown : wall_utc (zoned_parts z t) + west ≡ t + east

-- A wall-clock time is turned into an instant at which the zone shows that time, if the offset of
-- the zone there is the one that it had at that time in UTC.
pub zoned_parts-zoned_wall_to_utc :
    (z : Zone) (d : CalendarDate) (time : ClockTime) (east west : ℕ)
    → east ≤ date_utc d time.hour time.minute
    → IsOffset z east west (date_utc d time.hour time.minute)
    → IsOffset z east west (zoned_wall_to_utc z d time)
    → wall_utc (zoned_parts z (zoned_wall_to_utc z d time)) ≡ date_utc d time.hour time.minute
unfolding zoned_wall_to_utc
zoned_parts-zoned_wall_to_utc z d time east west h before after =
    omega (arith, before.shown, after.shown)
