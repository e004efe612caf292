-- ===== src/Calendar/Booking.antt =====
-- `checkAvailability` and `createAppointment` of apps/api/src/services/calendar.service.ts. The token
-- that `validAccessToken` refreshes is part of what the provider answers.
use ai_phone_plattform.Prelude.{
  ℕ, Bool, true, false, Option, none, some, List, [], ◌∷◌, ◌++◌, or_else, Text, if◌then◌else◌,
}
use ai_phone_plattform.World.{
  World, Env, BookingStatus, detected, conflict, booked, booking_failed, ConnectionStatus, active,
  attention, error,
}
use ai_phone_plattform.Calendar.Slots.{Interval, is_slot_free, ProposeOptions, propose_free_slots}

abbrev pub default_appointment_minutes : ℕ
default_appointment_minutes = 30

pub record AvailabilityResult : Type 0 where
  pub has_calendar : Bool
  pub available : Bool
  pub alternatives : List ℕ

module _ {Num : Type 0} (env : Env Num) where
  -- `prisma.calendarConnection.update({ data: { status } })`
  abbrev pub set_connection : ConnectionStatus → World Num → World Num
  set_connection status w = record w { connection = some status }

  abbrev pub slots_after : ℕ → List Interval → ProposeOptions
  slots_after start busy = record {
    desired_start = start;
    duration_min = default_appointment_minutes;
    busy = busy;
    is_within_hours = env.is_business_hours;
    now = env.now;
    step_min = none;
    count = some 3;
    horizon_days = none;
  }

  abbrev pub answered : ℕ → List Interval → AvailabilityResult
  answered start busy =
      if is_slot_free start default_appointment_minutes busy
      then record { has_calendar = true; available = true; alternatives = [] }
      else record {
        has_calendar = true;
        available = false;
        alternatives = or_else (propose_free_slots (slots_after start busy)) [];
      }

  abbrev pub checked : ℕ → Option ConnectionStatus → World Num → AvailabilityResult × World Num
  checked start none w = (record { has_calendar = false; available = true; alternatives = [] }, w)
  checked start (some _) w = elim (env.load_busy start) [
    | some busy ↦ (answered start busy, w)
    | none ↦ (
      record { has_calendar = true; available = true; alternatives = [] },
      set_connection attention w,
    )
  ]

  unfoldable pub check_availability : ℕ → World Num → AvailabilityResult × World Num
  check_availability start w = checked start w.connection w

  abbrev pub record_appointment : BookingStatus → ℕ → Option Text → World Num → World Num
  record_appointment status start event w = record w {
    call = record w.call {
      appointment = some (record { status = status; start_at = start; event_id = event });
    };
  }

  abbrev failed_booking : ℕ → World Num → Bool × World Num
  failed_booking start w =
      (false, record_appointment booking_failed start none (set_connection error w))

  abbrev booked_event : ℕ → Option Text → World Num → Bool × World Num
  booked_event start none w = failed_booking start w
  booked_event start (some event) w = (
    true,
    record_appointment booked start (some event)
        (set_connection active (record w { events = w.events ++ start ∷ [] })),
  )

  abbrev book : ℕ → Option (List Interval) → World Num → Bool × World Num
  book start none w = failed_booking start w
  book start (some busy) w =
      if is_slot_free start default_appointment_minutes busy
      then booked_event start (env.create_event start) w
      else (false, record_appointment conflict start none w)

  abbrev book_on : Option ConnectionStatus → ℕ → World Num → Bool × World Num
  book_on none start w = (false, record_appointment detected start none w)
  book_on (some _) start w = book start (env.load_busy start) w

  unfoldable pub create_appointment : ℕ → World Num → Bool × World Num
  create_appointment start w = book_on w.connection start w
