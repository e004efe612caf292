-- ===== src/Tests/Money.antt =====
-- Scores, costs and slots, on sample values.
use ai_phone_plattform.Prelude.{
  ℕ, ◌≡◌, ◌⊎◌, refl, arith, true, false, none, some, List, [], ◌∷◌, ◌==◌,
}
use ai_phone_plattform.Js.Sample.{sample, sample-Laws}
use ai_phone_plattform.Lead.{LeadSignals}
use ai_phone_plattform.Cost.{CostUsage}
use ai_phone_plattform.Cost.Laws.{alerts, alerts-eq}
use ai_phone_plattform.Calendar.Slots.{ProposeOptions, propose_free_slots}
use ai_phone_plattform.Calendar.Proposals.{propose_free_slots_total}
use ai_phone_plattform.Calendar.Booking.{create_appointment}
use ai_phone_plattform.Calendar.NoDouble.{IsVerified, IsBooked, create_appointment-IsVerified}
use ai_phone_plattform.Tests.{busy_interval, env, new_world}

abbrev no_signals : LeadSignals ℕ
no_signals = record {
  has_email = false;
  has_phone = false;
  has_name = false;
  urgency = some 200;
  wants_callback = false;
  has_budget = false;
  has_concrete_need = true;
}

abbrev some_signals : LeadSignals ℕ
some_signals = record no_signals { has_email = true; urgency = some 900 }

abbrev usage : CostUsage ℕ
usage = record { duration_seconds = 90000; llm_input_tokens = 1200000; llm_output_tokens = 300000 }

alerts-eq_example : alerts sample 10000 500 0 (4000 ∷ 6000 ∷ 9000 ∷ []) ≡ 1
alerts-eq_example =
    alerts-eq sample sample-Laws 10000 500 refl refl 0 (4000 ∷ 6000 ∷ 9000 ∷ []) refl
      (refl, (refl, (refl, tt)))

-- one slot a day is within the hours
abbrev options : ProposeOptions
options = record {
  desired_start = 600000;
  duration_min = 30;
  busy = busy_interval ∷ [];
  is_within_hours = λ d. d == 3600000;
  now = 0;
  step_min = none;
  count = none;
  horizon_days = some 1;
}

propose_free_slots_total_example : (ds : List ℕ) × (propose_free_slots options ≡ some ds)
propose_free_slots_total_example = propose_free_slots_total options (omega arith)

create_appointment-IsVerified_example :
    (((create_appointment env 0 new_world).0 ≡ false)
      × ((create_appointment env 0 new_world).1.events ≡ []))
    ⊎ (((create_appointment env 0 new_world).0 ≡ true)
        × ((create_appointment env 0 new_world).1.events ≡ 0 ∷ [])
        × IsBooked env 0 (create_appointment env 0 new_world).1
        × IsVerified env 0)
create_appointment-IsVerified_example = create_appointment-IsVerified env 0 new_world
