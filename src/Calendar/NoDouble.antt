-- ===== src/Calendar/NoDouble.antt =====
-- Appointments are booked on slots that were verified free, and offered only if free.
use ai_phone_plattform.Prelude.{
  ℕ, ◌≡◌, ◌⊎◌, inl, inr, true, false, Option, none, some, List, [], ◌∷◌, ◌++◌, arith, All,
  Option-cases, Bool-cases, Text, length, ◌≤◌,
}
use ai_phone_plattform.World.{World, Env, ConnectionStatus, booked}
use ai_phone_plattform.Calendar.Slots.{Interval, is_slot_free}
use ai_phone_plattform.Calendar.Proposals.{
  Clash, is_slot_free_iff, IsProposal, propose_free_slots-IsProposal, propose_free_slots_total,
  length-propose_free_slots,
}
use ai_phone_plattform.Calendar.Booking.{
  AvailabilityResult, answered, checked, default_appointment_minutes, slots_after,
  check_availability, create_appointment,
}

module _ {Num : Type 0} (env : Env Num) where
  -- The provider's busy intervals are known and the slot shares no moment with them.
  abbrev pub IsVerified : ℕ → Type 0
  IsVerified start =
      (busy : List Interval) × (env.load_busy start ≡ some busy)
      × All (λ b. ¬ Clash start default_appointment_minutes b) busy

  abbrev pub IsBooked : ℕ → World Num → Type 0
  IsBooked start w =
      (event : Text) × (w.call.appointment
        ≡ some (record { status = booked; start_at = start; event_id = some event }))

  -- Fail-closed: either no event is created and the answer is false, or one event is created, the
  -- answer is true, the call records the booking, and the slot shared no moment with the busy
  -- intervals that the provider gave.
  pub create_appointment-IsVerified :
      (start : ℕ) (w : World Num)
      → (((create_appointment env start w).0 ≡ false)
          × ((create_appointment env start w).1.events ≡ w.events))
        ⊎ (((create_appointment env start w).0 ≡ true)
            × ((create_appointment env start w).1.events ≡ w.events ++ start ∷ [])
            × IsBooked start (create_appointment env start w).1
            × IsVerified start)
  unfolding create_appointment
  create_appointment-IsVerified start w = elim (Option-cases w.connection) [
    | inl offline ↦ inl (ground arith, ground arith)
    | inr (c, online) ↦ elim (Option-cases (env.load_busy start)) [
      | inl threw ↦ inl (ground arith, ground arith)
      | inr (busy, known) ↦
          elim (Bool-cases (is_slot_free start default_appointment_minutes busy)) [
            | inl free ↦ elim (Option-cases (env.create_event start)) [
              | inl refused ↦ inl (ground arith, ground arith)
              | inr (event, made) ↦ inr (
                ground arith,
                ground arith,
                (event, ground arith),
                (busy, known, (is_slot_free_iff start default_appointment_minutes busy).0 free),
              )
            ]
            | inr taken ↦ inl (ground arith, ground arith)
          ]
    ]
  ]

  -- The busy slot that the caller asked for, and the slots that are offered instead.
  pub record IsOffer (start : ℕ) (r : AvailabilityResult) : Type 0 where
    pub busy : List Interval
    pub known : env.load_busy start ≡ some busy
    pub taken : ¬ All (λ b. ¬ Clash start default_appointment_minutes b) busy
    pub at_most : length r.alternatives ≤ 3
    pub offered : All (IsProposal (slots_after env start busy)) r.alternatives

  answered-IsOffer :
      (start : ℕ) (busy : List Interval)
      → env.load_busy start ≡ some busy
      → (answered env start busy).available ≡ false
      → IsOffer start (answered env start busy)
  answered-IsOffer start busy known e =
      elim (Bool-cases (is_slot_free start default_appointment_minutes busy)) [
        | inl free ↦ absurd (ground arith)
        | inr taken ↦
            let (ds, found) = propose_free_slots_total (slots_after env start busy) (omega arith) in
            rw (taken, found)
              (record {
                busy = busy;
                known = known;
                taken = λ all.
                    cc (taken, (is_slot_free_iff start default_appointment_minutes busy).1 all);
                at_most = length-propose_free_slots (slots_after env start busy) ds found;
                offered =
                    propose_free_slots-IsProposal (slots_after env start busy) ds (omega arith)
                      found;
              })
      ]

  checked-IsOffer :
      (start : ℕ) (c : Option ConnectionStatus) (w : World Num)
      → (checked env start c w).0.available ≡ false
      → IsOffer start (checked env start c w).0
  checked-IsOffer start none w e = cc
  checked-IsOffer start (some c) w e = elim (Option-cases (env.load_busy start)) [
    | inl threw ↦ absurd (ground arith)
    | inr (busy, known) ↦
        rw (known, checked) (answered-IsOffer start busy known (rw (known, checked) at e))
  ]

  -- When the caller is told that a slot is taken, the provider reported a busy interval that
  -- shares a moment with it, and the alternatives, at most three, are free, in business hours, not
  -- in the past, and within fourteen days of the wish.
  pub check_availability-IsOffer :
      (start : ℕ) (w : World Num)
      → (check_availability env start w).0.available ≡ false
      → IsOffer start (check_availability env start w).0
  unfolding check_availability
  check_availability-IsOffer start w e = checked-IsOffer start w.connection w e
