-- ===== src/Calendar/Slots.antt =====
-- apps/api/src/lib/calendar-availability.ts: whether a slot is free, and which free slots follow.
use ai_phone_plattform.Prelude.{
  ℕ, zero, suc, ◌+◌, ◌*◌, ◌/◌, ◌-◌, Bool, ◌&&◌, not, Option, none, some, List, [], ◌∷◌, ◌++◌, any,
  ltb, leb, length, or_else, if◌then◌else◌,
}
use Prim.Native.Nat.{max}

pub record Interval : Type 0 where
  pub start : ℕ
  pub end : ℕ

abbrev pub minutes : ℕ → ℕ
minutes n = n * 60000

-- `start < b.end && end > b.start`
abbrev pub overlaps : ℕ → ℕ → Interval → Bool
overlaps start end b = ltb start b.end && ltb b.start end

unfoldable pub is_slot_free : ℕ → ℕ → List Interval → Bool
is_slot_free start duration_min busy =
    not (any (overlaps start (start + minutes duration_min)) busy)

pub record ProposeOptions : Type 0 where
  pub desired_start : ℕ
  pub duration_min : ℕ
  pub busy : List Interval
  pub is_within_hours : ℕ → Bool
  pub now : ℕ
  pub step_min : Option ℕ
  pub count : Option ℕ
  pub horizon_days : Option ℕ

module _ (o : ProposeOptions) where
  abbrev pub step_ms : ℕ
  step_ms = minutes (or_else o.step_min 30)

  abbrev pub wanted : ℕ
  wanted = or_else o.count 3

  -- `from`, and its place on the next step: `Math.ceil(from / stepMs) * stepMs`
  abbrev pub earliest : ℕ
  earliest = max o.desired_start o.now

  abbrev pub first_cursor : ℕ
  first_cursor = (earliest + (step_ms - 1)) / step_ms * step_ms

  abbrev pub limit : ℕ
  limit = o.desired_start + or_else o.horizon_days 14 * (24 * 60 * 60000)

  abbrev pub is_candidate : ℕ → Bool
  is_candidate d = o.is_within_hours d && is_slot_free d o.duration_min o.busy

  -- the `while` loop, on fuel; `none` means that the fuel ran out
  unfoldable pub propose_loop : ℕ → ℕ → List ℕ → Option (List ℕ)
  propose_loop zero cursor out = none
  propose_loop (suc fuel) cursor out =
      let rest =
        propose_loop fuel (cursor + step_ms)
          (if is_candidate cursor then out ++ cursor ∷ [] else out) in
      if leb cursor limit && ltb (length out) wanted then rest else some out

  -- rounds enough for every cursor up to the limit
  abbrev pub rounds : ℕ
  rounds = suc (suc ((limit - first_cursor) / step_ms))

  unfoldable pub propose_free_slots : Option (List ℕ)
  unfolding propose_loop
  propose_free_slots = propose_loop rounds first_cursor []
