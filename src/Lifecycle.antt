-- ===== src/Lifecycle.antt =====
-- apps/api/src/lib/call-lifecycle.ts: what is to be done when the carrier reports that a call ended.
use ai_phone_plattform.Prelude.{
  ℕ, ◌<◌, ◌≡◌, ◌↔◌, Bool, true, false, ◌&&◌, Option, none, some, List, [], ◌∷◌, Text, text_eq,
  codes, any, ltb, is_empty, arith, if◌then◌else◌,
}
use ai_phone_plattform.Js.{Js}
use ai_phone_plattform.Types.{
  CallStatus, ringing, consent_pending, in_progress, summarizing, completed, declined, failed,
}

pub data EndOfCallAction : Type 0 where
  finalize abandon backfill ignore : EndOfCallAction

abbrev final_twilio_statuses : List Text
final_twilio_statuses =
    codes "completed" ∷ codes "busy" ∷ codes "failed" ∷ codes "no-answer" ∷ codes "canceled" ∷ []

unfoldable pub is_final_twilio_status : Text → Bool
is_final_twilio_status status = any (text_eq status) final_twilio_statuses

pub record EndOfCallInput : Type 0 where
  pub twilio_status : Text
  pub call_status : CallStatus
  pub consent_given : Bool
  pub answer_count : ℕ

-- the `switch` on our status
abbrev pub classify_status : CallStatus → Bool → ℕ → EndOfCallAction
classify_status completed consent count = backfill
classify_status declined consent count = backfill
classify_status failed consent count = backfill
classify_status in_progress consent count = if consent && ltb 0 count then finalize else abandon
classify_status summarizing consent count = if consent && ltb 0 count then finalize else abandon
classify_status ringing consent count = abandon
classify_status consent_pending consent count = abandon

unfoldable pub classify_end_of_call : EndOfCallInput → EndOfCallAction
classify_end_of_call i =
    if is_final_twilio_status i.twilio_status
    then classify_status i.call_status i.consent_given i.answer_count
    else ignore

module _ (js : Js) where
  open js use {of_nat, le, is_finite, to_number, to_nat, round}

  abbrev parsed_duration : Text → Option ℕ
  parsed_duration raw =
      let n = to_number raw in
      if is_finite n && le (of_nat 0) n then some (to_nat (round n)) else none

  -- `undefined` and the empty text are no duration.
  unfoldable pub parse_call_duration : Option Text → Option ℕ
  parse_call_duration none = none
  parse_call_duration (some raw) = if is_empty raw then none else parsed_duration raw

abbrev pub is_open_status : CallStatus → Bool
is_open_status in_progress = true
is_open_status summarizing = true
is_open_status _ = false

abbrev pub is_ended_status : CallStatus → Bool
is_ended_status completed = true
is_ended_status declined = true
is_ended_status failed = true
is_ended_status _ = false

-- The full finalization, with its language model, runs exactly when the carrier's status is final,
-- the call is in progress or summarizing, the caller consented, and there is an answer.
pub classify-eq-finalize_iff :
    (i : EndOfCallInput)
    → (classify_end_of_call i ≡ finalize) ↔ (
        (is_final_twilio_status i.twilio_status ≡ true)
        × (is_open_status i.call_status ≡ true)
        × (i.consent_given ≡ true)
        × (0 < i.answer_count))
unfolding classify_end_of_call
classify-eq-finalize_iff i = ground arith
