-- ===== src/Webhook.antt =====
-- apps/api/src/routes/webhooks.ts: what the carrier's webhooks do. The signature check, the schemas
-- and the shape of the XML are parameters: a request is verified and parsed or not.
pub mod Voice
pub mod Status
use ai_phone_plattform.Prelude.{
  ℕ, ◌+◌, Bool, true, false, not, ◌&&◌, Option, none, some, List, [], ◌∷◌, Text, length, is_empty,
  is_some, or_else, ltb, ◌==◌, if◌then◌else◌,
}
use ai_phone_plattform.Js
use ai_phone_plattform.Js.{Js}
use ai_phone_plattform.Types.{CallStatus, completed, declined, failed, Say, lit}
use ai_phone_plattform.Lifecycle.{
  EndOfCallAction, finalize, abandon, backfill, ignore, EndOfCallInput, classify_end_of_call,
  parse_call_duration,
}
use ai_phone_plattform.World.{World, Call, Env}
use ai_phone_plattform.Exec.{
  Exec, Outcome, ok, threw, continue, ◌>>=◌, ◌>>◌, pure, update_call, gets, when,
}
use ai_phone_plattform.Billing.{record_usage}
use ai_phone_plattform.Summary.{finalize_call, elapsed_seconds}
use ai_phone_plattform.Conversation.{TurnResult, Action, gather, hangup}
use ai_phone_plattform.Conversation.Turn.{handle_turn}

pub data Response : Type 0 where
  invalid_signature bad_request acknowledged : Response
  say_and_hangup say_and_gather say_and_relay : Say → Response
  hangup_only : Response

-- The parts of a status callback that are read.
pub record StatusCallback : Type 0 where
  pub call_status : Text
  pub call_duration : Option Text

module _ (js : Js) (env : Env js.Num) where
  open js use {Num, of_nat}

  -- the usage of a call without a language model
  abbrev pub minutes_only : ℕ → Exec Num (Unit {0})
  minutes_only seconds = do
    _ ← record_usage js env (record {
      duration_seconds = of_nat seconds;
      llm_input_tokens = of_nat 0;
      llm_output_tokens = of_nat 0;
    })
    pure tt

  abbrev pub store_duration : Option ℕ → Exec Num (Unit {0})
  store_duration none = pure tt
  store_duration (some d) = update_call (λ c. record c { duration_seconds = d })

  unfoldable pub abandon_call : ℕ → Exec Num (Unit {0})
  abandon_call seconds = do
    update_call
        λ c. record c { status = failed; ended_at = some env.now; duration_seconds = seconds }
    minutes_only seconds

  abbrev pub backfill_usage : Bool → ℕ → Exec Num (Unit {0})
  backfill_usage billed seconds w =
      if not billed && ltb 0 seconds then minutes_only seconds w else (ok tt, w)

  unfoldable pub backfill_call : Option ℕ → Call Num → Exec Num (Unit {0})
  backfill_call duration c = do
    when (c.duration_seconds == 0) (store_duration duration)
    backfill_usage (is_some c.usage_event) (or_else duration c.duration_seconds)

  -- the `switch` on the action
  abbrev pub act : EndOfCallAction → Option ℕ → Call Num → Exec Num (Unit {0})
  act finalize duration c = store_duration duration >> finalize_call js env
  act abandon duration c = abandon_call (or_else duration (elapsed_seconds env.now c.started_at))
  act backfill duration c = backfill_call duration c
  act ignore duration c = pure tt

  abbrev pub input_of : StatusCallback → Call Num → EndOfCallInput
  input_of body c = record {
    twilio_status = body.call_status;
    call_status = c.status;
    consent_given = c.consent_given;
    answer_count = length c.answers;
  }

  -- the status callback of a known call; an error is caught, and what was written before it stays
  unfoldable pub on_status : StatusCallback → World Num → World Num
  on_status body w =
      (act (classify_end_of_call (input_of body w.call)) (parse_call_duration js body.call_duration)
        w.call w).1

  -- `/webhooks/twilio/status`
  unfoldable pub handle_status :
      Bool → Option StatusCallback → Bool → World Num → Response × World Num
  handle_status false body known w = (invalid_signature, w)
  handle_status true none known w = (bad_request, w)
  handle_status true (some body) known w = (acknowledged, if known then on_status body w else w)

  abbrev pub answer : TurnResult → Response
  answer r = elim r.action [ gather ↦ say_and_gather r.say | hangup ↦ say_and_hangup r.say ]

  abbrev pub gathered : Outcome TurnResult × World Num → Response × World Num
  gathered (threw, w) = (
    say_and_hangup (
        lit "Es ist ein technischer Fehler aufgetreten. Bitte versuchen Sie es später erneut."
        ∷ []),
    w,
  )
  gathered (ok r, w) = (answer r, w)

  -- `/webhooks/twilio/gather` of a known call: `SpeechResult ?? Digits ?? ''`
  unfoldable pub handle_gather : Bool → Option Text → Option Text → World Num → Response × World Num
  handle_gather false speech digits w = (invalid_signature, w)
  handle_gather true speech digits w =
      gathered (handle_turn js env (some (or_else speech (or_else digits []))) w)

  abbrev pub is_over : CallStatus → Bool
  is_over completed = true
  is_over declined = true
  is_over failed = true
  is_over _ = false

  abbrev resumed : Outcome TurnResult × World Num → Response × World Num
  resumed (ok r, w) = (say_and_gather r.say, w)
  resumed (threw, w) = (
    say_and_gather
        (lit "Entschuldigung, es gab eine kurze Störung. Wo waren wir stehen geblieben?" ∷ []),
    w,
  )

  -- `/webhooks/twilio/relay-action`
  unfoldable pub handle_relay_action : Bool → World Num → Response × World Num
  handle_relay_action false w = (invalid_signature, w)
  handle_relay_action true w =
      if is_over w.call.status then (hangup_only, w) else resumed (handle_turn js env (some []) w)
