-- ===== src/Realtime/Agent/Safety.antt =====
-- What every session of a `DialogueAgent` (apps/api/src/realtime/agent.ts) promises.
use ai_phone_plattform.Prelude.{suc, ◌≡◌, refl, ap, arith, true, false}
use ai_phone_plattform.Js.{Js}
use ai_phone_plattform.World.{Call}
use ai_phone_plattform.Conversation.Stored.{IsStored, question_of-own, upsert-fit}
use ai_phone_plattform.Realtime.Checked.{validate_answer_value-Fits}
use ai_phone_plattform.Realtime.Agent.{
  AgentConfig, Session, Runtime, save_message, save_answer, send_token, add_usage, set_consent,
  set_call_status, push, end_session,
}
use ai_phone_plattform.Realtime.Agent.Invariants.{IsKept}
use ai_phone_plattform.Realtime.Agent.Events.{IsReached, IsReached-invariant}

module _ (js : Js) (cfg : AgentConfig js.Num) (call : Call js.Num) where
  open js use {Num}

  abbrev Good : Session Num → Type 0
  Good s = IsStored js cfg.questions s.call

  Good-IsKept : (llm : Runtime Num) → IsKept js cfg llm Good
  unfolding save_message send_token push add_usage save_answer end_session
  Good-IsKept llm = record {
    message = λ role text s h. h;
    token = λ t last s h. h;
    pushed = λ m s h. h;
    usage = λ u s h. h;
    answer = λ q key value v raw s found e h.
        upsert-fit js cfg.questions q v raw s.call.answers
          (question_of-own js cfg.questions key q found) (validate_answer_value-Fits js q value v e)
          h;
    close = λ s e h. h;
  }

  -- Whatever the model does, every answer that is stored in a session fits the question of its key,
  -- if those did that were there at its start.
  pub IsReached-IsStored :
      {s : Session Num}
      → IsStored js cfg.questions call
      → IsReached js cfg call s
      → IsStored js cfg.questions s.call
  unfolding set_call_status set_consent
  IsReached-IsStored {s} h r =
      IsReached-invariant js cfg call Good
        (record {
          initial = h;
          kept = Good-IsKept;
          counted = λ llm s h. h;
          status = λ status now s h. h;
          agreed = λ s h. h;
        })
        r

  -- The relay is ended once if the session is over, and else never.
  pub data IsEnded : Session Num → Type 0 where
    running : {s : Session Num} → s.ended ≡ false → s.ends ≡ 0 → IsEnded s
    over : {s : Session Num} → s.ended ≡ true → s.ends ≡ 1 → IsEnded s

  ends-of : (s : Session Num) → s.ended ≡ false → IsEnded s → s.ends ≡ 0
  ends-of s e (running _ h) = h
  ends-of s e (over o _) = absurd (ground arith)

  ended-move : (s t : Session Num) → t.ended ≡ s.ended → t.ends ≡ s.ends → IsEnded s → IsEnded t
  ended-move s t e f (running o h) = running (ground arith) (ground arith)
  ended-move s t e f (over o h) = over (ground arith) (ground arith)

  IsEnded-IsKept : (llm : Runtime Num) → IsKept js cfg llm IsEnded
  unfolding save_message send_token push add_usage save_answer end_session
  IsEnded-IsKept llm = record {
    message = λ role text s h. ended-move s _ refl refl h;
    token = λ t last s h. ended-move s _ refl refl h;
    pushed = λ m s h. ended-move s _ refl refl h;
    usage = λ u s h. ended-move s _ refl refl h;
    answer = λ q key value v raw s found e h. ended-move s _ refl refl h;
    close = λ s e h. over refl (ap suc (ends-of s e h));
  }

  -- Every session has ended the relay once if it is over, and not at all before.
  pub IsReached-IsEnded : {s : Session Num} → IsReached js cfg call s → IsEnded s
  unfolding set_call_status set_consent
  IsReached-IsEnded r =
      IsReached-invariant js cfg call IsEnded
        (record {
          initial = running refl refl;
          kept = IsEnded-IsKept;
          counted = λ llm s h. ended-move s _ refl refl h;
          status = λ status now s h. ended-move s _ refl refl h;
          agreed = λ s h. ended-move s _ refl refl h;
        })
        r
