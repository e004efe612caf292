-- ===== src/Realtime/Agent/Events.antt =====
-- The events that drive a `DialogueAgent` (apps/api/src/realtime/agent.ts), and what a sequence of
-- them keeps.
use ai_phone_plattform.Prelude.{
  ℕ, ◌≡◌, refl, Bool, true, false, not, ◌&&◌, ◌||◌, [], ◌∷◌, Text, trim, is_empty, or-eq-false,
  if◌then◌else◌,
}
use ai_phone_plattform.Js.{Js}
use ai_phone_plattform.Types.{CallStatus, declined, in_progress, caller, txt}
use ai_phone_plattform.World.{Call}
use ai_phone_plattform.Exec.{Outcome, ok}
use ai_phone_plattform.Conversation.{says_yes, says_no}
use ai_phone_plattform.Realtime.Agent.{
  system_role, user_role, AgentConfig, Session, Runtime, plain_message, decline_text, consent_retry,
  save_message, set_consent, set_call_status, push, speak, send_token,
}
use ai_phone_plattform.Realtime.Agent.Turn.{
  count_turn, run_llm_turn, declined_session, consented, gate, on_caller_text, on_time_up,
}
use ai_phone_plattform.Realtime.Agent.Invariants.{
  IsKept, run_llm_turn-kept, speak-kept, wrap_up-kept, branch-kept, if-kept,
}

-- The constructor of the agent, on the rows of its call.
abbrev pub new_session : {N : Type 0} → AgentConfig N → Call N → Session N
new_session cfg call = record {
  history = plain_message system_role (txt cfg.system_prompt ∷ []) ∷ [];
  consent_given = cfg.consent_given;
  turns = 0;
  ended = false;
  call = call;
  sent = [];
  ends = 0;
}

module _ (js : Js) (cfg : AgentConfig js.Num) (call : Call js.Num) where
  -- The sessions that utterances and the time-out lead to, with a runtime that may answer
  -- differently at every event. An event that throws is over too.
  pub data IsReached : Session js.Num → Type 1 where
    start : IsReached (new_session cfg call)
    heard :
        (llm : Runtime js.Num) (text : Text) {s : Session js.Num}
        → IsReached s
        → IsReached (on_caller_text js cfg llm text s).1
    timed :
        (llm : Runtime js.Num) {s : Session js.Num}
        → IsReached s
        → IsReached (on_time_up js cfg llm s)

  pub record IsInvariant (P : Session js.Num → Type 0) : Type 1 where
    pub initial : P (new_session cfg call)
    pub kept : (llm : Runtime js.Num) → IsKept js cfg llm P
    pub counted : (llm : Runtime js.Num) (s : Session js.Num) → P s → P (count_turn js cfg llm s)
    pub status :
        (status : CallStatus) (now : ℕ) (s : Session js.Num)
        → P s
        → P (set_call_status status now s)
    pub agreed :
        (s : Session js.Num) → P s → P (set_consent true (record s { consent_given = true }))

module _ (js : Js) (cfg : AgentConfig js.Num) (call : Call js.Num) (P : Session js.Num → Type 0)
    (inv : IsInvariant js cfg call P) where
  open js use {Num}

  gate-kept :
      (llm : Runtime Num) (text : Text) (s : Session Num)
      → s.ended ≡ false
      → P s
      → P (gate js cfg llm text s).1
  unfolding speak save_message send_token set_call_status
  gate-kept llm text s e h =
      branch-kept js cfg llm P (inv.kept llm) (says_no text && not (says_yes text))
        (ok tt, declined_session js cfg llm s)
        (if says_yes text
          then run_llm_turn js cfg llm (consented js cfg llm text s)
          else (ok tt, speak consent_retry s))
        ((inv.kept llm).close (speak decline_text (set_call_status declined llm.now s)) e
          (speak-kept js cfg llm P (inv.kept llm) decline_text _ (inv.status declined llm.now s h)))
        (branch-kept js cfg llm P (inv.kept llm) (says_yes text)
          (run_llm_turn js cfg llm (consented js cfg llm text s)) (ok tt, speak consent_retry s)
          (run_llm_turn-kept js cfg llm P (inv.kept llm) (inv.counted llm) _
            ((inv.kept llm).pushed _ _ (inv.status in_progress llm.now _ (inv.agreed s h))))
          (speak-kept js cfg llm P (inv.kept llm) _ s h))

  ignored-kept :
      (llm : Runtime Num) (b : Bool) (s : Session Num) (r : Outcome (Unit {0}) × Session Num)
      → P s
      → (b ≡ false → P r.1)
      → P (if b then (ok tt, s) else r).1
  ignored-kept llm true s r h k = h
  ignored-kept llm false s r h k = k refl

  heard-kept :
      (llm : Runtime Num) (text : Text) (s : Session Num)
      → P s
      → P (on_caller_text js cfg llm text s).1
  unfolding on_caller_text save_message
  heard-kept llm text s h =
      ignored-kept llm (s.ended || is_empty (trim text)) s
        (if s.consent_given
          then run_llm_turn js cfg llm (
              push (plain_message user_role (txt (trim text) ∷ []))
                (save_message caller (txt (trim text) ∷ []) s))
          else gate js cfg llm text (save_message caller (txt (trim text) ∷ []) s))
        h
        (λ e.
          branch-kept js cfg llm P (inv.kept llm) s.consent_given
            (run_llm_turn js cfg llm (
              push (plain_message user_role (txt (trim text) ∷ []))
                (save_message caller (txt (trim text) ∷ []) s)))
            (gate js cfg llm text (save_message caller (txt (trim text) ∷ []) s))
            (run_llm_turn-kept js cfg llm P (inv.kept llm) (inv.counted llm) _
              ((inv.kept llm).pushed _ _ ((inv.kept llm).message _ _ s h)))
            (gate-kept llm text _ (or-eq-false _ _ e).0 ((inv.kept llm).message _ _ s h)))

  timed-kept : (llm : Runtime Num) (s : Session Num) → P s → P (on_time_up js cfg llm s)
  unfolding on_time_up
  timed-kept llm s h =
      if-kept js cfg llm P (inv.kept llm) s.ended s _ h
        (λ e. wrap_up-kept js cfg llm P (inv.kept llm) _ s h)

  -- An invariant of the events holds in every session that they reach.
  pub IsReached-invariant : {s : Session Num} → IsReached js cfg call s → P s
  IsReached-invariant start = inv.initial
  IsReached-invariant (heard llm text {s} r) = heard-kept llm text s (IsReached-invariant r)
  IsReached-invariant (timed llm {s} r) = timed-kept llm s (IsReached-invariant r)
