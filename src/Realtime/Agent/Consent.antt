-- ===== src/Realtime/Agent/Consent.antt =====
-- The consent gate of `DialogueAgent` (apps/api/src/realtime/agent.ts).
use ai_phone_plattform.Prelude.{
  ◌≡◌, refl, arith, ◌⊎◌, Bool, true, false, not, ◌&&◌, ◌||◌, List, [], ◌∷◌, Text, trim, is_empty,
  Bool-cases, inl, inr, if◌then◌else◌,
}
use ai_phone_plattform.Js.{Js}
use ai_phone_plattform.Types.{caller, txt}
use ai_phone_plattform.World.{Call}
use ai_phone_plattform.Exec.{Outcome, ok}
use ai_phone_plattform.Conversation.{says_yes, says_no}
use ai_phone_plattform.Realtime.Agent.{
  user_role, AgentConfig, Session, Runtime, ChatMessage, Completion, plain_message, save_message,
  save_answer, send_token, add_usage, set_consent, set_call_status, push, speak, end_session,
  finish,
}
use ai_phone_plattform.Realtime.Agent.Turn.{
  run_llm_turn, gate, consented, on_caller_text, on_time_up,
}
use ai_phone_plattform.Realtime.Agent.Invariants.{IsKept, run_llm_turn-kept}
use ai_phone_plattform.Realtime.Agent.Events.{new_session, IsReached, start, heard, timed}

module _ (js : Js) (cfg : AgentConfig js.Num) where
  open js use {Num}

  -- Until the caller says yes, the model has no influence on what the agent does.
  pub on_caller_text-eq-silent :
      (llm : Runtime Num) (other : List ChatMessage → List Text × Completion) (t : Text)
      (s : Session Num)
      → s.consent_given ≡ false
      → says_yes t ≡ false
      → on_caller_text js cfg llm t s ≡ on_caller_text js cfg (record llm { complete = other }) t s
  unfolding on_caller_text save_message
  on_caller_text-eq-silent llm other t s e n = rw (e, n) refl

  abbrev Agreed : Session Num → Type 0
  Agreed s = (s.consent_given ≡ true) × (s.call.consent_given ≡ true)

  -- Either the caller has consented, or the agent waits for consent and no answer is stored.
  abbrev pub IsAllowed : Session Num → Type 0
  IsAllowed s = Agreed s ⊎ ((s.consent_given ≡ false) × (s.call.answers ≡ []))

  Agreed-IsKept : (llm : Runtime Num) → IsKept js cfg llm Agreed
  unfolding save_message send_token push add_usage save_answer end_session
  Agreed-IsKept llm = record {
    message = λ role text s h. h;
    token = λ t last s h. h;
    pushed = λ m s h. h;
    usage = λ u s h. h;
    answer = λ q key value v raw s found e h. h;
    close = λ s e h. h;
  }

  turn-Agreed :
      (llm : Runtime Num) (s : Session Num) → Agreed s → Agreed (run_llm_turn js cfg llm s).1
  turn-Agreed llm = run_llm_turn-kept js cfg llm Agreed (Agreed-IsKept llm) (λ s h. h)

  consented-Agreed :
      (llm : Runtime Num) (t : Text) (s : Session Num) → Agreed (consented js cfg llm t s)
  unfolding push set_call_status set_consent
  consented-Agreed llm t s = (refl, refl)

  gate-IsAllowed :
      (llm : Runtime Num) (t : Text) (s : Session Num)
      → s.consent_given ≡ false
      → s.call.answers ≡ []
      → IsAllowed (gate js cfg llm t s).1
  unfolding speak save_message send_token end_session set_call_status
  gate-IsAllowed llm t s e a = elim (Bool-cases (says_no t && not (says_yes t))) [
    | inl refuses ↦ rw refuses (inr (e, a))
    | inr open' ↦ elim (Bool-cases (says_yes t)) [
      | inl agreed ↦ rw (open', agreed) (inl (turn-Agreed llm _ (consented-Agreed llm t s)))
      | inr unclear ↦ rw (open', unclear) (inr (e, a))
    ]
  ]

  branch-IsAllowed :
      (b : Bool) (x y : Outcome (Unit {0}) × Session Num)
      → (b ≡ true → IsAllowed x.1)
      → (b ≡ false → IsAllowed y.1)
      → IsAllowed (if b then x else y).1
  branch-IsAllowed true x y h k = h refl
  branch-IsAllowed false x y h k = k refl

  Agreed-of : (s : Session Num) → IsAllowed s → s.consent_given ≡ true → Agreed s
  Agreed-of s (inl g) e = g
  Agreed-of s (inr (n, _)) e = absurd (ground arith)

  empty-of : (s : Session Num) → IsAllowed s → s.consent_given ≡ false → s.call.answers ≡ []
  empty-of s (inl g) e = absurd (ground (arith, g.0))
  empty-of s (inr (_, a)) e = a

  heard-IsAllowed :
      (llm : Runtime Num) (t : Text) (s : Session Num)
      → IsAllowed s
      → IsAllowed (on_caller_text js cfg llm t s).1
  unfolding on_caller_text save_message push
  heard-IsAllowed llm t s h =
      let s' = save_message caller (txt (trim t) ∷ []) s in
      let agreed =
        run_llm_turn js cfg llm (push (plain_message user_role (txt (trim t) ∷ [])) s') in
      branch-IsAllowed (s.ended || is_empty (trim t)) (ok tt, s)
        (if s.consent_given then agreed else gate js cfg llm t s') (λ _. h)
        (λ _.
          branch-IsAllowed s.consent_given agreed (gate js cfg llm t s')
            (λ e. inl (turn-Agreed llm _ (Agreed-of s h e)))
            (λ e. gate-IsAllowed llm t s' e (empty-of s h e)))

  timed-IsAllowed :
      (llm : Runtime Num) (s : Session Num) → IsAllowed s → IsAllowed (on_time_up js cfg llm s)
  unfolding on_time_up finish speak save_message send_token end_session
  timed-IsAllowed llm s h = ground (arith, h)

module _ (js : Js) (cfg : AgentConfig js.Num) (call : Call js.Num) where
  -- In every session, an answer is stored only after the caller's consent, which the row of the call
  -- records, if that was so at its start.
  pub IsReached-IsAllowed :
      {s : Session js.Num}
      → IsAllowed js cfg (new_session cfg call)
      → IsReached js cfg call s
      → IsAllowed js cfg s
  IsReached-IsAllowed h start = h
  IsReached-IsAllowed h (heard llm t {s} r) =
      heard-IsAllowed js cfg llm t s (IsReached-IsAllowed h r)
  IsReached-IsAllowed h (timed llm {s} r) = timed-IsAllowed js cfg llm s (IsReached-IsAllowed h r)
