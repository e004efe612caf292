-- ===== src/Conversation/Frame.antt =====
-- What the phases of `handleTurn` (apps/api/src/services/conversation.service.ts) leave alone.
use ai_phone_plattform.Prelude.{
  ℕ, ◌≡◌, refl, ap, ◌∙◌, Bool, true, false, Option, none, some, List, arith, Text, Option-cases,
  inl, inr, if◌then◌else◌,
}
use ai_phone_plattform.Js.{Js, Value}
use ai_phone_plattform.Types.{MessageRole, Say, Question}
use ai_phone_plattform.Questionnaire.{AnswerMap, next_question}
use ai_phone_plattform.Questionnaire.Normalize.{Normalization}
use ai_phone_plattform.World.{World, Call, CallState, CallAnswer, Env, done}
use ai_phone_plattform.Exec.{Exec, Outcome, ok, threw, update_call}
use ai_phone_plattform.Exec.Fixes.{Fixes, Fixes-bind, Fixes-when}
use ai_phone_plattform.Summary.{finalize_call}
use ai_phone_plattform.Summary.Final.{talk, finalize_call-talk}
use ai_phone_plattform.Conversation.{
  Action, TurnResult, log_message, set_state, say, resolve_in_zone, resolve_datetime_answer,
  store_answer, agrees, goodbye, hangup,
}
use ai_phone_plattform.Conversation.Turn.{
  finalize, recovered, ask_email, wrap_up, ask_next, proceed_after_confirm, has_mail,
  start_questions, next_turn, confirm_turn, correction_turn, email_consent_turn,
}
use ai_phone_plattform.Calendar.Booking.{check_availability}

-- A view of a call that logged messages and the place in the flow do not change.
abbrev pub kept : {N : Type 0} → World N → Bool × List (CallAnswer N)
kept w = (w.call.consent_given, w.call.answers)

module _ {N : Type 0} where
  log_message-kept : (role : MessageRole) (text : Say) → Fixes kept (log_message {N = N} role text)
  unfolding log_message
  log_message-kept role text = record { at = λ w. refl }

  pub set_state-kept : (s : CallState) → Fixes kept (set_state {N = N} s)
  unfolding set_state
  set_state-kept s = record { at = λ w. refl }

  pub say-kept : (text : Say) (a : Action) → Fixes kept (say {N = N} text a)
  unfolding say log_message
  say-kept text a = record { at = λ w. refl }

  pub store_answer-consent :
      (q : Question N) (v : Value N) (raw : Text)
      → Fixes (λ w. w.call.consent_given) (store_answer q v raw)
  unfolding store_answer
  store_answer-consent q v raw = record { at = λ w. refl }

  availability-call :
      (env : Env N) (start : ℕ) (w : World N) → (check_availability env start w).1.call ≡ w.call
  unfolding check_availability
  availability-call env start w = ground arith

  in_zone-kept : (env : Env N) (text : Text) → Fixes kept (resolve_in_zone env text)
  unfolding resolve_in_zone
  in_zone-kept env text = elim (Option-cases (env.resolve_datetime text)) [
    | inl none' ↦ record { at = λ w. rw (none', resolve_in_zone) refl }
    | inr (start, found) ↦ record {
      at = λ w.
          rw (found, resolve_in_zone)
            (ap (λ c. (c.consent_given, c.answers)) (availability-call env start w));
    }
  ]

  zoned-kept :
      (known : Bool) (r : Outcome (Normalization N) × World N) (w : World N)
      → kept r.1 ≡ kept w
      → kept (if known then r else (threw, w)).1 ≡ kept w
  zoned-kept true r w h = h
  zoned-kept false r w h = refl

  pub resolve-kept : (env : Env N) (text : Text) → Fixes kept (resolve_datetime_answer env text)
  unfolding resolve_datetime_answer
  resolve-kept env text = record {
    at = λ w.
        zoned-kept env.knows_timezone (resolve_in_zone env text w) w ((in_zone-kept env text).at w);
  }

module _ (js : Js) (env : Env js.Num) where
  open js use {Num}

  recovered-talk :
      (r : Outcome (Unit {0}) × World Num) → talk (recovered js env r).1.call ≡ talk r.1.call
  recovered-talk (ok a, w) = refl
  recovered-talk (threw, w) = refl

  pub finalize-talk : (w : World Num) → talk (finalize js env w).1.call ≡ talk w.call
  unfolding finalize
  finalize-talk w = recovered-talk (finalize_call js env w) ∙ finalize_call-talk js env w

  finalize-kept : Fixes kept (finalize js env)
  finalize-kept = record { at = λ w. ap (λ t. (t.0, t.2)) (finalize-talk w) }

  ask_email-kept : Fixes kept (ask_email js env)
  ask_email-kept = Fixes-bind kept _ _ (set_state-kept _) λ _. say-kept _ _

  wrap_up-kept : Fixes kept (wrap_up js env)
  wrap_up-kept =
      Fixes-bind kept _ _ (set_state-kept _)
        λ _. Fixes-bind kept _ _ finalize-kept λ _. say-kept _ _

  either-kept :
      (b : Bool) (m n : Exec Num TurnResult)
      → Fixes kept m
      → Fixes kept n
      → Fixes kept (if b then m else n)
  either-kept true m n h k = h
  either-kept false m n h k = k

  pub proceed-kept :
      (answers : List (CallAnswer Num)) → Fixes kept (proceed_after_confirm js env answers)
  unfolding proceed_after_confirm
  proceed-kept answers = record {
    at =
        (either-kept (has_mail js env answers) (ask_email js env) (wrap_up js env) ask_email-kept
          wrap_up-kept).at;
  }

  ask_next-kept : (ending : Say) (q : Option (Question Num)) → Fixes kept (ask_next js env ending q)
  ask_next-kept ending none = Fixes-bind kept _ _ (set_state-kept _) λ _. say-kept _ _
  ask_next-kept ending (some q) = Fixes-bind kept _ _ (set_state-kept _) λ _. say-kept _ _

  pub start-kept : (answers : AnswerMap Num) → Fixes kept (start_questions js env answers)
  unfolding start_questions
  start-kept answers = record {
    at = (ask_next-kept _ (next_question js env.assistant.questions answers)).at;
  }

  pub next-kept : (answers : AnswerMap Num) → Fixes kept (next_turn js env answers)
  unfolding next_turn
  next-kept answers = record {
    at = (ask_next-kept _ (next_question js env.assistant.questions answers)).at;
  }

  pub confirm-kept :
      (c : Call Num) (s : CallState) (t : Option Text) → Fixes kept (confirm_turn js env c s t)
  unfolding confirm_turn
  confirm-kept c s t = record {
    at =
        (either-kept _ _ _ (Fixes-bind kept _ _ (set_state-kept _) (λ _. say-kept _ _))
          (proceed-kept c.answers)).at;
  }

  pub correction-kept : (c : Call Num) (t : Option Text) → Fixes kept (correction_turn js env c t)
  unfolding correction_turn
  correction-kept c t = record {
    at =
        (Fixes-bind kept _ _ (Fixes-when kept _ _ (log_message-kept _ _))
          (λ _. proceed-kept c.answers)).at;
  }

  pub email_consent-kept :
      (s : CallState) (t : Option Text) → Fixes kept (email_consent_turn js env s t)
  unfolding email_consent_turn
  email_consent-kept s t = record {
    at =
        (Fixes-bind kept (update_call (λ c. record c { caller_email_consent = agrees t })) _
          (record { at = λ w. refl })
          λ _.
            Fixes-bind kept _ _ (set_state-kept (record s { phase = some done }))
              λ _. Fixes-bind kept _ _ finalize-kept λ _. say-kept (goodbye t) hangup).at;
  }
