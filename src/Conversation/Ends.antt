-- ===== src/Conversation/Ends.antt =====
-- How a turn of `handleTurn` (apps/api/src/services/conversation.service.ts) ends: it
-- answers, and it hangs up only on a call that is over.
use ai_phone_plattform.Prelude.{
  ◌≡◌, refl, sym, subst, ◌⊎◌, Bool, true, false, Option, none, some, List, [], Text, arith,
  Bool-cases, Option-cases, inl, inr, trim, is_empty, not, ◌&&◌, leb, ◌+◌, if◌then◌else◌,
}
use ai_phone_plattform.Js.{Js}
use ai_phone_plattform.Types.{Question, Say, CallStatus, completed, declined, failed}
use ai_phone_plattform.Questionnaire.{AnswerMap, next_question}
use ai_phone_plattform.Questionnaire.Normalize.{Normalization, accepted, unclear}
use ai_phone_plattform.World.{
  World, Call, CallState, CallAnswer, Env, Phase, consent, questions, confirm, correction,
  email_consent, done,
}
use ai_phone_plattform.Exec.{Exec, Outcome, ok, threw, continue, ◌>>=◌}
use ai_phone_plattform.Summary.{finalize_call, is_completed, is_readable}
use ai_phone_plattform.Summary.Final.{finalize_call-IsFinal, finalize_call-closed}
use ai_phone_plattform.Conversation.{
  Action, gather, hangup, TurnResult, says_yes, says_no, is_silent, spoken, state_of, log_message,
  set_state, say, resolve_in_zone, resolve_datetime_answer, store_answer, build_answer_map,
}
use ai_phone_plattform.Conversation.Turn.{
  handle_turn, turn_in, consent_turn, questions_turn, answer_turn, take_answer, understand,
  is_datetime, next_turn, start_questions, ask_next, confirm_turn, correction_turn,
  email_consent_turn, proceed_after_confirm, has_mail, ask_email, wrap_up, finalize, recovered,
}

abbrev pub IsOver : CallStatus → Type 0
IsOver completed = Unit
IsOver declined = Unit
IsOver failed = Unit
IsOver _ = ⊥

-- A phase in which the flow has nothing left to do: `done`, or none that the flow knows.
abbrev pub IsPast : Option Phase → Type 0
IsPast none = Unit
IsPast (some done) = Unit
IsPast (some _) = ⊥

abbrev pub IsFair : {N : Type 0} → Option Phase → Action → Call N → Type 0
IsFair p gather c = Unit
IsFair p hangup c = IsOver c.status ⊎ IsPast p

-- The turn answers, and if it hangs up the call is over or had nothing left to do.
pub data IsAnswered {N : Type 0} (p : Option Phase) : Outcome TurnResult × World N → Type 0 where
  answered : (r : TurnResult) {w : World N} → IsFair p r.action w.call → IsAnswered p (ok r, w)

is_completed-IsOver :
    (js : Js) (env : Env js.Num) (s : CallStatus) → is_completed js env s ≡ true → IsOver s
is_completed-IsOver js env completed e = tt
is_completed-IsOver js env declined e = tt
is_completed-IsOver js env failed e = tt
is_completed-IsOver js env _ e = absurd (ground arith)

module _ (js : Js) (env : Env js.Num) (p : Option Phase) where
  open js use {Num}

  abbrev Answers : Exec Num TurnResult → World Num → Type 0
  Answers m w = IsAnswered p (m w)

  -- Finalizing ends the call, or throws before it wrote anything.
  pub finalize_call-Ends :
      (w : World Num)
      → IsOver (finalize_call js env w).1.call.status
        ⊎ ((is_readable js env w.call ≡ false) × (finalize_call js env w ≡ (threw, w)))
  finalize_call-Ends w = elim (Bool-cases (is_completed js env w.call.status)) [
    | inl closed ↦ inl (
        subst (λ r. IsOver r.1.call.status) (sym (finalize_call-closed js env w closed))
          (is_completed-IsOver js env w.call.status closed))
    | inr fresh ↦ elim (finalize_call-IsFinal js env w fresh) [
      | inl (read, final) ↦ inl (subst IsOver (sym final.status) tt)
      | inr unread ↦ inr unread
    ]
  ]

  pub finalize_call-IsOver :
      (w : World Num)
      → is_readable js env w.call ≡ true
      → IsOver (finalize_call js env w).1.call.status
  finalize_call-IsOver w read = elim (finalize_call-Ends w) [
    | inl over ↦ over
    | inr (unread, _) ↦ absurd (ground arith)
  ]

  recovered-Answers :
      (text : Say) (r : Outcome (Unit {0}) × World Num)
      → IsOver r.1.call.status
      → IsAnswered p (continue (recovered js env r) (λ _. say text hangup))
  unfolding say log_message
  recovered-Answers text (ok a, w) h = answered _ (inl h)
  recovered-Answers text (threw, w) h = answered _ (inl tt)

  finalize-Answers :
      (text : Say) (w : World Num) → Answers (finalize js env >>= λ _. say text hangup) w
  unfolding finalize say log_message
  finalize-Answers text w = elim (finalize_call-Ends w) [
    | inl over ↦ recovered-Answers text (finalize_call js env w) over
    | inr (_, fails) ↦
        subst (λ r. IsAnswered p (continue (recovered js env r) (λ _. say text hangup))) (sym fails)
          (answered _ (inl tt))
  ]

  gather-Answers :
      (s : CallState) (text : Say) (w : World Num)
      → Answers (set_state s >>= λ _. say text gather) w
  unfolding set_state say log_message
  gather-Answers s text w = answered _ tt

  either-Answers :
      (b : Bool) (m n : Exec Num TurnResult) (w : World Num)
      → Answers m w
      → Answers n w
      → Answers (if b then m else n) w
  either-Answers true m n w h k = h
  either-Answers false m n w h k = k

  proceed-Answers :
      (answers : List (CallAnswer Num)) (w : World Num)
      → Answers (proceed_after_confirm js env answers) w
  unfolding proceed_after_confirm set_state
  proceed-Answers answers w =
      either-Answers (has_mail js env answers) (ask_email js env) (wrap_up js env) w
        (gather-Answers _ _ w) (finalize-Answers _ _)

  ask_next-Answers :
      (ending : Say) (q : Option (Question Num)) (w : World Num)
      → Answers (ask_next js env ending q) w
  ask_next-Answers ending none w = gather-Answers _ _ w
  ask_next-Answers ending (some q) w = gather-Answers _ _ w

  next-Answers : (answers : AnswerMap Num) (w : World Num) → Answers (next_turn js env answers) w
  unfolding next_turn
  next-Answers answers w = ask_next-Answers _ (next_question js env.assistant.questions answers) w

  consent-Answers : (t : Option Text) (w : World Num) → Answers (consent_turn js env t) w
  unfolding consent_turn say log_message start_questions
  consent-Answers t w = elim (Bool-cases (is_silent t)) [
    | inl silent ↦ rw silent (answered _ tt)
    | inr speaks ↦ elim (Bool-cases (says_no (spoken t) && not (says_yes (spoken t)))) [
      | inl refuses ↦ rw (speaks, refuses) (answered _ (inl tt))
      | inr open' ↦ elim (Bool-cases (says_yes (spoken t))) [
        | inl agreed ↦
            rw (speaks, open', agreed)
              (ask_next-Answers _ (next_question js env.assistant.questions []) _)
        | inr unclear' ↦ rw (speaks, open', unclear') (answered _ tt)
      ]
    ]
  ]

  take-Answers :
      (s : CallState) (answers : AnswerMap Num) (q : Question Num) (t : Text)
      (r : Normalization Num) (w : World Num)
      → Answers (take_answer js env s answers q t r) w
  unfolding take_answer store_answer set_state say log_message
  take-Answers s answers q t (accepted v) w = next-Answers _ _
  take-Answers s answers q t (unclear again) w = elim (Bool-cases (leb 3 (s.clarify_count + 1))) [
    | inl gives_up ↦ rw gives_up (next-Answers answers _)
    | inr asks ↦ rw asks (answered _ tt)
  ]

  abbrev is_ok : {A : Type 0} → Outcome A → Bool
  is_ok (ok a) = true
  is_ok threw = false

  in_zone-ok : (t : Text) (w : World Num) → is_ok (resolve_in_zone env t w).0 ≡ true
  unfolding resolve_in_zone
  in_zone-ok t w = elim (Option-cases (env.resolve_datetime t)) [
    | inl unread ↦ rw (unread, resolve_in_zone)
    | inr (start, read) ↦ rw (read, resolve_in_zone)
  ]

  zoned-ok :
      (known : Bool) (r : Outcome (Normalization Num) × World Num) (w : World Num)
      → known ≡ true
      → is_ok r.0 ≡ true
      → is_ok (if known then r else (threw, w)).0 ≡ true
  zoned-ok true r w e h = h
  zoned-ok false r w e h = absurd (ground arith)

  understand-ok :
      (q : Question Num) (t : Text) (w : World Num)
      → env.knows_timezone ≡ true
      → is_ok (understand js env q t w).0 ≡ true
  unfolding understand resolve_datetime_answer
  understand-ok q t w known = elim (Bool-cases (is_datetime js env q)) [
    | inl date ↦
        rw date (zoned-ok env.knows_timezone (resolve_in_zone env t w) w known (in_zone-ok t w))
    | inr other ↦ rw other
  ]

  continue-Answers :
      (s : CallState) (answers : AnswerMap Num) (q : Question Num) (t : Text)
      (r : Outcome (Normalization Num) × World Num)
      → is_ok r.0 ≡ true
      → IsAnswered p (continue r (take_answer js env s answers q t))
  continue-Answers s answers q t (ok n, w) h = take-Answers s answers q t n w
  continue-Answers s answers q t (threw, w) h = absurd (ground arith)

  answer-Answers :
      (s : CallState) (answers : AnswerMap Num) (q : Option (Question Num)) (t : Option Text)
      (w : World Num)
      → env.knows_timezone ≡ true
      → Answers (answer_turn js env s answers q t) w
  answer-Answers s answers none t w known = next-Answers answers w
  answer-Answers s answers (some q) t w known = elim (Bool-cases (is_silent t)) [
    | inl silent ↦ rw silent (next-Answers answers w)
    | inr speaks ↦ rw speaks (
        continue-Answers s answers q (spoken t) (understand js env q (spoken t) w)
          (understand-ok q (spoken t) w known))
  ]

  confirm-Answers :
      (c : Call Num) (s : CallState) (t : Option Text) (w : World Num)
      → Answers (confirm_turn js env c s t) w
  unfolding confirm_turn set_state say log_message
  confirm-Answers c s t w =
      elim (Bool-cases (not (is_silent t) && (says_no (spoken t) && not (says_yes (spoken t))))) [
        | inl wrong ↦ rw wrong (answered _ tt)
        | inr right ↦ rw right (proceed-Answers c.answers w)
      ]

  correction-Answers :
      (c : Call Num) (t : Option Text) (w : World Num) → Answers (correction_turn js env c t) w
  unfolding correction_turn log_message
  correction-Answers c t w = elim (Bool-cases (is_silent t)) [
    | inl silent ↦ rw silent (proceed-Answers c.answers w)
    | inr speaks ↦ rw speaks (proceed-Answers c.answers _)
  ]

  turn-Answers :
      (c : Call Num) (s : CallState) (t : Option Text) (w : World Num)
      → env.knows_timezone ≡ true
      → (q : Option Phase) → q ≡ p
      → Answers (turn_in js env q c s t) w
  unfolding say log_message questions_turn email_consent_turn set_state
  turn-Answers c s t w known (some consent) e = consent-Answers t w
  turn-Answers c s t w known (some questions) e =
      answer-Answers s (build_answer_map c.answers) _ t w known
  turn-Answers c s t w known (some confirm) e = confirm-Answers c s t w
  turn-Answers c s t w known (some correction) e = correction-Answers c t w
  turn-Answers c s t w known (some email_consent) e = finalize-Answers _ _
  turn-Answers c s t w known (some done) e = answered _ (inr (subst IsPast e tt))
  turn-Answers c s t w known none e = answered _ (inr (subst IsPast e tt))

module _ (js : Js) (env : Env js.Num) where
  -- In a time zone that the runtime knows, a turn answers the caller, even if finalizing the call
  -- fails, and when it hangs up the call is completed, declined or failed, unless there was nothing
  -- left to do.
  pub handle_turn-IsAnswered :
      (t : Option Text) (w : World js.Num)
      → env.knows_timezone ≡ true
      → IsAnswered (state_of w.call).phase (handle_turn js env t w)
  unfolding handle_turn log_message
  handle_turn-IsAnswered t w known = elim (Bool-cases (not (is_empty (trim (spoken t))))) [
    | inl speaks ↦ rw speaks (
        turn-Answers js env (state_of w.call).phase w.call (state_of w.call) t _ known
          (state_of w.call).phase refl)
    | inr silent ↦ rw silent (
        turn-Answers js env (state_of w.call).phase w.call (state_of w.call) t w known
          (state_of w.call).phase refl)
  ]
