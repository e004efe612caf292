-- ===== src/Conversation/Turn.antt =====
-- The phases of `handleTurn` of apps/api/src/services/conversation.service.ts, over the call as it is
-- loaded when the turn starts.
use ai_phone_plattform.Prelude.{
  ◌+◌, Bool, true, not, ◌&&◌, Option, none, some, List, [], ◌∷◌, ◌++◌, Text, codes, trim, is_empty,
  any, or_else, keep, take, leb, if◌then◌else◌,
}
use ai_phone_plattform.Js
use ai_phone_plattform.Js.{Js, Value}
use ai_phone_plattform.Types.{
  yes_no, multiple_choice, scale, datetime, email, Question, declined, in_progress, failed, caller,
  system, Say, lit, txt, join_comma,
}
use ai_phone_plattform.Questionnaire.{AnswerMap, answer_at, is_answered, next_question}
use ai_phone_plattform.Questionnaire.Normalize.{
  Normalization, accepted, unclear, labels, scale_low, scale_high, normalize_answer,
}
use ai_phone_plattform.World.{
  World, Call, CallState, CallAnswer, Env, Phase, consent, questions, confirm, correction,
  email_consent, done,
}
use ai_phone_plattform.Exec.{Exec, Outcome, ok, threw, ◌>>=◌, ◌>>◌, pure, update_call, gets, when}
use ai_phone_plattform.Summary.{type_eq, finalize_call}
use ai_phone_plattform.Conversation.{
  gather, hangup, TurnResult, says_yes, says_no, in_phase, without_mark, join_text,
  uncertain_response, is_silent, spoken, resolve_datetime_answer, log_message, set_state, say,
  build_answer_map, store_answer, pending_question, has_options, state_of, agrees, goodbye,
}

module _ (js : Js) where
  open js use {Num, show}

  unfoldable pub phrase_question : Question Num → Say
  phrase_question q =
      if type_eq q.type multiple_choice && has_options q
      then txt q.prompt
        ∷ lit " Zur Auswahl stehen: "
        ∷ (join_comma (labels (or_else q.options [])) ++ (lit "." ∷ []))
      else if type_eq q.type scale
      then txt q.prompt
        ∷ lit " Bitte auf einer Skala von "
        ∷ txt (show (scale_low js q))
        ∷ lit " bis "
        ∷ txt (show (scale_high js q))
        ∷ lit "."
        ∷ []
      else txt q.prompt ∷ []

  abbrev display : Question Num → Value Num → Text
  display q v =
      if type_eq q.type yes_no
      then (if Js.truthy js v then codes "Ja" else codes "Nein")
      else Js.to_text js v

  abbrev summary_parts : AnswerMap Num → List (Question Num) → List Text
  summary_parts answers [] = []
  summary_parts answers (q ∷ qs) = elim (answer_at answers q.key) [
    | none ↦ summary_parts answers qs
    | some a ↦
        (without_mark q.prompt ++ (codes ": " ++ display q a.value)) ∷ summary_parts answers qs
  ]

  -- `filter`, `slice(0, 5)`, `map` and `join`
  unfoldable pub build_confirmation : List (Question Num) → AnswerMap Num → Say
  build_confirmation qs answers =
      lit "Ich fasse kurz zusammen: "
      ∷ txt
          (join_text (codes ". ") (summary_parts answers (take 5 (keep (is_answered answers) qs))))
      ∷ lit ". Ist das alles so korrekt?"
      ∷ []

module _ (js : Js) (env : Env js.Num) where
  open js use {Num}

  -- `finalize`: an error of `finalizeCall` ends here
  abbrev pub recovered : Outcome (Unit {0}) × World Num → Outcome (Unit {0}) × World Num
  recovered (ok _, w) = (ok tt, w)
  recovered (threw, w) = (ok tt, record w { call = record w.call { status = failed } })

  unfoldable pub finalize : Exec Num (Unit {0})
  finalize w = recovered (finalize_call js env w)

  abbrev pub has_mail : List (CallAnswer Num) → Bool
  has_mail = any (λ a. type_eq a.type email && Js.truthy js a.value)

  abbrev pub ask_email : Exec Num TurnResult
  ask_email = do
    set_state (in_phase email_consent none)
    say
        (lit
            "Möchten Sie diese Zusammenfassung auch per E-Mail erhalten? Bitte sagen Sie Ja oder Nein."
          ∷ [])
        gather

  abbrev pub wrap_up : Exec Num TurnResult
  wrap_up = do
    set_state (in_phase done none)
    finalize
    say (lit "Vielen Dank für Ihren Anruf. Unser Team meldet sich zeitnah. Auf Wiederhören." ∷ [])
        hangup

  unfoldable pub proceed_after_confirm : List (CallAnswer Num) → Exec Num TurnResult
  proceed_after_confirm answers = if has_mail answers then ask_email else wrap_up

  -- the question that comes next, or the last words of the questionnaire
  abbrev pub ask_next : Say → Option (Question Num) → Exec Num TurnResult
  ask_next ending none = do set_state (in_phase confirm none); say ending gather
  ask_next ending (some next) = do
    set_state (in_phase questions (some next.key))
    say (phrase_question js next) gather

  unfoldable pub start_questions : AnswerMap Num → Exec Num TurnResult
  start_questions answers =
      ask_next (lit "Vielen Dank. Ich habe alle nötigen Informationen. Ist das so korrekt?" ∷ [])
        (next_question js env.assistant.questions answers)

  -- case 'consent'
  unfoldable pub consent_turn : Option Text → Exec Num TurnResult
  consent_turn caller_text =
      if is_silent caller_text
      then say (txt env.assistant.consent_text ∷ []) gather
      else if says_no (spoken caller_text) && not (says_yes (spoken caller_text))
      then ((update_call λ c. record c { status = declined; ended_at = some env.now })
          >> say
              (lit
                  "Kein Problem, ich verstehe. Sie erreichen unser Team gerne auch persönlich. Vielen Dank für Ihren Anruf und auf Wiederhören."
                ∷ [])
              hangup)
      else if says_yes (spoken caller_text)
      then ((update_call λ c. record c { consent_given = true; status = in_progress })
          >> start_questions [])
      else say
          (lit
              "Darf ich Sie kurz fragen: Sind Sie mit der KI-gestützten Bearbeitung einverstanden? Bitte sagen Sie Ja oder Nein."
            ∷ [])
          gather

  -- what follows the answer in case 'questions'; both ends of the questionnaire confirm
  unfoldable pub next_turn : AnswerMap Num → Exec Num TurnResult
  next_turn answers =
      ask_next (build_confirmation js env.assistant.questions answers)
        (next_question js env.assistant.questions answers)

  abbrev pub is_datetime : Question Num → Bool
  is_datetime q = type_eq q.type datetime

  unfoldable pub understand : Question Num → Text → Exec Num (Normalization Num)
  understand q text =
      if is_datetime q then resolve_datetime_answer env text else pure (normalize_answer js q text)

  -- the answer is stored, asked for again, or given up on the third failure
  unfoldable pub take_answer :
      CallState → AnswerMap Num → Question Num → Text → Normalization Num → Exec Num TurnResult
  take_answer state answers q text (accepted value) = do
    store_answer q value text
    next_turn ((q.key, record { value = value; raw_text = text }) ∷ answers)
  take_answer state answers q text (unclear clarification) =
      if leb 3 (state.clarify_count + 1)
      then (set_state (record state { clarify_count = 0; pending_question_key = none })
          >> next_turn answers)
      else (set_state (record state { clarify_count = state.clarify_count + 1 })
          >> say (or_else clarification uncertain_response) gather)

  abbrev pub answer_turn :
      CallState → AnswerMap Num → Option (Question Num) → Option Text → Exec Num TurnResult
  answer_turn state answers none caller_text = next_turn answers
  answer_turn state answers (some q) caller_text =
      if is_silent caller_text
      then next_turn answers
      else understand q (spoken caller_text) >>= take_answer state answers q (spoken caller_text)

  -- case 'questions'
  unfoldable pub questions_turn : Call Num → CallState → Option Text → Exec Num TurnResult
  questions_turn c state caller_text =
      answer_turn state (build_answer_map c.answers)
        (pending_question env.assistant.questions state.pending_question_key) caller_text

  -- case 'confirm'
  unfoldable pub confirm_turn : Call Num → CallState → Option Text → Exec Num TurnResult
  confirm_turn c state caller_text =
      if not (is_silent caller_text)
        && (says_no (spoken caller_text) && not (says_yes (spoken caller_text)))
      then (set_state (record state { phase = some correction })
          >> say (lit "Verstanden. Was möchten Sie gerne korrigieren oder ergänzen?" ∷ []) gather)
      else proceed_after_confirm c.answers

  -- case 'correction'
  unfoldable pub correction_turn : Call Num → Option Text → Exec Num TurnResult
  correction_turn c caller_text = do
    when (not (is_silent caller_text))
        (log_message system (lit "Korrektur: " ∷ txt (spoken caller_text) ∷ []))
    proceed_after_confirm c.answers

  -- case 'email_consent'
  unfoldable pub email_consent_turn : CallState → Option Text → Exec Num TurnResult
  email_consent_turn state caller_text = do
    update_call λ c. record c { caller_email_consent = agrees caller_text }
    set_state (record state { phase = some done })
    finalize
    say (goodbye caller_text) hangup

  -- the `switch` on the phase
  abbrev pub turn_in : Option Phase → Call Num → CallState → Option Text → Exec Num TurnResult
  turn_in (some consent) c state caller_text = consent_turn caller_text
  turn_in (some questions) c state caller_text = questions_turn c state caller_text
  turn_in (some confirm) c state caller_text = confirm_turn c state caller_text
  turn_in (some correction) c state caller_text = correction_turn c caller_text
  turn_in (some email_consent) c state caller_text = email_consent_turn state caller_text
  turn_in _ c state caller_text = say (lit "Vielen Dank und auf Wiederhören." ∷ []) hangup

  -- `handleTurn`
  unfoldable pub handle_turn : Option Text → Exec Num TurnResult
  handle_turn caller_text = do
    call ← gets (λ w. w.call)
    when (not (is_empty (trim (spoken caller_text))))
        (log_message caller (txt (trim (spoken caller_text)) ∷ []))
    turn_in (state_of call).phase call (state_of call) caller_text
