-- ===== src/Conversation/Stored.antt =====
-- The answers that `handleTurn` (apps/api/src/services/conversation.service.ts) stores.
use ai_phone_plattform.Prelude.{
  ℕ, ◌≡◌, refl, sym, subst, ap, Bool, true, false, Option, none, some, List, [], ◌∷◌, Text, text_eq,
  text_eq_iff, arith, Bool-cases, Option-cases, inl, inr, trim, is_empty, not, ◌&&◌, find,
  find-eq-some, All, if◌then◌else◌,
}
use ai_phone_plattform.Js
use ai_phone_plattform.Js.{Js, Value, str}
use ai_phone_plattform.Types.{QuestionType, datetime, Question}
use ai_phone_plattform.Questionnaire.{AnswerMap}
use ai_phone_plattform.Questionnaire.Normalize.{Normalization, accepted, unclear, normalize_answer}
use ai_phone_plattform.Questionnaire.Normalize.Fits.{Fits, FitsType, IsText}
use ai_phone_plattform.Questionnaire.Normalize.Laws.{normalize_answer-Fits}
use ai_phone_plattform.World.{
  World, Call, CallState, CallAnswer, Env, Phase, consent, questions, confirm, correction,
  email_consent, done,
}
use ai_phone_plattform.Exec.{Exec, Outcome, ok, threw, continue}
use ai_phone_plattform.Exec.Fixes.{Fixes, Fixes-bind}
use ai_phone_plattform.Calendar.Booking.{check_availability}
use ai_phone_plattform.Summary.{type_eq}
use ai_phone_plattform.Conversation.{
  TurnResult, says_yes, says_no, is_silent, spoken, state_of, log_message, say, resolve_in_zone,
  resolve_datetime_answer, store_answer, upsert_answer, pending_question, build_answer_map,
}
use ai_phone_plattform.Conversation.Turn.{
  handle_turn, turn_in, consent_turn, questions_turn, answer_turn, take_answer, understand,
  is_datetime,
}
use ai_phone_plattform.Conversation.Frame.{
  kept, set_state-kept, say-kept, start-kept, next-kept, confirm-kept, correction-kept,
  email_consent-kept,
}
use ai_phone_plattform.Conversation.Gate.{understand-kept, either}

module _ (js : Js) where
  open js use {Num}

  abbrev pub question_of : List (Question Num) → Text → Option (Question Num)
  question_of qs key = find (λ q. text_eq q.key key) qs

  -- The value of an answer fits the question of its key.
  abbrev pub FitsKey : List (Question Num) → CallAnswer Num → Type 0
  FitsKey qs a = (q : Question Num) → question_of qs a.question_key ≡ some q → Fits js q a.value

  abbrev pub IsStored : List (Question Num) → Call Num → Type 0
  IsStored qs c = All (FitsKey qs) c.answers

  pub upsert-fit :
      (qs : List (Question Num)) (q : Question Num) (v : Value Num) (raw : Text)
      (answers : List (CallAnswer Num))
      → question_of qs q.key ≡ some q
      → Fits js q v
      → All (FitsKey qs) answers
      → All (FitsKey qs) (upsert_answer q v raw answers)
  unfolding upsert_answer
  upsert-fit qs q v raw [] found f h =
      (λ r e. let same : q ≡ r = ground arith in subst (λ x. Fits js x v) same f, tt)
  upsert-fit qs q v raw (a ∷ answers) found f h = elim (Bool-cases (text_eq a.question_key q.key)) [
    | inl this ↦
        let key : a.question_key ≡ q.key = (text_eq_iff _ _).0 this in
        rw this (
          λ r e.
              let same : q ≡ r = ground (arith, ap (question_of qs) key) in
              subst (λ x. Fits js x v) same f,
          h.1,
        )
    | inr other ↦ rw other (h.0, upsert-fit qs q v raw answers found f h.1)
  ]

  pub question_of-own :
      (qs : List (Question Num)) (key : Text) (r : Question Num)
      → question_of qs key ≡ some r
      → question_of qs r.key ≡ some r
  question_of-own qs key r e =
      let same : r.key ≡ key = (text_eq_iff _ _).0 (find-eq-some (λ q. text_eq q.key key) qs e) in
      subst (λ k. question_of qs k ≡ some r) (sym same) e

  pending-found :
      (qs : List (Question Num)) (key : Option Text) (r : Question Num)
      → pending_question qs key ≡ some r
      → question_of qs r.key ≡ some r
  pending-found qs none r e = absurd (ground arith)
  pending-found qs (some key) r e = question_of-own qs key r e

  type_eq-datetime : (t : QuestionType) → type_eq t datetime ≡ true → t ≡ datetime
  type_eq-datetime t h = ground arith

module _ (js : Js) (laws : Js.Laws js) (env : Env js.Num)
    (iso : (t : ℕ) → is_empty (env.to_iso t) ≡ false) where
  open js use {Num}

  abbrev Accepts : Question Num → Outcome (Normalization Num) × World Num → Type 0
  Accepts q r = (v : Value Num) → r.0 ≡ ok (accepted v) → Fits js q v

  datetime-fit :
      (q : Question Num) (v : Value Num)
      → q.type ≡ datetime
      → (t : ℕ) → v ≡ str (env.to_iso t)
      → Fits js q v
  datetime-fit q v d t e =
      subst (λ x. FitsType js x q v) (sym d) (subst (IsText js) (sym e) (iso t))

  in_zone-Accepts :
      (q : Question Num) (t : Text) (w : World Num)
      → q.type ≡ datetime
      → Accepts q (resolve_in_zone env t w)
  unfolding resolve_in_zone
  in_zone-Accepts q t w d v e = elim (Option-cases (env.resolve_datetime t)) [
    | inl unread ↦ absurd (ground (arith, rw (unread, resolve_in_zone) at e))
    | inr (start, read) ↦ elim (Bool-cases (check_availability env start w).0.available) [
      | inl free ↦
          let found = rw (read, free, resolve_in_zone) at e in
          let same : str (env.to_iso start) ≡ v = ground arith in
          datetime-fit q v d start (sym same)
      | inr taken ↦ absurd (ground (arith, rw (read, taken, resolve_in_zone) at e))
    ]
  ]

  -- An error accepts nothing.
  zoned-Accepts :
      (q : Question Num) (known : Bool) (r : Outcome (Normalization Num) × World Num)
      (w : World Num)
      → Accepts q r
      → Accepts q (if known then r else (threw, w))
  zoned-Accepts q true r w h = h
  zoned-Accepts q false r w h = λ v e. absurd (ground arith)

  resolve-Accepts :
      (q : Question Num) (t : Text) (w : World Num)
      → q.type ≡ datetime
      → Accepts q (resolve_datetime_answer env t w)
  unfolding resolve_datetime_answer
  resolve-Accepts q t w d =
      zoned-Accepts q env.knows_timezone (resolve_in_zone env t w) w (in_zone-Accepts q t w d)

  understand-Accepts :
      (q : Question Num) (t : Text) (w : World Num) → Accepts q (understand js env q t w)
  unfolding understand
  understand-Accepts q t w v e = elim (Bool-cases (is_datetime js env q)) [
    | inl date ↦ resolve-Accepts q t w (type_eq-datetime js q.type date) v (rw date at e)
    | inr other ↦
        let said = rw other at e in
        let same : normalize_answer js q t ≡ accepted v = ground arith in
        normalize_answer-Fits js laws q t v same
  ]

  abbrev Good : World Num → Type 0
  Good w = IsStored js env.assistant.questions w.call

  Good-kept : (m : Exec Num TurnResult) → Fixes kept m → (w : World Num) → Good w → Good (m w).1
  Good-kept m h w g =
      subst (All (FitsKey js env.assistant.questions)) (sym (ap (λ k. k.1) (h.at w))) g

  understand-Good :
      (q : Question Num) (t : Text) (w : World Num) → Good w → Good (understand js env q t w).1
  understand-Good q t w g =
      subst (All (FitsKey js env.assistant.questions))
        (sym (ap (λ k. k.1) ((understand-kept js env q t).at w))) g

  take-Good :
      (s : CallState) (answers : AnswerMap Num) (q : Question Num) (t : Text)
      (r : Outcome (Normalization Num) × World Num)
      → question_of js env.assistant.questions q.key ≡ some q
      → Accepts q r
      → Good r.1
      → Good (continue r (take_answer js env s answers q t)).1
  unfolding take_answer store_answer
  take-Good s answers q t (threw, w) found ok' g = g
  take-Good s answers q t (ok (accepted v), w) found ok' g =
      Good-kept _ (next-kept js env _) _ (upsert-fit js _ q v t w.call.answers found (ok' v refl) g)
  take-Good s answers q t (ok (unclear again), w) found ok' g =
      Good-kept _
        (either js env kept _ _ _ (Fixes-bind kept _ _ (set_state-kept _) (λ _. next-kept js env _))
          (Fixes-bind kept _ _ (set_state-kept _) (λ _. say-kept _ _)))
        w g

  answer-Good :
      (s : CallState) (answers : AnswerMap Num) (q : Option (Question Num)) (t : Option Text)
      (w : World Num)
      → ((r : Question Num) → q ≡ some r → question_of js env.assistant.questions r.key ≡ some r)
      → Good w
      → Good (answer_turn js env s answers q t w).1
  answer-Good s answers none t w found g = Good-kept _ (next-kept js env answers) w g
  answer-Good s answers (some q) t w found g = elim (Bool-cases (is_silent t)) [
    | inl silent ↦ rw silent (Good-kept _ (next-kept js env answers) w g)
    | inr speaks ↦ rw speaks (
        take-Good s answers q (spoken t) (understand js env q (spoken t) w) (found q refl)
          (understand-Accepts q (spoken t) w) (understand-Good q (spoken t) w g))
  ]

  consent-Good : (t : Option Text) (w : World Num) → Good w → Good (consent_turn js env t w).1
  unfolding consent_turn say log_message
  consent-Good t w g = elim (Bool-cases (is_silent t)) [
    | inl silent ↦ rw silent g
    | inr speaks ↦ elim (Bool-cases (says_no (spoken t) && not (says_yes (spoken t)))) [
      | inl refuses ↦ rw (speaks, refuses) g
      | inr open' ↦ elim (Bool-cases (says_yes (spoken t))) [
        | inl agreed ↦ rw (speaks, open', agreed) (Good-kept _ (start-kept js env []) _ g)
        | inr unclear' ↦ rw (speaks, open', unclear') g
      ]
    ]
  ]

  turn-Good :
      (p : Option Phase) (c : Call Num) (s : CallState) (t : Option Text) (w : World Num)
      → Good w
      → Good (turn_in js env p c s t w).1
  unfolding say log_message questions_turn
  turn-Good (some consent) c s t w g = consent-Good t w g
  turn-Good (some questions) c s t w g =
      answer-Good s (build_answer_map c.answers) _ t w
        (pending-found js env.assistant.questions s.pending_question_key) g
  turn-Good (some confirm) c s t w g = Good-kept _ (confirm-kept js env c s t) w g
  turn-Good (some correction) c s t w g = Good-kept _ (correction-kept js env c t) w g
  turn-Good (some email_consent) c s t w g = Good-kept _ (email_consent-kept js env s t) w g
  turn-Good (some done) c s t w g = g
  turn-Good none c s t w g = g

  -- A turn keeps every stored answer fit for the question of its key, if the ISO form of a time is
  -- not empty and numbers obey `Js.Laws`.
  pub handle_turn-IsStored :
      (t : Option Text) (w : World Num)
      → IsStored js env.assistant.questions w.call
      → IsStored js env.assistant.questions (handle_turn js env t w).1.call
  unfolding handle_turn log_message
  handle_turn-IsStored t w g = elim (Bool-cases (not (is_empty (trim (spoken t))))) [
    | inl speaks ↦ rw speaks (turn-Good (state_of w.call).phase w.call (state_of w.call) t _ g)
    | inr silent ↦ rw silent (turn-Good (state_of w.call).phase w.call (state_of w.call) t w g)
  ]
