-- ===== src/Conversation/Gate.antt =====
-- The consent gate of `handleTurn` (apps/api/src/services/conversation.service.ts).
use ai_phone_plattform.Prelude.{
  ◌≡◌, refl, subst, ap, ◌∙◌, ◌⊎◌, Bool, true, false, Option, none, some, [], Text, Bool-cases, inl,
  inr, trim, is_empty, not, ◌&&◌, if◌then◌else◌,
}
use ai_phone_plattform.Js.{Js}
use ai_phone_plattform.Types.{Question}
use ai_phone_plattform.Questionnaire.{AnswerMap}
use ai_phone_plattform.Questionnaire.Normalize.{Normalization, accepted, unclear}
use ai_phone_plattform.World.{
  World, Call, CallState, Env, Phase, consent, questions, confirm, correction, email_consent, done,
}
use ai_phone_plattform.Exec.{Exec}
use ai_phone_plattform.Exec.Fixes.{Fixes, Fixes-bind, Fixes-pure}
use ai_phone_plattform.Conversation.{
  says_yes, says_no, TurnResult, is_silent, spoken, log_message, say, state_of,
}
use ai_phone_plattform.Conversation.Turn.{
  handle_turn, turn_in, consent_turn, questions_turn, answer_turn, take_answer, understand,
}
use ai_phone_plattform.Conversation.Frame.{
  kept, set_state-kept, say-kept, store_answer-consent, resolve-kept, start-kept, next-kept,
  confirm-kept, correction-kept, email_consent-kept,
}

abbrev pub IsBefore : Option Phase → Type 0
IsBefore none = Unit
IsBefore (some consent) = Unit
IsBefore (some _) = ⊥

-- Either the caller has consented, or the call waits for consent and holds no answer.
abbrev pub IsGated : {N : Type 0} → Call N → Type 0
IsGated c = (c.consent_given ≡ true) ⊎ (IsBefore (state_of c).phase × (c.answers ≡ []))

module _ {N A : Type 0} where
  consent_of : (m : Exec N A) → Fixes kept m → Fixes (λ w. w.call.consent_given) m
  consent_of m h = record { at = λ w. ap (λ k. k.0) (h.at w) }

module _ (js : Js) (env : Env js.Num) where
  open js use {Num}

  pub either :
      {A X : Type 0} (view : World Num → X) (b : Bool) (m n : Exec Num A)
      → Fixes view m
      → Fixes view n
      → Fixes view (if b then m else n)
  either view true m n h k = h
  either view false m n h k = k

  abbrev given : World Num → Bool
  given w = w.call.consent_given

  take-given :
      (s : CallState) (answers : AnswerMap Num) (q : Question Num) (t : Text)
      (r : Normalization Num)
      → Fixes given (take_answer js env s answers q t r)
  unfolding take_answer
  take-given s answers q t (accepted v) = record {
    at =
        (Fixes-bind given _ _ (store_answer-consent q v t)
          λ _. consent_of _ (next-kept js env _)).at;
  }
  take-given s answers q t (unclear again) = record {
    at =
        (either given _ _ _
          (Fixes-bind given _ _ (consent_of _ (set_state-kept _))
            (λ _. consent_of _ (next-kept js env _)))
          (Fixes-bind given _ _ (consent_of _ (set_state-kept _))
            (λ _. consent_of _ (say-kept _ _)))).at;
  }

  pub understand-kept : (q : Question Num) (t : Text) → Fixes kept (understand js env q t)
  unfolding understand
  understand-kept q t = record {
    at = (either kept _ _ _ (resolve-kept env t) (Fixes-pure kept _)).at;
  }

  answer-given :
      (s : CallState) (answers : AnswerMap Num) (q : Option (Question Num)) (t : Option Text)
      → Fixes given (answer_turn js env s answers q t)
  answer-given s answers none t = consent_of _ (next-kept js env answers)
  answer-given s answers (some q) t = either given _ _ _ (consent_of _ (next-kept js env answers)) (
      Fixes-bind given _ _ (consent_of _ (understand-kept q (spoken t)))
        (take-given s answers q (spoken t)))

  questions-given :
      (c : Call Num) (s : CallState) (t : Option Text) → Fixes given (questions_turn js env c s t)
  unfolding questions_turn
  questions-given c s t = record { at = (answer-given s _ _ t).at }

  consent-IsGated :
      (t : Option Text) (w : World Num) → IsGated w.call → IsGated (consent_turn js env t w).1.call
  unfolding consent_turn say log_message
  consent-IsGated t w g = elim (Bool-cases (is_silent t)) [
    | inl silent ↦ rw silent g
    | inr speaks ↦ elim (Bool-cases (says_no (spoken t) && not (says_yes (spoken t)))) [
      | inl refuses ↦ rw (speaks, refuses) g
      | inr open' ↦ elim (Bool-cases (says_yes (spoken t))) [
        | inl agreed ↦
            rw (speaks, open', agreed) (inl (ap (λ k. k.0) ((start-kept js env []).at _)))
        | inr unclear' ↦ rw (speaks, open', unclear') g
      ]
    ]
  ]

  given_of :
      (w : World Num) (p : Phase)
      → IsGated w.call
      → (state_of w.call).phase ≡ some p
      → ¬ IsBefore (some p)
      → w.call.consent_given ≡ true
  given_of w p (inl h) e out = h
  given_of w p (inr (before, _)) e out = absurd (out (subst IsBefore e before))

  IsGated-keep :
      (m : Exec Num TurnResult) (w : World Num)
      → Fixes given m
      → w.call.consent_given ≡ true
      → IsGated (m w).1.call
  IsGated-keep m w h e = inl (h.at w ∙ e)

  turn-IsGated :
      (p : Option Phase) (c : Call Num) (s : CallState) (t : Option Text) (w : World Num)
      → (state_of w.call).phase ≡ p
      → IsGated w.call
      → IsGated (turn_in js env p c s t w).1.call
  unfolding say log_message
  turn-IsGated (some consent) c s t w e g = consent-IsGated t w g
  turn-IsGated (some questions) c s t w e g =
      IsGated-keep _ w (questions-given c s t) (given_of w questions g e (λ b. b))
  turn-IsGated (some confirm) c s t w e g =
      IsGated-keep _ w (consent_of _ (confirm-kept js env c s t)) (given_of w confirm g e (λ b. b))
  turn-IsGated (some correction) c s t w e g =
      IsGated-keep _ w (consent_of _ (correction-kept js env c t))
        (given_of w correction g e (λ b. b))
  turn-IsGated (some email_consent) c s t w e g =
      IsGated-keep _ w (consent_of _ (email_consent-kept js env s t))
        (given_of w email_consent g e (λ b. b))
  turn-IsGated (some done) c s t w e g = g
  turn-IsGated none c s t w e g = g

  -- A turn keeps the gate: beyond the consent phase, and as soon as an answer is stored, the caller has consented.
  pub handle_turn-IsGated :
      (t : Option Text) (w : World Num) → IsGated w.call → IsGated (handle_turn js env t w).1.call
  unfolding handle_turn log_message
  handle_turn-IsGated t w g = elim (Bool-cases (not (is_empty (trim (spoken t))))) [
    | inl speaks ↦
        rw speaks (turn-IsGated (state_of w.call).phase w.call (state_of w.call) t _ refl g)
    | inr silent ↦
        rw silent (turn-IsGated (state_of w.call).phase w.call (state_of w.call) t w refl g)
  ]
