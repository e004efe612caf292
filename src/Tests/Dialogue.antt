-- ===== src/Tests/Dialogue.antt =====
-- The questionnaire, the turn-based conversation and the end of a call, on the sample rows.
use ai_phone_plattform.Prelude.{ℕ, ◌≡◌, refl, inr, true, some, [], codes, trim, find_mail}
use ai_phone_plattform.Js.{str}
use ai_phone_plattform.Js.Sample.{sample, sample-Laws}
use ai_phone_plattform.Questionnaire.{
  next_question, is_inherited, is_question_active, sort_by_order, insert_by_order,
}
use ai_phone_plattform.Questionnaire.Next.{IsNext, next_question-IsNext}
use ai_phone_plattform.Questionnaire.Normalize.{normalize_answer}
use ai_phone_plattform.Questionnaire.Normalize.Fits.{Fits}
use ai_phone_plattform.Questionnaire.Normalize.Laws.{normalize_answer-Fits}
use ai_phone_plattform.World.{World, questions, consent}
use ai_phone_plattform.Conversation.Turn.{handle_turn}
use ai_phone_plattform.Conversation.Gate.{IsGated, handle_turn-IsGated}
use ai_phone_plattform.Conversation.Stored.{IsStored, handle_turn-IsStored}
use ai_phone_plattform.Conversation.Ends.{IsAnswered, handle_turn-IsAnswered}
use ai_phone_plattform.Summary.{finalize_call}
use ai_phone_plattform.Summary.MailConsent.{caller_mails, finalize_call-eq-mails}
use ai_phone_plattform.Tests.{
  name_question, mail_question, two_questions, mail_known, fresh_state, call_in, world_of,
  new_world, env,
}

next_question-IsNext_example : IsNext sample two_questions mail_known name_question
unfolding next_question is_inherited sort_by_order insert_by_order is_question_active
next_question-IsNext_example =
    next_question-IsNext sample two_questions mail_known name_question (refl, (refl, tt)) (refl, tt)
      refl

normalize_answer-Fits_example : Fits sample mail_question (str (codes "a@b.de"))
unfolding normalize_answer trim find_mail
normalize_answer-Fits_example =
    normalize_answer-Fits sample sample-Laws mail_question (codes "eva a@b.de")
      (str (codes "a@b.de")) refl

handle_turn-IsGated_example : IsGated (handle_turn sample env (some (codes "ja")) new_world).1.call
handle_turn-IsGated_example =
    handle_turn-IsGated sample env (some (codes "ja")) new_world (inr (tt, refl))

abbrev waiting : ℕ → World ℕ
waiting count = world_of (call_in (fresh_state questions (some (codes "mail")) count) true)

handle_turn-IsStored_example :
    IsStored sample two_questions
      (handle_turn sample env (some (codes "a@b.de")) (waiting 0)).1.call
handle_turn-IsStored_example =
    handle_turn-IsStored sample sample-Laws env (λ t. refl) (some (codes "a@b.de")) (waiting 0) tt

handle_turn-IsAnswered_example :
    IsAnswered (some consent) (handle_turn sample env (some (codes "nein")) new_world)
handle_turn-IsAnswered_example =
    handle_turn-IsAnswered sample env (some (codes "nein")) new_world refl

finalize_call-eq-mails_example : caller_mails (finalize_call sample env (waiting 0)).1 ≡ []
finalize_call-eq-mails_example = finalize_call-eq-mails sample env (waiting 0) refl
