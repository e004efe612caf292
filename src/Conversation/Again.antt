-- ===== src/Conversation/Again.antt =====
-- What `handleTurn` (apps/api/src/services/conversation.service.ts) does when it gives up on a question.
use ai_phone_plattform.Prelude.{
  ◌≡◌, refl, ◌≤◌, true, false, Option, some, Text, arith, Bool-cases, inl, inr, trim, is_empty, not,
  leb, ◌+◌,
}
use ai_phone_plattform.Js.{Js}
use ai_phone_plattform.Types.{Question, Say, datetime}
use ai_phone_plattform.Questionnaire.{next_question}
use ai_phone_plattform.Questionnaire.Normalize.{unclear, normalize_answer}
use ai_phone_plattform.World.{World, Call, Env, questions}
use ai_phone_plattform.Exec.{Outcome, ok}
use ai_phone_plattform.Summary.{type_eq}
use ai_phone_plattform.Conversation.{
  gather, TurnResult, state_of, log_message, set_state, say, build_answer_map, pending_question,
  in_phase,
}
use ai_phone_plattform.Conversation.Turn.{
  handle_turn, questions_turn, take_answer, understand, next_turn, phrase_question,
}

module _ (js : Js) (env : Env js.Num) where
  open js use {Num}

  -- The turn asks the question and waits for its answer.
  pub record Asks (q : Question Num) (r : Outcome TurnResult × World Num) : Type 0 where
    pub says : r.0 ≡ ok (record { say = phrase_question js q; action = gather })
    pub waits : r.1.call.state ≡ some (in_phase questions (some q.key))

  -- The pending question is the one that is next, and the caller's words are no answer to it.
  pub record IsMissed (c : Call Num) (q : Question Num) (t : Text) : Type 0 where
    pub phase : (state_of c).phase ≡ some questions
    pub pending :
        pending_question env.assistant.questions (state_of c).pending_question_key ≡ some q
    pub next : next_question js env.assistant.questions (build_answer_map c.answers) ≡ some q
    pub plain : type_eq q.type datetime ≡ false
    pub speaks : is_empty t ≡ false
    pub again : Option Say
    pub missed : normalize_answer js q t ≡ unclear again

  missed-Asks :
      (c : Call Num) (q : Question Num) (t : Text) (w : World Num)
      → IsMissed c q t
      → 2 ≤ (state_of c).clarify_count
      → Asks q (questions_turn js env c (state_of c) (some t) w)
  unfolding questions_turn understand take_answer next_turn set_state say log_message
  missed-Asks c q t w m n =
      let gives_up : leb 3 ((state_of c).clarify_count + 1) ≡ true = ground arith in
      rw (m.pending, m.speaks, m.plain, m.missed, gives_up, m.next)
        (record { says = refl; waits = refl })

  -- When the caller misses, for the third time or more, the question that is next, the turn gives
  -- up on it and asks the same question again.
  pub handle_turn-Asks :
      (q : Question Num) (t : Text) (w : World Num)
      → IsMissed w.call q t
      → 2 ≤ (state_of w.call).clarify_count
      → Asks q (handle_turn js env (some t) w)
  unfolding handle_turn log_message
  handle_turn-Asks q t w m n = elim (Bool-cases (not (is_empty (trim t)))) [
    | inl speaks ↦ rw (speaks, m.phase) (missed-Asks w.call q t _ m n)
    | inr silent ↦ rw (silent, m.phase) (missed-Asks w.call q t w m n)
  ]
