-- ===== src/Tests/Agent.antt =====
-- The realtime agent, on the sample rows.
use ai_phone_plattform.Prelude.{
  ℕ, refl, inr, false, none, [], ◌∷◌, Text, codes, text_eq, trim, is_mail, if◌then◌else◌,
}
use ai_phone_plattform.Js.{Value, str}
use ai_phone_plattform.Js.Sample.{sample}
use ai_phone_plattform.World.{Call, consent}
use ai_phone_plattform.Conversation.Stored.{IsStored}
use ai_phone_plattform.Questionnaire.Normalize.Fits.{Fits}
use ai_phone_plattform.Realtime.Validate.{validate_answer_value}
use ai_phone_plattform.Realtime.Checked.{validate_answer_value-Fits}
use ai_phone_plattform.Realtime.Agent.{AgentConfig, Runtime, Session, finished, fields}
use ai_phone_plattform.Realtime.Agent.Turn.{on_caller_text}
use ai_phone_plattform.Realtime.Agent.Events.{new_session, IsReached, start, heard}
use ai_phone_plattform.Realtime.Agent.Safety.{IsReached-IsStored}
use ai_phone_plattform.Realtime.Agent.Consent.{IsAllowed, IsReached-IsAllowed}
use ai_phone_plattform.Tests.{mail_question, two_questions, fresh_state, call_in}

abbrev cfg : AgentConfig ℕ
cfg = record {
  system_prompt = codes "Du bist ein Assistent.";
  questions = two_questions;
  consent_given = false;
  max_turns = none;
}

abbrev call : Call ℕ
call = call_in (fresh_state consent none 0) false

-- the arguments of `save_answer` for the mail address
abbrev arguments_of : Text → Value ℕ
arguments_of name = if text_eq name (codes "key") then str (codes "mail") else str (codes "a@b.de")

-- a model that saves an answer at once
abbrev llm : Runtime ℕ
llm = record {
  now = 0;
  complete = λ history. (
    codes "Danke" ∷ [],
    finished (record {
      text = codes "Danke";
      tool_calls = record { id = codes "t1"; name = codes "save_answer"; arguments = [] } ∷ [];
      usage = (100, 10);
    }),
  );
  parse = λ text. fields arguments_of;
}

abbrev agreed : Session ℕ
agreed = (on_caller_text sample cfg llm (codes "ja") (new_session cfg call)).1

agreed-IsReached : IsReached sample cfg call agreed
agreed-IsReached = heard llm (codes "ja") start

IsReached-IsAllowed_example : IsAllowed sample cfg agreed
IsReached-IsAllowed_example =
    IsReached-IsAllowed sample cfg call (inr (refl, refl)) agreed-IsReached

IsReached-IsStored_example : IsStored sample two_questions agreed.call
IsReached-IsStored_example = IsReached-IsStored sample cfg call tt agreed-IsReached

validate_answer_value-Fits_example : Fits sample mail_question (str (codes "a@b.de"))
unfolding validate_answer_value trim is_mail
validate_answer_value-Fits_example =
    validate_answer_value-Fits sample mail_question (str (codes " a@b.de ")) (str (codes "a@b.de"))
      refl
