-- ===== src/Setup/Starter.antt =====
-- apps/api/src/lib/starter-content.ts: the questionnaire and the assistant of a new tenant.
use ai_phone_plattform.Prelude.{
  ℕ, Bool, true, false, none, some, List, [], ◌∷◌, ◌≡◌, refl, String, Text, codes,
}
use ai_phone_plattform.Js.{Js, bool}
use ai_phone_plattform.Types.{
  Question, QuestionType, free_text, yes_no, phone, email, QuestionCondition, equals,
}
use ai_phone_plattform.Schemas.{valid_questionnaire, valid_question, unique_keys}
use ai_phone_plattform.Setup.{
  Setup, AssistantSettings, QuestionnaireBody, AssistantBody, added_questionnaire, added_assistant,
}

module _ (js : Js) (system_prompt : Text) where
  open js use {Num}

  abbrev question : String → String → QuestionType → Bool → ℕ → Question Num
  question key prompt type required order = record {
    key = codes key;
    prompt = codes prompt;
    type = type;
    required = required;
    order = order;
    options = none;
    scale_min = none;
    scale_max = none;
    condition = none;
  }

  abbrev if_urgent : QuestionCondition Num
  if_urgent = record { question_key = codes "is_urgent"; operator = equals; value = bool true }

  abbrev pub starter_questions : List (Question Num)
  starter_questions =
      question "caller_name" "Wie ist Ihr Name?" free_text true 1
      ∷ question "anliegen" "Worum geht es bei Ihrem Anliegen?" free_text true 2
      ∷ question "is_urgent" "Ist Ihr Anliegen dringend?" yes_no true 3
      ∷ record (question "callback_time" "Wann dürfen wir Sie am besten zurückrufen?" free_text
          false 4) { condition = some if_urgent }
      ∷ question "caller_phone" "Unter welcher Telefonnummer erreichen wir Sie?" phone true 5
      ∷ question "caller_email" "Wie lautet Ihre E-Mail-Adresse?" email false 6
      ∷ []

  abbrev starter_settings : AssistantSettings
  starter_settings = record {
    name = codes "Telefonassistent";
    greeting_text = codes "Guten Tag, hier ist der digitale Telefonassistent.";
    consent_text =
        codes
          "Hinweis: Dieses Gespräch wird von einem KI-Assistenten geführt und zur Bearbeitung Ihres Anliegens transkribiert. Sind Sie damit einverstanden?";
    system_prompt = system_prompt;
    voice = codes "alloy";
    is_german = true;
    record_audio = false;
  }

  abbrev pub starter_body : QuestionnaireBody Num
  starter_body = record { name = codes "Standard-Erstkontakt"; questions = starter_questions }

  abbrev pub starter_assistant : ℕ → AssistantBody
  starter_assistant questionnaire = record {
    settings = starter_settings;
    questionnaire_id = some questionnaire;
  }

  abbrev with_assistant : ℕ → ℕ × Setup Num → (ℕ × ℕ) × Setup Num
  with_assistant tenant (questionnaire, s) =
      let (assistant, s') = added_assistant js tenant (starter_assistant questionnaire) s in
      ((assistant, questionnaire), s')

  -- `createStarterContent`
  unfoldable pub create_starter_content : ℕ → Setup Num → (ℕ × ℕ) × Setup Num
  create_starter_content tenant s =
      with_assistant tenant (added_questionnaire js tenant starter_body s)

  -- The starter questionnaire is one that the schema of the API accepts.
  pub starter_questions-valid :
      valid_questionnaire js (codes "Standard-Erstkontakt") starter_questions ≡ true
  unfolding valid_questionnaire valid_question unique_keys
  starter_questions-valid = refl
