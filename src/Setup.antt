-- ===== src/Setup.antt =====
-- The questionnaires and assistants of all tenants: apps/api/src/routes/questionnaires.ts,
-- apps/api/src/routes/assistants.ts and apps/api/src/lib/starter-content.ts. A body is refused by its
-- schema with a bad request.
pub mod Owned
pub mod Starter
use ai_phone_plattform.Prelude.{
  ℕ, suc, ◌+◌, Bool, true, false, not, ◌&&◌, Option, none, some, List, [], ◌∷◌, ◌++◌, String, Text,
  codes, find, any, keep, ◌==◌, or_else, if◌then◌else◌,
}
use ai_phone_plattform.Js
use ai_phone_plattform.Js.{Js, bool}
use ai_phone_plattform.Types.{
  Question, QuestionType, free_text, yes_no, phone, email, QuestionCondition, equals,
}
use ai_phone_plattform.Schemas.{between, valid_questionnaire}
use ai_phone_plattform.Access.{
  RequestAuth, bad_request, not_found, Reply, sent, failed_with, require_capability, guarded,
}

pub record QuestionnaireRow (N : Type 0) : Type 0 where
  pub id : ℕ
  pub tenant_id : ℕ
  pub name : Text
  pub version : ℕ
  pub questions : List (Question N)

pub record AssistantSettings : Type 0 where
  pub name : Text
  pub greeting_text : Text
  pub consent_text : Text
  pub system_prompt : Text
  pub voice : Text
  pub is_german : Bool
  pub record_audio : Bool

pub record AssistantRow : Type 0 where
  pub id : ℕ
  pub tenant_id : ℕ
  pub settings : AssistantSettings
  pub questionnaire_id : Option ℕ

pub record Setup (N : Type 0) : Type 0 where
  pub questionnaires : List (QuestionnaireRow N)
  pub assistants : List AssistantRow
  pub next_id : ℕ
  pub audits : List String

-- `upsertQuestionnaireSchema` and `upsertAssistantSchema`
pub record QuestionnaireBody (N : Type 0) : Type 0 where
  pub name : Text
  pub questions : List (Question N)

pub record AssistantBody : Type 0 where
  pub settings : AssistantSettings
  pub questionnaire_id : Option ℕ

-- `upsertAssistantSchema.partial()`: a field that is given replaces the old one
pub record AssistantPatch : Type 0 where
  pub apply : AssistantSettings → AssistantSettings
  -- undefined, or an id or null
  pub questionnaire_id : Option (Option ℕ)

module _ (js : Js) where
  open js use {Num}

  abbrev audit : String → Setup Num → Setup Num
  audit action s = record s { audits = s.audits ++ action ∷ [] }

  abbrev pub is_own_questionnaire : ℕ → ℕ → QuestionnaireRow Num → Bool
  is_own_questionnaire tenant id q = q.id == id && q.tenant_id == tenant

  -- `assertOwnedQuestionnaire`, if an id is given
  abbrev pub owns : Setup Num → ℕ → Option ℕ → Bool
  owns s tenant none = true
  owns s tenant (some id) = any (is_own_questionnaire tenant id) s.questionnaires

  abbrev pub added_questionnaire : ℕ → QuestionnaireBody Num → Setup Num → ℕ × Setup Num
  added_questionnaire tenant body s = (
    s.next_id,
    record s {
      questionnaires =
          s.questionnaires
          ++ record {
            id = s.next_id;
            tenant_id = tenant;
            name = body.name;
            version = 1;
            questions = body.questions;
          }
            ∷ [];
      next_id = suc s.next_id;
    },
  )

  abbrev pub created_questionnaire :
      QuestionnaireBody Num → RequestAuth → Setup Num → Reply ℕ × Setup Num
  created_questionnaire body auth s =
      if valid_questionnaire js body.name body.questions
      then (let (id, s') = added_questionnaire auth.tenant_id body s in
          (sent id, audit "questionnaire.create" s'))
      else (failed_with bad_request, s)

  -- `POST /questionnaires`
  unfoldable pub create_questionnaire :
      Option RequestAuth → QuestionnaireBody Num → Setup Num → Reply ℕ × Setup Num
  create_questionnaire auth body s =
      guarded (created_questionnaire body) (require_capability (codes "questionnaire:write") auth) s

  abbrev replaced_row : QuestionnaireBody Num → QuestionnaireRow Num → QuestionnaireRow Num
  replaced_row body q = record q {
    name = body.name;
    version = q.version + 1;
    questions = body.questions;
  }

  -- the transaction that replaces the questions
  unfoldable pub replace_questions :
      ℕ → QuestionnaireBody Num → List (QuestionnaireRow Num) → List (QuestionnaireRow Num)
  replace_questions id body [] = []
  replace_questions id body (q ∷ qs) =
      let rest = replace_questions id body qs in
      if q.id == id then replaced_row body q ∷ rest else q ∷ rest

  abbrev pub updated_questionnaire :
      ℕ → QuestionnaireBody Num → RequestAuth → Setup Num → Reply (Unit {0}) × Setup Num
  updated_questionnaire id body auth s =
      if not (valid_questionnaire js body.name body.questions)
      then (failed_with bad_request, s)
      else if any (is_own_questionnaire auth.tenant_id id) s.questionnaires
      then (
        sent tt,
        audit "questionnaire.update"
            (record s { questionnaires = replace_questions id body s.questionnaires }),
      )
      else (failed_with not_found, s)

  -- `PUT /questionnaires/:id`
  unfoldable pub update_questionnaire :
      Option RequestAuth → ℕ → QuestionnaireBody Num → Setup Num → Reply (Unit {0}) × Setup Num
  update_questionnaire auth id body s =
      guarded (updated_questionnaire id body)
        (require_capability (codes "questionnaire:write") auth) s

  -- `upsertAssistantSchema`
  abbrev pub valid_settings : AssistantSettings → Bool
  valid_settings a =
      between 1 120 a.name
      && between 1 2000 a.greeting_text
      && between 1 2000 a.consent_text
      && between 1 20000 a.system_prompt
      && between 1 60 a.voice

  abbrev pub added_assistant : ℕ → AssistantBody → Setup Num → ℕ × Setup Num
  added_assistant tenant body s = (
    s.next_id,
    record s {
      assistants =
          s.assistants
          ++ record {
            id = s.next_id;
            tenant_id = tenant;
            settings = body.settings;
            questionnaire_id = body.questionnaire_id;
          }
            ∷ [];
      next_id = suc s.next_id;
    },
  )

  abbrev pub created_assistant : AssistantBody → RequestAuth → Setup Num → Reply ℕ × Setup Num
  created_assistant body auth s =
      if not (valid_settings body.settings)
      then (failed_with bad_request, s)
      else if owns s auth.tenant_id body.questionnaire_id
      then (let (id, s') = added_assistant auth.tenant_id body s in
          (sent id, audit "assistant.create" s'))
      else (failed_with not_found, s)

  -- `POST /assistants`
  unfoldable pub create_assistant :
      Option RequestAuth → AssistantBody → Setup Num → Reply ℕ × Setup Num
  create_assistant auth body s =
      guarded (created_assistant body) (require_capability (codes "tenant:write") auth) s

  abbrev pub patched : AssistantPatch → AssistantRow → AssistantRow
  patched p a = record a {
    settings = p.apply a.settings;
    questionnaire_id = or_else p.questionnaire_id a.questionnaire_id;
  }

  unfoldable pub patch_assistants : ℕ → AssistantPatch → List AssistantRow → List AssistantRow
  patch_assistants id p [] = []
  patch_assistants id p (a ∷ rows) =
      let rest = patch_assistants id p rows in if a.id == id then patched p a ∷ rest else a ∷ rest

  abbrev pub is_own_assistant : ℕ → ℕ → AssistantRow → Bool
  is_own_assistant tenant id a = a.id == id && a.tenant_id == tenant

  abbrev pub updated_assistant :
      ℕ → AssistantPatch → RequestAuth → Setup Num → Reply (Unit {0}) × Setup Num
  updated_assistant id p auth s =
      if not (any (is_own_assistant auth.tenant_id id) s.assistants)
      then (failed_with not_found, s)
      else if owns s auth.tenant_id (or_else p.questionnaire_id none)
      then (
        sent tt,
        audit "assistant.update" (record s { assistants = patch_assistants id p s.assistants }),
      )
      else (failed_with not_found, s)

  -- `PUT /assistants/:id`, with a body that its schema accepts
  unfoldable pub update_assistant :
      Option RequestAuth → ℕ → AssistantPatch → Setup Num → Reply (Unit {0}) × Setup Num
  update_assistant auth id p s =
      guarded (updated_assistant id p) (require_capability (codes "tenant:write") auth) s
