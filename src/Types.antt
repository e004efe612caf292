-- ===== src/Types.antt =====
-- packages/shared/src/types.ts and constants.ts: the data that the components share. An id is a
-- UUID that the program only compares; it is a number here. Question keys are texts.
use ai_phone_plattform.Prelude.{ℕ, Bool, Option, List, [], ◌∷◌, String, Text}
use ai_phone_plattform.Js.{Value}

pub data QuestionType : Type 0 where
  free_text yes_no multiple_choice scale datetime phone email budget urgency : QuestionType

pub data LeadCategory : Type 0 where
  lead_a lead_b lead_c : LeadCategory

pub data CallStatus : Type 0 where
  ringing consent_pending in_progress summarizing completed declined failed : CallStatus

pub data MessageRole : Type 0 where
  assistant caller system : MessageRole

pub data TelephonyProvider : Type 0 where
  twilio telnyx sip : TelephonyProvider

pub record QuestionOption : Type 0 where
  pub value : Text
  pub label : Text

pub data Operator : Type 0 where
  equals not_equals gte lte truthy : Operator

pub record QuestionCondition (N : Type 0) : Type 0 where
  pub question_key : Text
  pub operator : Operator
  pub value : Value N

pub record Question (N : Type 0) : Type 0 where
  pub key : Text
  pub prompt : Text
  pub type : QuestionType
  pub required : Bool
  pub order : ℕ
  pub options : Option (List QuestionOption)
  pub scale_min : Option N
  pub scale_max : Option N
  pub condition : Option (QuestionCondition N)

-- A template literal: the pieces that it joins, literal parts and inserted texts.
pub data Piece : Type 0 where
  lit : String → Piece
  txt : Text → Piece

abbrev pub Say : Type 0
Say = List Piece

-- `texts.join(', ')`
pub join_comma : List Text → Say
join_comma [] = []
join_comma (t ∷ []) = txt t ∷ []
join_comma (t ∷ ts) = txt t ∷ lit ", " ∷ join_comma ts
