-- ===== src/Realtime/Validate.antt =====
-- apps/api/src/realtime/answer-validate.ts: the value that the language model passes to the
-- `save_answer` tool is checked against the type of its question.
use ai_phone_plattform.Prelude.{
  Bool, true, false, ◌&&◌, ◌||◌, none, some, List, [], ◌∷◌, Text, text_eq, codes, trim, is_empty,
  find, or_else, leb, is_mail, dial_chars, digit_count, if◌then◌else◌,
}
use ai_phone_plattform.Js
use ai_phone_plattform.Js.{Js, Value, bool, num, str, undefined, null, object}
use ai_phone_plattform.Types.{
  QuestionType, free_text, yes_no, multiple_choice, scale, datetime, phone, email, budget, urgency,
  QuestionOption, Question, Say, lit, txt, join_comma,
}
use ai_phone_plattform.Questionnaire.Normalize.{scale_low, scale_high}

pub data Validation (N : Type 0) : Type 0 where
  -- `ok: true` with a value, and `ok: false` with a reason
  valid : Value N → Validation N
  invalid : Say → Validation N

abbrev values : List QuestionOption → List Text
values [] = []
values (o ∷ os) = o.value ∷ values os

module _ (js : Js) where
  open js use {Num, of_nat, le, is_finite, show, to_lower}

  abbrev pub is_word_value : Value Num → Text → Bool
  is_word_value value w = Js.strict_eq js value (str w)

  -- `typeof value === 'boolean'`
  abbrev pub checked_yes_no : Value Num → Validation Num
  checked_yes_no (bool b) = valid (bool b)
  checked_yes_no value =
      if is_word_value value (codes "ja")
        || is_word_value value (codes "yes")
        || is_word_value value (codes "true")
      then valid (bool true)
      else if is_word_value value (codes "nein")
          || is_word_value value (codes "no")
          || is_word_value value (codes "false")
      then valid (bool false)
      else invalid (lit "yes_no erwartet true/false" ∷ [])

  abbrev pub checked_range : Num → Num → Say → Num → Validation Num
  checked_range low high reason n =
      if is_finite n && (le low n && le n high) then valid (num n) else invalid reason

  abbrev pub checked_text : Text → Say → Validation Num
  checked_text s reason = if is_empty s then invalid reason else valid (str s)

  abbrev pub checked_mail : Text → Validation Num
  checked_mail s = if is_mail s then valid (str s) else invalid (lit "ungültige E-Mail" ∷ [])

  abbrev pub checked_phone : Text → Validation Num
  checked_phone digits =
      if leb 7 (digit_count digits)
      then valid (str digits)
      else invalid (lit "ungültige Telefonnummer" ∷ [])

  abbrev pub is_option : Text → QuestionOption → Bool
  is_option s o = text_eq (to_lower o.value) s || text_eq (to_lower o.label) s

  abbrev pub checked_choice : List QuestionOption → Text → Validation Num
  checked_choice options s = elim (find (is_option s) options) [
    | some o ↦ valid (str o.value)
    | none ↦ invalid (lit "erwartet eine der Optionen: " ∷ join_comma (values options))
  ]

  -- `typeof value === 'number' && Number.isFinite(value)`, and else the text
  abbrev pub checked_budget : Value Num → Validation Num
  checked_budget (num n) =
      if is_finite n
      then valid (num n)
      else checked_text (trim (Js.to_text js (num n))) (lit "leerer Budget-Wert" ∷ [])
  checked_budget value =
      checked_text (trim (Js.to_text js (Js.or_empty js value))) (lit "leerer Budget-Wert" ∷ [])

  unfoldable pub check_typed : QuestionType → Question Num → Value Num → Validation Num
  check_typed yes_no q value = checked_yes_no value
  check_typed scale q value =
      checked_range (scale_low js q) (scale_high js q)
        (lit "scale erwartet Zahl "
          ∷ txt (show (scale_low js q))
          ∷ lit "–"
          ∷ txt (show (scale_high js q))
          ∷ [])
        (Js.to_num js value)
  check_typed email q value = checked_mail (to_lower (trim (Js.to_text js (Js.or_empty js value))))
  check_typed phone q value = checked_phone (dial_chars (Js.to_text js (Js.or_empty js value)))
  check_typed multiple_choice q value =
      checked_choice (or_else q.options []) (to_lower (Js.to_text js (Js.or_empty js value)))
  check_typed urgency q value =
      checked_range (of_nat 0) (of_nat 1) (lit "urgency erwartet Zahl 0–1" ∷ [])
        (Js.to_num js value)
  check_typed budget q value = checked_budget value
  check_typed datetime q value =
      checked_text (trim (Js.to_text js (Js.or_empty js value))) (lit "leerer Wert" ∷ [])
  check_typed free_text q value =
      checked_text (trim (Js.to_text js (Js.or_empty js value))) (lit "leerer Wert" ∷ [])

  unfoldable pub validate_answer_value : Question Num → Value Num → Validation Num
  unfolding check_typed
  validate_answer_value q value = check_typed q.type q value
