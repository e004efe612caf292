-- ===== src/Realtime/Checked.antt =====
-- The values that apps/api/src/realtime/answer-validate.ts lets through.
use ai_phone_plattform.Prelude.{
  ◌≡◌, refl, inl, inr, subst, arith, Text, Option-cases, find, find-All, All-own, List, dial_chars,
  is_dial_char, all-keep,
}
use mathlib.Core.List.{Memᴰ}
use ai_phone_plattform.Js.{Js, Value, bool, num, str}
use ai_phone_plattform.Types.{
  QuestionType, free_text, yes_no, multiple_choice, scale, datetime, phone, email, budget, urgency,
  QuestionOption, Question, Say,
}
use ai_phone_plattform.Questionnaire.Normalize.Fits.{
  IsBool, IsMail, IsPhone, IsBetween, IsChoice, IsText, IsBudget, FitsType, Fits,
}
use ai_phone_plattform.Realtime.Validate.{
  valid, check_typed, validate_answer_value, checked_yes_no, checked_choice, is_option,
  checked_range, checked_budget, checked_phone, checked_mail, checked_text,
}

module _ (js : Js) where
  open js use {Num, le}

  text-Fits : (s : Text) (r : Say) {v : Value Num} → checked_text js s r ≡ valid v → IsText js v
  text-Fits s r {v} e = ground arith

  range-Fits :
      (low high n : Num) (r : Say) {v : Value Num}
      → checked_range js low high r n ≡ valid v
      → IsBetween js low high v
  range-Fits low high n r {v} e = ground arith

  IsPhone-Fits :
      (s : Text) {v : Value Num} → checked_phone js (dial_chars s) ≡ valid v → IsPhone js v
  unfolding dial_chars
  IsPhone-Fits s {v} e = ground (arith, all-keep is_dial_char s)

  IsMail-Fits : (s : Text) {v : Value Num} → checked_mail js s ≡ valid v → IsMail js v
  IsMail-Fits s {v} e = ground arith

  yes_no-Fits :
      (value : Value Num) {v : Value Num} → checked_yes_no js value ≡ valid v → IsBool js v
  yes_no-Fits (bool b) {v} e = ground arith
  yes_no-Fits _ {v} e = ground arith

  IsBudget-Fits :
      (value : Value Num) {v : Value Num} → checked_budget js value ≡ valid v → IsBudget js v
  IsBudget-Fits (num n) {v} e = ground arith
  IsBudget-Fits _ {v} e = ground arith

  IsChoice-Fits :
      (options : List QuestionOption) (s : Text) {v : Value Num}
      → checked_choice js options s ≡ valid v
      → IsChoice js options v
  IsChoice-Fits options s {v} e = elim (Option-cases (find (is_option js s) options)) [
    | inl none' ↦ ground arith
    | inr (o, found) ↦
        let listed =
          find-All (is_option js s) (λ r. Memᴰ r options) options (All-own options) found in
        let same : str o.value ≡ v = ground arith in
        subst (IsChoice js options) same (o, listed, refl)
  ]

  typed-Fits :
      (t : QuestionType) (q : Question Num) (value : Value Num) {v : Value Num}
      → check_typed js t q value ≡ valid v
      → FitsType js t q v
  unfolding check_typed
  typed-Fits yes_no q value e = yes_no-Fits value e
  typed-Fits scale q value e = range-Fits _ _ _ _ e
  typed-Fits email q value e = IsMail-Fits _ e
  typed-Fits phone q value e = IsPhone-Fits _ e
  typed-Fits multiple_choice q value e = IsChoice-Fits _ _ e
  typed-Fits urgency q value e = range-Fits _ _ _ _ e
  typed-Fits budget q value e = IsBudget-Fits value e
  typed-Fits datetime q value {v} e = text-Fits _ _ e
  typed-Fits free_text q value {v} e = text-Fits _ _ e

  -- Whatever the language model passes, a value that the validator lets through fits the type of
  -- its question, by the same predicate as in the turn-based flow.
  pub validate_answer_value-Fits :
      (q : Question Num) (value v : Value Num)
      → validate_answer_value js q value ≡ valid v
      → Fits js q v
  unfolding validate_answer_value
  validate_answer_value-Fits q value v e = typed-Fits q.type q value e
