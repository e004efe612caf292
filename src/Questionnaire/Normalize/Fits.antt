-- ===== src/Questionnaire/Normalize/Fits.antt =====
-- What the value stored for a question may be: the type that the question promises.
use mathlib.Core.List.{Memᴰ}
use ai_phone_plattform.Prelude.{
  ◌≤◌, ◌≡◌, true, false, List, [], all, or_else, is_empty, is_mail, is_dial_char, digit_count,
}
use ai_phone_plattform.Js.{Js, Value, bool, num, str}
use ai_phone_plattform.Types.{
  QuestionType, free_text, yes_no, multiple_choice, scale, datetime, phone, email, budget, urgency,
  QuestionOption, Question,
}
use ai_phone_plattform.Questionnaire.Normalize.{scale_low, scale_high}

module _ (js : Js) where
  open js use {Num, of_nat, le}

  abbrev pub IsBool : Value Num → Type 0
  IsBool (bool b) = Unit
  IsBool _ = ⊥

  abbrev pub IsMail : Value Num → Type 0
  IsMail (str s) = is_mail s ≡ true
  IsMail _ = ⊥

  -- only digits and plus signs, at least seven of them digits
  abbrev pub IsPhone : Value Num → Type 0
  IsPhone (str s) = (all is_dial_char s ≡ true) × (7 ≤ digit_count s)
  IsPhone _ = ⊥

  abbrev pub IsBetween : Num → Num → Value Num → Type 0
  IsBetween low high (num n) = (le low n ≡ true) × (le n high ≡ true)
  IsBetween low high _ = ⊥

  abbrev pub IsChoice : List QuestionOption → Value Num → Type 0
  IsChoice options (str s) = (o : QuestionOption) × Memᴰ o options × (o.value ≡ s)
  IsChoice options _ = ⊥

  abbrev pub IsText : Value Num → Type 0
  IsText (str s) = is_empty s ≡ false
  IsText _ = ⊥

  abbrev pub IsBudget : Value Num → Type 0
  IsBudget (num n) = Unit
  IsBudget v = IsText v

  abbrev pub FitsType : QuestionType → Question Num → Value Num → Type 0
  FitsType yes_no q v = IsBool v
  FitsType email q v = IsMail v
  FitsType phone q v = IsPhone v
  FitsType scale q v = IsBetween (scale_low js q) (scale_high js q) v
  FitsType urgency q v = IsBetween (of_nat 0) (of_nat 1) v
  FitsType budget q v = IsBudget v
  FitsType multiple_choice q v = IsChoice (or_else q.options []) v
  FitsType datetime q v = IsText v
  FitsType free_text q v = IsText v

  abbrev pub Fits : Question Num → Value Num → Type 0
  Fits q v = FitsType q.type q v
