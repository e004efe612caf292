-- ===== src/Questionnaire/Normalize/Laws.antt =====
-- The values that `normalizeAnswer` of packages/shared/src/questionnaire-engine.ts accepts.
use mathlib.Core.List.{Memᴰ}
use ai_phone_plattform.Prelude.{
  ℕ, ◌≤◌, ◌≡◌, inl, inr, true, false, some, [], Text, arith, trim, find, find-All, find_mail,
  find_mail-is_mail, find_number, is_empty, dial_chars, all-keep, is_dial_char, or_else, Bool-cases,
  Option-cases, All-own, refl, subst,
}
use ai_phone_plattform.Js
use ai_phone_plattform.Js.{Js, Value, bool, num, str}
use ai_phone_plattform.Js.Order.{clamp_bounds}
use ai_phone_plattform.Types.{
  QuestionType, free_text, yes_no, multiple_choice, scale, datetime, phone, email, budget, urgency,
  Question,
}
use ai_phone_plattform.Questionnaire.Normalize.{
  accepted, is_named, scale_low, scale_high, numeric_urgency, parse_urgency, normalize_yes_no,
  normalize_email, normalize_phone, normalize_scale, normalize_urgency, normalize_budget,
  normalize_choice, normalize_typed, normalize_answer,
}
use ai_phone_plattform.Questionnaire.Normalize.Fits.{
  IsBool, IsMail, IsPhone, IsBetween, IsChoice, IsText, IsBudget, FitsType, Fits,
}

module _ (js : Js) where
  open js use {Num, of_nat, le, to_lower}

  yes_no-Fits : (s : Text) {v : Value Num} → normalize_yes_no js s ≡ accepted v → IsBool js v
  unfolding normalize_yes_no
  yes_no-Fits s {v} e = ground arith

  IsPhone-Fits : (s : Text) {v : Value Num} → normalize_phone js s ≡ accepted v → IsPhone js v
  unfolding normalize_phone dial_chars
  IsPhone-Fits s {v} e = ground (arith, all-keep is_dial_char s)

  scale-Fits :
      (q : Question Num) (s : Text) {v : Value Num}
      → normalize_scale js q s ≡ accepted v
      → IsBetween js (scale_low js q) (scale_high js q) v
  unfolding normalize_scale
  scale-Fits q s {v} e = ground arith

  IsBudget-Fits :
      (s : Text) {v : Value Num}
      → is_empty s ≡ false
      → normalize_budget js s ≡ accepted v
      → IsBudget js v
  unfolding normalize_budget
  IsBudget-Fits s {v} h e = ground arith

  IsChoice-Fits :
      (q : Question Num) (s : Text) {v : Value Num}
      → normalize_choice js q s ≡ accepted v
      → IsChoice js (or_else q.options []) v
  unfolding normalize_choice
  IsChoice-Fits q s {v} e = elim (Option-cases (find (is_named js s) (or_else q.options []))) [
    | inl none' ↦ ground arith
    | inr (o, found) ↦
        let listed =
          find-All (is_named js s) (λ r. Memᴰ r (or_else q.options [])) (or_else q.options [])
            (All-own (or_else q.options [])) found in
        let same : str o.value ≡ v = ground arith in
        subst (IsChoice js (or_else q.options [])) same (o, listed, refl)
  ]

module _ (js : Js) (laws : Js.Laws js) where
  open js use {Num, of_nat, tenths, le, to_lower, to_number, div}
  open laws use {
    nat_number, nat_le, tenths_le, tenths_zero, tenths_one, div_number, numeral, lower_mail,
  }

  email-Fits : (s : Text) {v : Value Num} → normalize_email js s ≡ accepted v → IsMail js v
  unfolding normalize_email
  email-Fits s {v} e = elim (Option-cases (find_mail s)) [
    | inl none' ↦ ground arith
    | inr (m, found) ↦
        let same : str (to_lower m) ≡ v = ground arith in
        subst (IsMail js) same (lower_mail m (find_mail-is_mail s found))
  ]

  tenths-IsBetween : (n : ℕ) → n ≤ 10 → IsBetween js (of_nat 0) (of_nat 1) (num (tenths n))
  tenths-IsBetween n h =
      (rw (← tenths_zero) (tenths_le 0 n (omega arith)), rw (← tenths_one) (tenths_le n 10 h))

  clamp-IsBetween :
      (n : Num)
      → Js.is_number js n ≡ true
      → IsBetween js (of_nat 0) (of_nat 1) (num (Js.min js (of_nat 1) (Js.max js (of_nat 0) n)))
  clamp-IsBetween n h = clamp_bounds js laws (of_nat 0) (of_nat 1) n (nat_le 0 1 (omega arith)) h

  numeric_urgency_bounds :
      (lower : Text) (n : Num)
      → numeric_urgency js lower ≡ some n
      → IsBetween js (of_nat 0) (of_nat 1) (num n)
  unfolding numeric_urgency
  numeric_urgency_bounds lower n e = elim (Option-cases (find_number lower)) [
    | inl none' ↦ ground arith
    | inr (t, found) ↦ ground (
      arith,
      clamp-IsBetween (div (to_number t) (of_nat 10)),
      div_number (to_number t) 9 (omega arith),
      numeral lower found,
    )
  ]

  -- An urgency is a number from 0 to 1.
  pub parse_urgency_bounds :
      (lower : Text) {n : Num}
      → parse_urgency js lower ≡ some n
      → IsBetween js (of_nat 0) (of_nat 1) (num n)
  unfolding parse_urgency
  parse_urgency_bounds lower {n} e = ground (
    arith,
    nat_le 0 1,
    nat_le 1 1,
    tenths-IsBetween 8,
    tenths-IsBetween 5,
    tenths-IsBetween 2,
    numeric_urgency_bounds lower n,
  )

  urgency-Fits :
      (s : Text) {v : Value Num}
      → normalize_urgency js s ≡ accepted v
      → IsBetween js (of_nat 0) (of_nat 1) v
  unfolding normalize_urgency
  urgency-Fits s {v} e = elim (Option-cases (parse_urgency js s)) [
    | inl none' ↦ ground arith
    | inr (n, found) ↦
        let same : num n ≡ v = ground arith in
        subst (IsBetween js (of_nat 0) (of_nat 1)) same (parse_urgency_bounds s found)
  ]

  typed-Fits :
      (t : QuestionType) (q : Question Num) (s : Text) {v : Value Num}
      → is_empty s ≡ false
      → normalize_typed js t q s ≡ accepted v
      → FitsType js t q v
  unfolding normalize_typed
  typed-Fits yes_no q s h e = yes_no-Fits js (to_lower s) e
  typed-Fits email q s h e = email-Fits s e
  typed-Fits phone q s h e = IsPhone-Fits js s e
  typed-Fits scale q s h e = scale-Fits js q s e
  typed-Fits urgency q s h e = urgency-Fits (to_lower s) e
  typed-Fits budget q s h e = IsBudget-Fits js s h e
  typed-Fits multiple_choice q s h e = IsChoice-Fits js q (to_lower s) e
  typed-Fits datetime q s {v} h e = let same : str s ≡ v = ground arith in subst (IsText js) same h
  typed-Fits free_text q s {v} h e = let same : str s ≡ v = ground arith in subst (IsText js) same h

  -- Under `Js.Laws`, a value that the normalizer accepts fits the type of its question: a boolean for yes_no, a mail
  -- address, a dialable number with seven digits, a number within the scale, an urgency from 0 to
  -- 1, one of the question's options, and otherwise a number or a text that is not empty.
  pub normalize_answer-Fits :
      (q : Question Num) (raw_text : Text) (v : Value Num)
      → normalize_answer js q raw_text ≡ accepted v
      → Fits js q v
  unfolding normalize_answer
  normalize_answer-Fits q raw_text v e = elim (Bool-cases (is_empty (trim raw_text))) [
    | inl blank ↦ ground arith
    | inr words ↦ typed-Fits q.type q (trim raw_text) words (rw words at e)
  ]
