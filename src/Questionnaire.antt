-- ===== src/Questionnaire.antt =====
-- packages/shared/src/questionnaire-engine.ts: which question is asked next. An `AnswerMap` is the
-- list of its own entries, the newest first, and a key that it has no entry of may name a property that
-- every JavaScript object inherits. An entry of the key `__proto__` is one like any other here: that
-- it also becomes the object's prototype is not modelled.
mod Order
pub mod Next
pub mod Normalize
use ai_phone_plattform.Prelude.{
  ℕ, Bool, true, false, not, ◌&&◌, Option, none, some, List, [], ◌∷◌, Text, codes, text_eq, leb,
  find, all, any, keep, is_some, if◌then◌else◌,
}
use ai_phone_plattform.Js
use ai_phone_plattform.Js.{Js, Value, undefined, num}
use ai_phone_plattform.Types.{
  Operator, equals, not_equals, gte, lte, truthy, QuestionCondition, Question,
}

pub record Answer (N : Type 0) : Type 0 where
  pub value : Value N
  pub raw_text : Text

abbrev pub AnswerMap : Type 0 → Type 0
AnswerMap N = List (Text × Answer N)

-- the properties that `{}` inherits from `Object.prototype`
abbrev inherited_names : List Text
inherited_names =
    codes "constructor"
    ∷ codes "__proto__"
    ∷ codes "toString"
    ∷ codes "valueOf"
    ∷ codes "toLocaleString"
    ∷ codes "hasOwnProperty"
    ∷ codes "isPrototypeOf"
    ∷ codes "propertyIsEnumerable"
    ∷ codes "__defineGetter__"
    ∷ codes "__defineSetter__"
    ∷ codes "__lookupGetter__"
    ∷ codes "__lookupSetter__"
    ∷ []

unfoldable pub is_inherited : Text → Bool
is_inherited key = any (text_eq key) inherited_names

module _ {N : Type 0} where
  -- the entry of a key
  abbrev pub own_answer : AnswerMap N → Text → Option (Answer N)
  own_answer [] key = none
  own_answer ((k, a) ∷ answers) key = if text_eq k key then some a else own_answer answers key

  -- What an inherited property is, a function or an object, has no `value`.
  abbrev inherited_answer : Answer N
  inherited_answer = record { value = undefined; raw_text = [] }

  abbrev or_inherited : Bool → Option (Answer N) → Option (Answer N)
  or_inherited inherited (some a) = some a
  or_inherited true none = some inherited_answer
  or_inherited false none = none

  -- `answers[key]`
  abbrev pub answer_at : AnswerMap N → Text → Option (Answer N)
  answer_at answers key = or_inherited (is_inherited key) (own_answer answers key)

  -- `answers[key] !== undefined`
  abbrev pub is_answered : AnswerMap N → Question N → Bool
  is_answered answers q = is_some (answer_at answers q.key)

  -- `[...questions].sort((a, b) => a.order - b.order)`: stable, as the language requires.
  unfoldable pub insert_by_order : Question N → List (Question N) → List (Question N)
  insert_by_order q [] = q ∷ []
  insert_by_order q (r ∷ rs) =
      let rest = insert_by_order q rs in if leb q.order r.order then q ∷ r ∷ rs else r ∷ rest

  unfoldable pub sort_by_order : List (Question N) → List (Question N)
  unfolding insert_by_order
  sort_by_order [] = []
  sort_by_order (q ∷ qs) = insert_by_order q (sort_by_order qs)

module _ (js : Js) where
  open js use {Num, le}

  abbrev num_ge : Value Num → Value Num → Bool
  num_ge (num a) (num b) = le b a
  num_ge _ _ = false

  abbrev evaluate : Operator → Value Num → Value Num → Bool
  evaluate truthy a v = Js.truthy js a
  evaluate equals a v = Js.strict_eq js a v
  evaluate not_equals a v = not (Js.strict_eq js a v)
  evaluate gte a v = num_ge a v
  evaluate lte a v = num_ge v a

  unfoldable pub evaluate_condition : QuestionCondition Num → AnswerMap Num → Bool
  evaluate_condition condition answers = elim (answer_at answers condition.question_key) [
    | none ↦ false
    | some answer ↦ evaluate condition.operator answer.value condition.value
  ]

  unfoldable pub is_question_active : Question Num → AnswerMap Num → Bool
  unfolding evaluate_condition
  is_question_active q answers = elim q.condition [
    | none ↦ true
    | some condition ↦ evaluate_condition condition answers
  ]

  -- the two `continue` tests of the loop in `nextQuestion`
  abbrev pub is_open : AnswerMap Num → Question Num → Bool
  is_open answers q = not (is_answered answers q) && is_question_active q answers

  unfoldable pub next_question : List (Question Num) → AnswerMap Num → Option (Question Num)
  next_question questions answers = find (is_open answers) (sort_by_order questions)

  unfoldable pub is_complete : List (Question Num) → AnswerMap Num → Bool
  is_complete questions answers =
      all (is_answered answers) (keep (λ q. q.required && is_question_active q answers) questions)
