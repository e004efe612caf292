-- ===== src/Schemas.antt =====
-- The checks of packages/shared/src/schemas.ts that go beyond the type of a value. The library `zod`
-- applies them to a value that has the type. Lengths are of UTF-16 code units, as in the language.
use ai_phone_plattform.Prelude.{
  ℕ, Bool, true, false, not, ◌&&◌, ◌||◌, Option, none, some, List, [], ◌∷◌, Text, text_eq, is_digit,
  any, all, length, leb, ◌==◌,
}
use ai_phone_plattform.Js
use ai_phone_plattform.Js.{Js}
use ai_phone_plattform.Types.{
  QuestionType, multiple_choice, scale, Question, QuestionOption, QuestionCondition,
}

-- `.min(low).max(high)`
abbrev pub between : ℕ → ℕ → Text → Bool
between low high s = leb low (length s) && leb (length s) high

-- `/^[a-z0-9_]+$/`
abbrev is_key_char : ℕ → Bool
is_key_char c = leb b'a' c && leb c b'z' || (is_digit c || c == b'_')

abbrev pub is_key : Text → Bool
is_key s = between 1 60 s && all is_key_char s

-- `/^[a-z0-9-]+$/`
abbrev is_slug_char : ℕ → Bool
is_slug_char c = leb b'a' c && leb c b'z' || (is_digit c || c == b'-')

unfoldable pub is_slug : Text → Bool
is_slug s = between 2 60 s && all is_slug_char s

-- `e164Schema`: `/^\+[1-9]\d{6,14}$/`
unfoldable pub is_e164 : Text → Bool
is_e164 [] = false
is_e164 (c ∷ []) = false
is_e164 (c ∷ d ∷ s) =
    c == b'+'
    && (leb b'1' d && leb d b'9')
    && (all is_digit s && (leb 6 (length s) && leb (length s) 14))

module _ (js : Js) where
  open js use {Num}

  abbrev has_range : Option Num → Option Num → Bool
  has_range (some low) (some high) = Js.lt js low high
  has_range _ _ = false

  abbrev is_choice : QuestionType → Bool
  is_choice multiple_choice = true
  is_choice _ = false

  abbrev is_scale : QuestionType → Bool
  is_scale scale = true
  is_scale _ = false

  abbrev options_of : Option (List QuestionOption) → List QuestionOption
  options_of none = []
  options_of (some options) = options

  -- `questionConditionSchema`
  abbrev valid_condition : Option (QuestionCondition Num) → Bool
  valid_condition none = true
  valid_condition (some c) = leb 1 (length c.question_key)

  -- `z.number().int().optional()`
  abbrev is_int : Option Num → Bool
  is_int none = true
  is_int (some n) = js.is_finite n && js.eq (js.round n) n

  -- `questionSchema`
  unfoldable pub valid_question : Question Num → Bool
  valid_question q =
      is_key q.key
      && between 1 1000 q.prompt
      && (is_int q.scale_min && is_int q.scale_max)
      && valid_condition q.condition
      && (not (is_choice q.type) || leb 2 (length (options_of q.options)))
      && (not (is_scale q.type) || has_range q.scale_min q.scale_max)

  -- `new Set(keys).size === keys.length`
  unfoldable pub unique_keys : List (Question Num) → Bool
  unique_keys [] = true
  unique_keys (q ∷ qs) = not (any (λ r. text_eq r.key q.key) qs) && unique_keys qs

  -- `upsertQuestionnaireSchema`
  unfoldable pub valid_questionnaire : Text → List (Question Num) → Bool
  valid_questionnaire name qs =
      between 1 120 name
      && (leb 1 (length qs) && leb (length qs) 100)
      && all valid_question qs
      && unique_keys qs
