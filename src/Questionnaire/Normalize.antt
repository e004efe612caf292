-- ===== src/Questionnaire/Normalize.antt =====
-- `normalizeAnswer` and `parseUrgency` of packages/shared/src/questionnaire-engine.ts: a caller's
-- words become a typed value, or a question back.
pub mod Fits
pub mod Laws
pub mod Words
use ai_phone_plattform.Prelude.{
  ℕ, Bool, true, false, ◌&&◌, ◌||◌, Option, none, some, List, [], ◌∷◌, ◌++◌, Text, codes, includes,
  trim, is_empty, any, find, map, or_else, leb, keep, not, ◌==◌, find_mail, find_number, dial_chars,
  digit_count, if◌then◌else◌,
}
use ai_phone_plattform.Js
use ai_phone_plattform.Js.{Js, Value, bool, num, str}
use ai_phone_plattform.Types.{
  QuestionType, free_text, yes_no, multiple_choice, scale, datetime, phone, email, budget, urgency,
  QuestionOption, Question, Say, lit, txt, join_comma,
}

abbrev pub yes_words : List Text
yes_words =
    codes "ja"
    ∷ codes "jo"
    ∷ codes "jawohl"
    ∷ codes "klar"
    ∷ codes "yes"
    ∷ codes "yeah"
    ∷ codes "yep"
    ∷ codes "genau"
    ∷ codes "korrekt"
    ∷ codes "richtig"
    ∷ []

abbrev pub no_words : List Text
no_words = codes "nein" ∷ codes "ne" ∷ codes "nö" ∷ codes "no" ∷ codes "nope" ∷ codes "nicht" ∷ []

abbrev pub urgency_now : List Text
urgency_now =
    codes "sehr dringend" ∷ codes "sofort" ∷ codes "notfall" ∷ codes "asap" ∷ codes "umgehend" ∷ []

abbrev pub urgency_high : List Text
urgency_high = codes "dringend" ∷ codes "schnell" ∷ codes "bald" ∷ codes "hoch" ∷ []

abbrev pub urgency_medium : List Text
urgency_medium = codes "mittel" ∷ codes "normal" ∷ codes "diese woche" ∷ []

abbrev pub urgency_low : List Text
urgency_low =
    codes "nicht dringend"
    ∷ codes "keine eile"
    ∷ codes "niedrig"
    ∷ codes "irgendwann"
    ∷ codes "gering"
    ∷ []

-- `words.some((w) => text.includes(w))`, and `/(w1|w2|…)/.test(text)` for words without operators
unfoldable pub mentions : List Text → Text → Bool
mentions [] text = false
mentions (w ∷ ws) text = includes w text || mentions ws text

-- `text.replace(/\./g, '')`, and `text.replace(',', '.')`
abbrev without_dots : Text → Text
without_dots = keep (λ c. not (c == b'.'))

abbrev comma_to_dot : Text → Text
comma_to_dot [] = []
comma_to_dot (c ∷ s) = let rest = comma_to_dot s in if c == b',' then b'.' ∷ s else c ∷ rest

pub data Normalization (N : Type 0) : Type 0 where
  -- `ok: true` with a value, and `ok: false` with an optional clarification
  accepted : Value N → Normalization N
  unclear : Option Say → Normalization N

abbrev pub labels : List QuestionOption → List Text
labels [] = []
labels (o ∷ os) = o.label ∷ labels os

module _ (js : Js) where
  open js use {Num, of_nat, tenths, le, div, to_number, show, to_lower}

  unfoldable pub parse_first_number : Text → Option Num
  parse_first_number text = elim (find_number text) [
    | none ↦ none
    | some found ↦ some (to_number found)
  ]

  unfoldable pub numeric_urgency : Text → Option Num
  unfolding parse_first_number
  numeric_urgency lower = elim (parse_first_number lower) [
    | some n ↦ some (Js.min js (of_nat 1) (Js.max js (of_nat 0) (div n (of_nat 10))))
    | none ↦ none
  ]

  unfoldable pub parse_urgency : Text → Option Num
  parse_urgency lower =
      if mentions urgency_now lower
      then some (of_nat 1)
      else if mentions urgency_high lower
      then some (tenths 8)
      else if mentions urgency_medium lower
      then some (tenths 5)
      else if mentions urgency_low lower
      then some (tenths 2)
      else numeric_urgency lower

  abbrev pub scale_low : Question Num → Num
  scale_low q = or_else q.scale_min (of_nat 1)

  abbrev pub scale_high : Question Num → Num
  scale_high q = or_else q.scale_max (of_nat 10)

  -- the callback of `find`
  abbrev pub is_named : Text → QuestionOption → Bool
  is_named lower o = includes (to_lower o.label) lower || includes (to_lower o.value) lower

  abbrev reject : Say → Normalization Num
  reject say = unclear (some say)

  unfoldable pub normalize_yes_no : Text → Normalization Num
  normalize_yes_no lower =
      if mentions yes_words lower
      then accepted (bool true)
      else if mentions no_words lower
      then accepted (bool false)
      else reject (lit "Meinen Sie damit Ja oder Nein?" ∷ [])

  unfoldable pub normalize_email : Text → Normalization Num
  normalize_email text = elim (find_mail text) [
    | some found ↦ accepted (str (to_lower found))
    | none ↦ reject (lit "Können Sie Ihre E-Mail-Adresse noch einmal buchstabieren?" ∷ [])
  ]

  unfoldable pub normalize_phone : Text → Normalization Num
  normalize_phone text =
      let digits = dial_chars text in
      if leb 7 (digit_count digits)
      then accepted (str digits)
      else reject (lit "Welche Telefonnummer erreiche ich Sie am besten?" ∷ [])

  unfoldable pub normalize_scale : Question Num → Text → Normalization Num
  normalize_scale q text =
      let again =
        lit "Bitte nennen Sie eine Zahl zwischen "
        ∷ txt (show (scale_low q))
        ∷ lit " und "
        ∷ txt (show (scale_high q))
        ∷ lit "."
        ∷ [] in
      elim (parse_first_number text) [
        | some n ↦
            if le (scale_low q) n && le n (scale_high q) then accepted (num n) else reject again
        | none ↦ reject again
      ]

  unfoldable pub normalize_urgency : Text → Normalization Num
  normalize_urgency lower = elim (parse_urgency lower) [
    | some n ↦ accepted (num n)
    | none ↦ reject (lit "Wie dringend ist Ihr Anliegen — eher niedrig, mittel oder hoch?" ∷ [])
  ]

  unfoldable pub normalize_budget : Text → Normalization Num
  normalize_budget text = elim (parse_first_number (comma_to_dot (without_dots text))) [
    | some n ↦ accepted (num n)
    | none ↦ accepted (str text)
  ]

  unfoldable pub normalize_choice : Question Num → Text → Normalization Num
  normalize_choice q lower =
      let options = or_else q.options [] in
      elim (find (is_named lower) options) [
        | some o ↦ accepted (str o.value)
        | none ↦ reject (lit "Bitte wählen Sie: " ∷ (join_comma (labels options) ++ (lit "." ∷ [])))
      ]

  -- the `switch` on the question's type
  unfoldable pub normalize_typed : QuestionType → Question Num → Text → Normalization Num
  unfolding normalize_yes_no normalize_email normalize_phone normalize_scale normalize_urgency
      normalize_budget normalize_choice
  normalize_typed yes_no q text = normalize_yes_no (to_lower text)
  normalize_typed email q text = normalize_email text
  normalize_typed phone q text = normalize_phone text
  normalize_typed scale q text = normalize_scale q text
  normalize_typed urgency q text = normalize_urgency (to_lower text)
  normalize_typed budget q text = normalize_budget text
  normalize_typed multiple_choice q text = normalize_choice q (to_lower text)
  normalize_typed datetime q text = accepted (str text)
  normalize_typed free_text q text = accepted (str text)

  unfoldable pub normalize_answer : Question Num → Text → Normalization Num
  unfolding normalize_typed
  normalize_answer q raw_text =
      let text = trim raw_text in
      if is_empty text
      then reject
          (lit "Entschuldigung, das habe ich nicht verstanden. Können Sie das wiederholen?" ∷ [])
      else normalize_typed q.type q text
