-- ===== src/Conversation.antt =====
-- `handleTurn` of apps/api/src/services/conversation.service.ts: one turn of the turn-based call.
pub mod Turn
pub mod Frame
pub mod Gate
pub mod Stored
pub mod Ends
pub mod Again
use ai_phone_plattform.Prelude.{
  ℕ, ◌+◌, Bool, true, false, not, ◌&&◌, ◌||◌, Option, none, some, List, [], ◌∷◌, ◌++◌, Text, codes,
  text_eq, trim, is_empty, find, any, keep, take, map, leb, or_else, is_some, ◌==◌, has_word,
  if◌then◌else◌,
}
use ai_phone_plattform.Js
use ai_phone_plattform.Js.{Js, Value, str}
use ai_phone_plattform.Types.{
  QuestionType, yes_no, multiple_choice, scale, datetime, email, Question, QuestionOption,
  CallStatus, declined, in_progress, failed, MessageRole, assistant, caller, system, Say, lit, txt,
  join_comma,
}
use ai_phone_plattform.Questionnaire.{AnswerMap, Answer, answer_at, is_answered, next_question}
use ai_phone_plattform.Questionnaire.Normalize.{
  Normalization, accepted, unclear, labels, scale_low, scale_high, normalize_answer,
}
use ai_phone_plattform.World.{
  World, Call, CallState, CallAnswer, Message, Env, Phase, consent, questions, confirm, correction,
  email_consent, done,
}
use ai_phone_plattform.Exec.{
  Exec, Outcome, ok, threw, ◌>>=◌, ◌>>◌, pure, update_call, gets, when, lift,
}
use ai_phone_plattform.Calendar.Booking.{check_availability, AvailabilityResult}
use ai_phone_plattform.Summary.{type_eq, finalize_call}

pub data Action : Type 0 where
  gather hangup : Action

pub record TurnResult : Type 0 where
  pub say : Say
  pub action : Action

-- `YES` and `NO`
abbrev yes_pattern : List Text
yes_pattern =
    codes "ja"
    ∷ codes "jo"
    ∷ codes "jawohl"
    ∷ codes "klar"
    ∷ codes "genau"
    ∷ codes "korrekt"
    ∷ codes "richtig"
    ∷ codes "passt"
    ∷ codes "yes"
    ∷ codes "yep"
    ∷ []

abbrev pub no_pattern : List Text
no_pattern =
    codes "nein"
    ∷ codes "ne"
    ∷ codes "nö"
    ∷ codes "nicht"
    ∷ codes "falsch"
    ∷ codes "no"
    ∷ codes "nope"
    ∷ []

unfoldable pub says_yes : Text → Bool
says_yes = has_word yes_pattern

unfoldable pub says_no : Text → Bool
says_no = has_word no_pattern

abbrev pub default_state : CallState
default_state = record {
  phase = some consent;
  pending_question_key = none;
  clarify_count = 0;
  realtime_usage = none;
}

abbrev pub in_phase : Phase → Option Text → CallState
in_phase phase key = record {
  phase = some phase;
  pending_question_key = key;
  clarify_count = 0;
  realtime_usage = none;
}

-- `prompt.replace(/\?$/, '')`
unfoldable pub without_mark : Text → Text
without_mark [] = []
without_mark (c ∷ []) = if c == b'?' then [] else c ∷ []
without_mark (c ∷ d ∷ s) = c ∷ without_mark (d ∷ s)

-- `texts.join(separator)`
unfoldable pub join_text : Text → List Text → Text
join_text sep [] = []
join_text sep (t ∷ []) = t
join_text sep (t ∷ u ∷ ts) = t ++ (sep ++ join_text sep (u ∷ ts))

abbrev pub uncertain_response : Say
uncertain_response =
    lit "Das kann ich nicht zuverlässig beantworten, ich gebe es an das Team weiter." ∷ []

-- `!callerText`
abbrev pub is_silent : Option Text → Bool
is_silent none = true
is_silent (some s) = is_empty s

abbrev pub spoken : Option Text → Text
spoken caller_text = or_else caller_text []

abbrev pub agrees : Option Text → Bool
agrees caller_text =
    not (is_silent caller_text)
    && (says_yes (spoken caller_text) && not (says_no (spoken caller_text)))

abbrev pub goodbye : Option Text → Say
goodbye caller_text =
    if agrees caller_text
    then lit "Vielen Dank! Sie erhalten gleich eine Zusammenfassung per E-Mail. Auf Wiederhören."
      ∷ []
    else lit "Alles klar, vielen Dank für Ihren Anruf. Auf Wiederhören." ∷ []

abbrev pub state_of : {N : Type 0} → Call N → CallState
state_of c = or_else c.state default_state

-- How a datetime answer is resolved: the value to store, or a question back.
module _ {N : Type 0} (env : Env N) where
  abbrev taken : Text → Say
  taken slots =
      if is_empty slots
      then lit
          "Dieser Termin ist leider schon belegt. Können Sie mir einen anderen Wunschtermin nennen?"
        ∷ []
      else lit "Dieser Termin ist leider schon belegt. Ich könnte Ihnen anbieten: "
        ∷ txt slots
        ∷ lit ". Welcher passt Ihnen?"
        ∷ []

  abbrev pub slot_answer : ℕ → AvailabilityResult → Normalization N
  slot_answer start result =
      if result.available
      then accepted (str (env.to_iso start))
      else unclear
          (some (taken (join_text (codes " oder ") (map env.format_slot result.alternatives))))

  unfoldable pub resolve_in_zone : Text → Exec N (Normalization N)
  resolve_in_zone raw_text =
      elim (env.resolve_datetime raw_text) as (λ _. Exec N (Normalization N)) [
        | none ↦ pure (
            unclear (
              some (
                lit
                  "Ich habe das Datum nicht ganz verstanden. Für wann möchten Sie den Termin — zum Beispiel „morgen um 14 Uhr\" oder „nächsten Dienstag um 10\"?"
                ∷ [])))
        | some start ↦ do
          avail ← lift (check_availability env start)
          pure (slot_answer start avail)
      ]

  -- `nowInZone` throws a `RangeError` in a time zone that the runtime does not know.
  unfoldable pub resolve_datetime_answer : Text → Exec N (Normalization N)
  resolve_datetime_answer raw_text w =
      if env.knows_timezone then resolve_in_zone raw_text w else (threw, w)

module _ {N : Type 0} where
  unfoldable pub log_message : MessageRole → Say → Exec N (Unit {0})
  log_message role text =
      update_call
        λ c. record c { messages = c.messages ++ record { role = role; text = text } ∷ [] }

  unfoldable pub set_state : CallState → Exec N (Unit {0})
  set_state state = update_call λ c. record c { state = some state }

  unfoldable pub say : Say → Action → Exec N TurnResult
  say text action = do log_message assistant text; pure (record { say = text; action = action })

  -- `buildAnswerMap`: a later row of the same key replaces an earlier one
  abbrev pub answers_onto : AnswerMap N → List (CallAnswer N) → AnswerMap N
  answers_onto entries [] = entries
  answers_onto entries (a ∷ answers) =
      answers_onto ((a.question_key, record { value = a.value; raw_text = [] }) ∷ entries) answers

  abbrev pub build_answer_map : List (CallAnswer N) → AnswerMap N
  build_answer_map = answers_onto []

  -- `prisma.callAnswer.upsert`
  unfoldable pub upsert_answer :
      Question N → Value N → Text → List (CallAnswer N) → List (CallAnswer N)
  upsert_answer q value raw [] =
      record { question_key = q.key; type = q.type; value = value; raw_text = raw } ∷ []
  upsert_answer q value raw (a ∷ answers) =
      let rest = upsert_answer q value raw answers in
      if text_eq a.question_key q.key
      then record a { value = value; raw_text = raw } ∷ answers
      else a ∷ rest

  unfoldable pub store_answer : Question N → Value N → Text → Exec N (Unit {0})
  store_answer q value raw =
      update_call λ c. record c { answers = upsert_answer q value raw c.answers }

  abbrev pub pending_question : List (Question N) → Option Text → Option (Question N)
  pending_question qs none = none
  pending_question qs (some key) = find (λ q. text_eq q.key key) qs

  abbrev pub has_options : Question N → Bool
  has_options q = elim (or_else q.options []) [ [] ↦ false | ◌∷◌ _ _ ↦ true ]
