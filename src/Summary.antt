-- ===== src/Summary.antt =====
-- `finalizeCall` of apps/api/src/services/summary.service.ts: the last step of a call.
pub mod Final
pub mod MailConsent
use ai_phone_plattform.Prelude.{
  ℕ, zero, suc, ◌+◌, ◌/◌, ◌-◌, Bool, true, false, not, ◌&&◌, ◌||◌, Option, none, some, List, [],
  ◌∷◌, ◌++◌, Text, codes, text_eq, includes, length, find, any, all, keep, is_some, or_else, leb,
  ltb, ◌==◌, if◌then◌else◌,
}
use Prim.Native.Nat.{max}
use ai_phone_plattform.Js
use ai_phone_plattform.Js.{Js, Value, undefined, null, num, str}
use ai_phone_plattform.Types.{
  QuestionType, free_text, yes_no, multiple_choice, scale, datetime, phone, email, budget, urgency,
  Question, CallStatus, completed, MessageRole, system, Piece, lit, txt, Say,
}
use ai_phone_plattform.Cost.{CostUsage, CostBreakdown}
use ai_phone_plattform.Lead.{LeadSignals, LeadScore, score_lead, recommend_next_action}
use ai_phone_plattform.World.{
  World, Call, CallState, CallAnswer, CallSummary, Message, Env, SummaryResult, tenant_summary,
  caller_summary,
}
use ai_phone_plattform.Exec.{
  Exec, ok, threw, continue, ◌>>=◌, ◌>>◌, pure, modify, update_call, gets, when, lift,
}
use ai_phone_plattform.Billing.{send_email, send_all, record_usage}
use ai_phone_plattform.Calendar.Booking.{create_appointment}

abbrev pub type_eq : QuestionType → QuestionType → Bool
type_eq free_text free_text = true
type_eq yes_no yes_no = true
type_eq multiple_choice multiple_choice = true
type_eq scale scale = true
type_eq datetime datetime = true
type_eq phone phone = true
type_eq email email = true
type_eq budget budget = true
type_eq urgency urgency = true
type_eq _ _ = false

abbrev mentions_any : List Text → Text → Bool
mentions_any words s = any (λ w. includes w s) words

-- `/callback|rueckruf|rückruf|termin/i`, with `toLowerCase` of the letters that can match
abbrev lower_char : ℕ → ℕ
lower_char c = if leb b'A' c && leb c b'Z' then c + 32 else if c == 0xdc then 0xfc else c

abbrev lower : Text → Text
lower [] = []
lower (c ∷ s) = lower_char c ∷ lower s

abbrev wants_callback_key : Text → Bool
wants_callback_key key =
    mentions_any (codes "callback" ∷ codes "rueckruf" ∷ codes "rückruf" ∷ codes "termin" ∷ [])
      (lower key)

abbrev is_concern_key : Text → Bool
is_concern_key key =
    mentions_any (codes "anliegen" ∷ codes "concern" ∷ codes "grund" ∷ codes "reason" ∷ []) key

-- `Math.ceil(text.length / 4)`
unfoldable pub estimate_tokens : ℕ → ℕ
estimate_tokens units = (units + 3) / 4

abbrev piece_length : Piece → ℕ
piece_length (lit s) = length (codes s)
piece_length (txt t) = length t

abbrev say_length : Say → ℕ
say_length [] = 0
say_length (p ∷ ps) = piece_length p + say_length ps

abbrev transcript_tokens : List Message → ℕ
transcript_tokens [] = 0
transcript_tokens (m ∷ ms) = estimate_tokens (say_length m.text) + transcript_tokens ms

abbrev pub is_spoken : Message → Bool
is_spoken m = elim m.role [ system ↦ false | _ ↦ true ]

-- `call.state.realtimeUsage`
abbrev pub realtime_usage_of : Option CallState → Option (ℕ × ℕ)
realtime_usage_of none = none
realtime_usage_of (some s) = s.realtime_usage

abbrev dialogue_tokens : Option (ℕ × ℕ) → List Message → ℕ × ℕ
dialogue_tokens (some usage) transcript = usage
dialogue_tokens none transcript = (transcript_tokens transcript, 0)

-- `call.durationSeconds > 0 ? … : Math.max(1, Math.round((now - startedAt) / 1000))`
abbrev pub elapsed_seconds : ℕ → ℕ → ℕ
elapsed_seconds now started_at = max 1 ((now - started_at + 500) / 1000)

abbrev final_duration : ℕ → ℕ → ℕ → ℕ
final_duration stored now started_at =
    if ltb 0 stored then stored else elapsed_seconds now started_at

module _ {N : Type 0} where
  -- the order of the question of an answer, and 999 where there is none
  abbrev order_of : List (Question N) → Text → ℕ
  order_of [] key = 999
  order_of (q ∷ qs) key = if text_eq q.key key then q.order else order_of qs key

  unfoldable pub insert_answer :
      List (Question N) → CallAnswer N → List (CallAnswer N) → List (CallAnswer N)
  insert_answer qs a [] = a ∷ []
  insert_answer qs a (b ∷ bs) =
      let rest = insert_answer qs a bs in
      if leb (order_of qs a.question_key) (order_of qs b.question_key) then a ∷ b ∷ bs else b ∷ rest

  unfoldable pub order_answers : List (Question N) → List (CallAnswer N) → List (CallAnswer N)
  unfolding insert_answer
  order_answers qs [] = []
  order_answers qs (a ∷ answers) = insert_answer qs a (order_answers qs answers)

  abbrev pub find_by_type : QuestionType → List (CallAnswer N) → Option (CallAnswer N)
  find_by_type t = find (λ a. type_eq a.type t)

  abbrev pub find_by_key : (Text → Bool) → List (CallAnswer N) → Option (CallAnswer N)
  find_by_key test = find (λ a. test a.question_key)

  -- `found?.rawValue ?? null`
  abbrev nullish : Value N → Value N
  nullish undefined = null
  nullish v = v

  abbrev value_or_null : Option (CallAnswer N) → Value N
  value_or_null none = null
  value_or_null (some a) = nullish a.value

  abbrev number_or_none : Value N → Option N
  number_or_none (num n) = some n
  number_or_none _ = none

  abbrev phone_or : Text → Value N → Value N
  phone_or from null = str from
  phone_or from v = v

  -- `a.type === 'datetime' && a.value != null`
  abbrev is_present : Value N → Bool
  is_present undefined = false
  is_present null = false
  is_present _ = true

  abbrev pub appointment_start : (Value N → Option ℕ) → List (CallAnswer N) → Option ℕ
  appointment_start parse answers =
      elim (find (λ a. type_eq a.type datetime && is_present a.value) answers) [
        | none ↦ none
        | some a ↦ parse a.value
      ]

  abbrev pub caller_email_of : List (CallAnswer N) → Value N
  caller_email_of answers = value_or_null (find_by_type email answers)

  abbrev pub urgency_of : List (CallAnswer N) → Option N
  urgency_of answers = number_or_none (value_or_null (find_by_type urgency answers))

module _ (js : Js) (env : Env js.Num) where
  open js use {Num, of_nat}

  abbrev pub signals_of : Text → List (CallAnswer Num) → LeadSignals Num
  signals_of from answers = record {
    has_email = Js.truthy js (caller_email_of answers);
    has_phone = Js.truthy js (phone_or from (value_or_null (find_by_type phone answers)));
    has_name = Js.truthy js (value_or_null (find_by_key (includes (codes "name")) answers));
    urgency = urgency_of answers;
    wants_callback = any (λ a. wants_callback_key a.question_key) answers;
    has_budget = is_some (find_by_type budget answers);
    has_concrete_need = Js.truthy js (value_or_null (find_by_key is_concern_key answers));
  }

  abbrev pub new_summary : List (CallAnswer Num) → LeadScore → Text → CallSummary Num
  new_summary answers lead text = record {
    caller_name = value_or_null (find_by_key (includes (codes "name")) answers);
    caller_email = caller_email_of answers;
    concern = value_or_null (find_by_key is_concern_key answers);
    summary = text;
    lead_category = lead.category;
    recommended_action = recommend_next_action js lead (urgency_of answers);
  }

  -- the `upsert`: an old summary keeps the caller's name, address and concern
  abbrev pub upsert_summary : Option (CallSummary Num) → CallSummary Num → CallSummary Num
  upsert_summary none new = new
  upsert_summary (some old) new = record old {
    summary = new.summary;
    lead_category = new.lead_category;
    recommended_action = new.recommended_action;
  }

  -- the rows that are written before the usage
  unfoldable pub close_call :
      List (CallAnswer Num) → LeadScore → SummaryResult → Exec Num (Unit {0})
  close_call answers lead result = update_call λ c. record c {
    summary = some (upsert_summary c.summary (new_summary answers lead result.summary));
    status = completed;
    ended_at = some env.now;
    duration_seconds = final_duration c.duration_seconds env.now c.started_at;
    lead_category = some lead.category;
  }

  abbrev pub usage_of : Call Num → SummaryResult → CostUsage Num
  usage_of c result =
      let (input, output) =
        dialogue_tokens (realtime_usage_of c.state) (keep is_spoken c.messages) in
      record {
        duration_seconds = of_nat (final_duration c.duration_seconds env.now c.started_at);
        llm_input_tokens = of_nat (result.input_tokens + input);
        llm_output_tokens = of_nat (result.output_tokens + output);
      }

  unfoldable pub send_mails : Bool → List (CallAnswer Num) → Exec Num (Unit {0})
  send_mails consent answers = do
    recipients ← gets (λ w. w.recipients)
    send_all env tenant_summary recipients
    when (consent && Js.truthy js (caller_email_of answers))
        (send_all env caller_summary (Js.to_text js (caller_email_of answers) ∷ []))

  unfoldable pub book_appointment : List (CallAnswer Num) → Exec Num (Unit {0})
  book_appointment answers w = elim (appointment_start env.parse_date_value answers) [
    | none ↦ (ok tt, w)
    | some start ↦ let (_, w') = create_appointment env start w in (ok tt, w')
  ]

  abbrev is_null : Value Num → Bool
  is_null undefined = true
  is_null null = true
  is_null _ = false

  -- `encryptNullable` takes a text or nothing
  abbrev is_text_or_null : Value Num → Bool
  is_text_or_null (str s) = true
  is_text_or_null v = is_null v

  -- Nothing that is decrypted or encrypted before the first row is written throws: the texts of the
  -- transcript can be decrypted, and the caller's number unless the caller gave one, and the mail
  -- address is a text or missing.
  unfoldable pub is_readable : Call Num → Bool
  is_readable c =
      let answers = order_answers env.assistant.questions c.answers in
      (not (is_null (value_or_null (find_by_type phone answers))) || env.opens_number c.from_number)
      && all env.opens_message (keep is_spoken c.messages)
      && is_text_or_null (caller_email_of answers)

  -- the work on a call that is not completed and can be read
  unfoldable pub finish_readable : Call Num → Exec Num (Unit {0})
  finish_readable c =
      let answers = order_answers env.assistant.questions c.answers in
      let lead = score_lead js (signals_of c.from_number answers) in
      let result = env.generate_summary (keep is_spoken c.messages) answers in
      do
        close_call answers lead result
        _ ← record_usage js env (usage_of c result)
        send_mails c.caller_email_consent answers
        book_appointment answers

  -- an error of `decrypt` or `encryptNullable` comes before anything is written
  unfoldable pub finish_call : Call Num → Exec Num (Unit {0})
  finish_call c w = if is_readable c then finish_readable c w else (threw, w)

  abbrev pub is_completed : CallStatus → Bool
  is_completed completed = true
  is_completed _ = false

  unfoldable pub finalize_call : Exec Num (Unit {0})
  finalize_call w = if is_completed w.call.status then (ok tt, w) else finish_call w.call w
