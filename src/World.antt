-- ===== src/World.antt =====
-- The rows that one call reads and writes (apps/api/prisma/schema.prisma), and what the program asks
-- of the outside: the clock, the language model, the mail provider and the calendar provider. Texts
-- that are encrypted at rest are kept plain. A query that the database refuses is not modelled, but
-- for the write of the mail log; what was written before an error stays written.
use ai_phone_plattform.Prelude.{ℕ, Bool, Option, List, String, Text}
use ai_phone_plattform.Js.{Value}
use ai_phone_plattform.Types.{QuestionType, LeadCategory, CallStatus, MessageRole, Question, Say}
use ai_phone_plattform.Cost.{CostRates, CostBreakdown}
use ai_phone_plattform.Calendar.Slots.{Interval}

pub data Phase : Type 0 where
  consent questions confirm correction email_consent done : Phase

-- `call.state`: the JSON of the turn-based flow, to which the realtime flow adds `realtimeUsage`. A
-- state that only the realtime flow wrote has no phase.
pub record CallState : Type 0 where
  pub phase : Option Phase
  pub pending_question_key : Option Text
  pub clarify_count : ℕ
  pub realtime_usage : Option (ℕ × ℕ)

pub record CallAnswer (N : Type 0) : Type 0 where
  pub question_key : Text
  pub type : QuestionType
  pub value : Value N
  pub raw_text : Text

pub record Message : Type 0 where
  pub role : MessageRole
  pub text : Say

pub record CallSummary (N : Type 0) : Type 0 where
  pub caller_name : Value N
  pub caller_email : Value N
  pub concern : Value N
  pub summary : Text
  pub lead_category : LeadCategory
  pub recommended_action : String

pub data BookingStatus : Type 0 where
  detected conflict booked booking_failed : BookingStatus

pub record CallAppointment : Type 0 where
  pub status : BookingStatus
  pub start_at : ℕ
  pub event_id : Option Text

pub record Call (N : Type 0) : Type 0 where
  pub status : CallStatus
  pub consent_given : Bool
  pub caller_email_consent : Bool
  pub state : Option CallState
  pub answers : List (CallAnswer N)
  pub messages : List Message
  pub from_number : Text
  pub started_at : ℕ
  pub ended_at : Option ℕ
  pub duration_seconds : ℕ
  pub lead_category : Option LeadCategory
  pub total_cost : Option N
  pub summary : Option (CallSummary N)
  pub usage_event : Option (CostBreakdown N)
  pub appointment : Option CallAppointment

pub record Tenant (N : Type 0) : Type 0 where
  pub paused : Bool
  pub monthly_budget_limit : Option N
  pub auto_pause_on_budget : Bool

pub data ConnectionStatus : Type 0 where
  active attention error : ConnectionStatus

pub data EmailKind : Type 0 where
  tenant_summary caller_summary budget_alert : EmailKind

pub record Email : Type 0 where
  pub to : Text
  pub kind : EmailKind
  pub sent : Bool

pub record World (N : Type 0) : Type 0 where
  pub call : Call N
  pub tenant : Tenant N
  -- the addresses of `emailRecipient`, and the rows of `emailLog`
  pub recipients : List Text
  pub email_log : List Email
  -- what the tenant's other calls cost this month
  pub other_spend : N
  -- the oldest calendar connection of the tenant, and the events that its provider holds
  pub connection : Option ConnectionStatus
  pub events : List ℕ

pub record Assistant (N : Type 0) : Type 0 where
  pub consent_text : Text
  pub is_english : Bool
  pub questions : List (Question N)

-- What a mail provider and the log do with a mail.
pub data Delivery : Type 0 where
  delivered refused log_failed : Delivery

pub record SummaryResult : Type 0 where
  pub summary : Text
  pub input_tokens : ℕ
  pub output_tokens : ℕ

pub record Env (N : Type 0) : Type 0 where
  pub now : ℕ
  pub rates : CostRates N
  pub assistant : Assistant N
  -- `generateSummary`, over the transcript and the answers
  pub generate_summary : List Message → List (CallAnswer N) → SummaryResult
  -- whether `decrypt` reads the stored number of a call, and the stored text of a message
  pub opens_number : Text → Bool
  pub opens_message : Message → Bool
  pub deliver : Text → EmailKind → Delivery
  -- the answers of the calendar provider; `none` is an error that it throws
  pub load_busy : ℕ → Option (List Interval)
  pub create_event : ℕ → Option Text
  pub is_business_hours : ℕ → Bool
  -- whether the runtime knows the tenant's time zone
  pub knows_timezone : Bool
  -- `parseDateValue`, and `parseNaturalDateTime` with `zonedWallToUtc`
  pub parse_date_value : Value N → Option ℕ
  pub resolve_datetime : Text → Option ℕ
  -- `d.toISOString()` and `formatSlot`
  pub to_iso : ℕ → Text
  pub format_slot : ℕ → Text
