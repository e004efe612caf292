-- ===== src/Tests.antt =====
-- Sample rows and settings, and runs of the model on them.
mod Dialogue
mod Agent
mod Money
mod Platform
mod Dates
mod Callers
mod Consents
mod Console
mod Sessions
mod Stream
use ai_phone_plattform.Prelude.{
  ℕ, ◌+◌, ◌==◌, Bool, true, false, Option, none, some, List, [], ◌∷◌, Text, codes, is_empty,
  if◌then◌else◌,
}
use ai_phone_plattform.Js.{Value, str}
use ai_phone_plattform.Types.{QuestionType, free_text, email, Question, in_progress}
use ai_phone_plattform.Questionnaire.{AnswerMap, Answer}
use ai_phone_plattform.Cost.{CostRates}
use ai_phone_plattform.Calendar.Slots.{Interval}
use ai_phone_plattform.World.{
  World, Call, CallState, Env, Assistant, Tenant, Phase, consent, active, EmailKind, Delivery,
  delivered,
}

abbrev question : Text → QuestionType → ℕ → Question ℕ
question key type order = record {
  key = key;
  prompt = codes "Wie?";
  type = type;
  required = true;
  order = order;
  options = none;
  scale_min = none;
  scale_max = none;
  condition = none;
}

abbrev pub name_question : Question ℕ
name_question = question (codes "name") free_text 2

abbrev pub mail_question : Question ℕ
mail_question = question (codes "mail") email 1

abbrev pub two_questions : List (Question ℕ)
two_questions = name_question ∷ mail_question ∷ []

abbrev pub mail_known : AnswerMap ℕ
mail_known = (codes "mail", record { value = str (codes "a@b.de"); raw_text = [] }) ∷ []

abbrev pub fresh_state : Phase → Option Text → ℕ → CallState
fresh_state phase key count = record {
  phase = some phase;
  pending_question_key = key;
  clarify_count = count;
  realtime_usage = none;
}

abbrev pub call_in : CallState → Bool → Call ℕ
call_in state given = record {
  status = in_progress;
  consent_given = given;
  caller_email_consent = false;
  state = some state;
  answers = [];
  messages = [];
  from_number = codes "+49301234567";
  started_at = 0;
  ended_at = none;
  duration_seconds = 0;
  lead_category = none;
  total_cost = none;
  summary = none;
  usage_event = none;
  appointment = none;
}

abbrev pub world_of : Call ℕ → World ℕ
world_of call = record {
  call = call;
  tenant = record { paused = false; monthly_budget_limit = some 10; auto_pause_on_budget = true };
  recipients = codes "team@b.de" ∷ [];
  email_log = [];
  other_spend = 0;
  connection = some active;
  events = [];
}

abbrev pub new_world : World ℕ
new_world = world_of (call_in (fresh_state consent none 0) false)

abbrev pub rates : CostRates ℕ
rates = record {
  telephony_per_minute = 20;
  stt_per_minute = 10;
  tts_per_minute = 10;
  llm_input_per1k = 5;
  llm_output_per1k = 15;
  markup_percent = 30000;
}

-- busy from 10 to 20 minutes past the epoch
abbrev pub busy_interval : Interval
busy_interval = record { start = 600000; end = 1200000 }

abbrev pub env : Env ℕ
env = record {
  now = 0;
  rates = rates;
  assistant = record {
    consent_text = codes "Einverstanden?";
    is_english = false;
    questions = two_questions;
  };
  generate_summary = λ messages answers. record {
    summary = codes "Anruf";
    input_tokens = 1000;
    output_tokens = 100;
  };
  opens_number = λ n. true;
  opens_message = λ m. true;
  deliver = λ to kind. delivered;
  load_busy = λ start. some (busy_interval ∷ []);
  create_event = λ start. some (codes "event");
  is_business_hours = λ d. true;
  knows_timezone = true;
  parse_date_value = λ v. none;
  resolve_datetime = λ t. none;
  to_iso = λ d. codes "iso";
  format_slot = λ d. codes "slot";
}
