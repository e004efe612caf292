-- ===== src/Realtime/Agent.antt =====
-- `DialogueAgent` of apps/api/src/realtime/agent.ts with the store of prisma-store.ts: a streamed call
-- that a language model leads. The model, `JSON.parse` and the transport are parameters; what the
-- transport was sent is kept. A completion is a function of the history, which is no restriction: the
-- history grows between any two completions. A time-out while the model speaks is the aborted
-- completion and then the time-out.
pub mod Turn
pub mod Invariants
pub mod Events
pub mod Safety
pub mod Consent
use ai_phone_plattform.Prelude.{
  ℕ, zero, suc, ◌+◌, Bool, true, false, not, ◌&&◌, ◌||◌, Option, none, some, List, [], ◌∷◌, ◌++◌,
  Text, codes, text_eq, trim, is_empty, find, or_else, ltb, if◌then◌else◌,
}
use ai_phone_plattform.Js
use ai_phone_plattform.Js.{Js, Value}
use ai_phone_plattform.Types.{
  Question, CallStatus, declined, in_progress, MessageRole, assistant, caller, system, Say, lit,
  txt,
}
use ai_phone_plattform.World.{Call, CallState, Message}
use ai_phone_plattform.Exec.{Outcome, ok, threw}
use ai_phone_plattform.Conversation.{says_yes, says_no, upsert_answer}
use ai_phone_plattform.Realtime.Validate.{Validation, valid, invalid, validate_answer_value}

pub data ChatRole : Type 0 where
  system_role user_role assistant_role tool_role : ChatRole

pub record ToolCall : Type 0 where
  pub id : Text
  pub name : Text
  pub arguments : Text

pub record ChatMessage : Type 0 where
  pub role : ChatRole
  pub content : Say
  pub tool_call_id : Option Text
  pub tool_calls : List ToolCall

pub record LlmTurnResult : Type 0 where
  pub text : Text
  pub tool_calls : List ToolCall
  pub usage : ℕ × ℕ

-- The end of a completion, after the deltas that were streamed: a result, an `AbortError` or another error.
pub data Completion : Type 0 where
  finished : LlmTurnResult → Completion
  aborted failed : Completion

-- What `JSON.parse` makes of the arguments of a tool: a syntax error, a value without fields (the
-- access throws), or the fields of a value.
pub data Arguments (N : Type 0) : Type 0 where
  no_json no_fields : Arguments N
  fields : (Text → Value N) → Arguments N

pub record AgentConfig (N : Type 0) : Type 0 where
  pub system_prompt : Text
  pub questions : List (Question N)
  pub consent_given : Bool
  pub max_turns : Option ℕ

-- the agent, the rows of its call, and what went to the transport: the tokens, and how often `end` was called
pub record Session (N : Type 0) : Type 0 where
  pub history : List ChatMessage
  pub consent_given : Bool
  pub turns : ℕ
  pub ended : Bool
  pub call : Call N
  pub sent : List (Say × Bool)
  pub ends : ℕ

pub record Runtime (N : Type 0) : Type 0 where
  pub now : ℕ
  pub complete : List ChatMessage → List Text × Completion
  pub parse : Text → Arguments N

abbrev pub decline_text : Say
decline_text =
    lit
      "Kein Problem, ich verstehe. Sie erreichen unser Team gerne auch persönlich. Vielen Dank für Ihren Anruf und auf Wiederhören."
    ∷ []

abbrev pub consent_retry : Say
consent_retry =
    lit
      "Darf ich Sie kurz fragen: Sind Sie mit der KI-gestützten Bearbeitung einverstanden? Bitte sagen Sie Ja oder Nein."
    ∷ []

abbrev pub wrapup_text : Text
wrapup_text =
    codes "Vielen Dank für das Gespräch. Unser Team meldet sich zeitnah bei Ihnen. Auf Wiederhören."

abbrev ended_at_status : CallStatus → ℕ → Option ℕ → Option ℕ
ended_at_status declined now old = some now
ended_at_status _ now old = old

abbrev usage_onto : Option (ℕ × ℕ) → ℕ × ℕ → ℕ × ℕ
usage_onto none used = used
usage_onto (some old) used = (old.0 + used.0, old.1 + used.1)

abbrev usage_in : ℕ × ℕ → Option CallState → CallState
usage_in used none = record {
  phase = none;
  pending_question_key = none;
  clarify_count = 0;
  realtime_usage = some used;
}
usage_in used (some state) = record state {
  realtime_usage = some (usage_onto state.realtime_usage used);
}

abbrev pub joined : List Text → Text
joined [] = []
joined (d ∷ deltas) = d ++ joined deltas

abbrev pub plain_message : ChatRole → Say → ChatMessage
plain_message role content = record {
  role = role;
  content = content;
  tool_call_id = none;
  tool_calls = [];
}

module _ {N : Type 0} where
  -- `createPrismaStore`
  unfoldable pub save_message : MessageRole → Say → Session N → Session N
  save_message role text s = record s {
    call = record s.call { messages = s.call.messages ++ record { role = role; text = text } ∷ [] };
  }

  unfoldable pub save_answer : Question N → Value N → Text → Session N → Session N
  save_answer q value raw s = record s {
    call = record s.call { answers = upsert_answer q value raw s.call.answers };
  }

  unfoldable pub set_consent : Bool → Session N → Session N
  set_consent given s = record s { call = record s.call { consent_given = given } }

  unfoldable pub set_call_status : CallStatus → ℕ → Session N → Session N
  set_call_status status now s = record s {
    call = record s.call { status = status; ended_at = ended_at_status status now s.call.ended_at };
  }

  unfoldable pub add_usage : ℕ × ℕ → Session N → Session N
  add_usage used s = record s { call = record s.call { state = some (usage_in used s.call.state) } }

  -- `transport.sendToken`, and `history.push`
  unfoldable pub send_token : Say → Bool → Session N → Session N
  send_token token last s = record s { sent = s.sent ++ (token, last) ∷ [] }

  unfoldable pub push : ChatMessage → Session N → Session N
  push m s = record s { history = s.history ++ m ∷ [] }

  unfoldable pub speak : Say → Session N → Session N
  speak text s = send_token text true (save_message assistant text s)

  unfoldable pub end_session : Session N → Session N
  end_session s = record s { ended = true; ends = suc s.ends }

  unfoldable pub finish : Text → Session N → Session N
  finish reason s =
      if s.ended
      then s
      else end_session
          (save_message system (lit "Gespräch beendet (" ∷ txt reason ∷ lit ")." ∷ []) s)

  unfoldable pub send_deltas : List Text → Session N → Session N
  send_deltas [] s = s
  send_deltas (d ∷ deltas) s = send_deltas deltas (send_token (txt d ∷ []) false s)

  abbrev pub voiced : Text → Session N → Session N
  voiced text s = save_message assistant (txt (trim text) ∷ []) (send_token [] true s)

  -- the text that closes the stream of tokens and is stored
  unfoldable pub store_reply : Text → Text → Session N → Session N
  store_reply text spoken s =
      if not (is_empty (trim text))
      then voiced text s
      else if not (is_empty (trim spoken))
      then voiced spoken s
      else s
