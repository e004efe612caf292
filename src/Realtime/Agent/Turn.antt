-- ===== src/Realtime/Agent/Turn.antt =====
-- The methods of `DialogueAgent` of apps/api/src/realtime/agent.ts. A method that throws leaves the
-- session as it was at the throw.
use ai_phone_plattform.Prelude.{
  ℕ, zero, suc, ◌+◌, Bool, true, not, ◌&&◌, ◌||◌, Option, none, some, List, [], ◌∷◌, ◌++◌, Text,
  codes, text_eq, trim, is_empty, find, or_else, ltb, if◌then◌else◌,
}
use ai_phone_plattform.Js
use ai_phone_plattform.Js.{Js, Value}
use ai_phone_plattform.Types.{Question, declined, in_progress, caller, Say, lit, txt}
use ai_phone_plattform.Exec.{Outcome, ok, threw}
use ai_phone_plattform.Conversation.{says_yes, says_no}
use ai_phone_plattform.Realtime.Validate.{Validation, valid, invalid, validate_answer_value}
use ai_phone_plattform.Realtime.Agent.{
  user_role, assistant_role, tool_role, ToolCall, ChatMessage, LlmTurnResult, Completion, finished,
  aborted, failed, Arguments, no_json, no_fields, fields, AgentConfig, Session, Runtime,
  decline_text, consent_retry, wrapup_text, save_message, save_answer, set_consent, set_call_status,
  add_usage, push, speak, end_session, finish, send_deltas, joined, store_reply, plain_message,
}

module _ (js : Js) (cfg : AgentConfig js.Num) (llm : Runtime js.Num) where
  open js use {Num}

  abbrev pub said : Say → Session Num → Outcome Say × Session Num
  said outcome s = (ok outcome, s)

  abbrev pub checked_answer :
      Question Num → Value Num → Validation Num → Session Num → Outcome Say × Session Num
  checked_answer q value (invalid reason) s =
      said (lit "FEHLER: " ∷ (reason ++ (lit ". Bitte frage noch einmal nach." ∷ []))) s
  checked_answer q value (valid v) s =
      said (lit "OK: Antwort für \"" ∷ txt q.key ∷ lit "\" gespeichert." ∷ [])
        (save_answer q v (Js.to_text js (Js.or_empty js value)) s)

  abbrev pub answer_tool :
      Text → Value Num → Option (Question Num) → Session Num → Outcome Say × Session Num
  answer_tool key value none s =
      said (lit "FEHLER: unbekannter key \"" ∷ txt key ∷ lit "\"." ∷ []) s
  answer_tool key value (some q) s = checked_answer q value (validate_answer_value js q value) s

  -- `String(args.goodbye ?? '').trim() || WRAPUP_TEXT`
  abbrev pub goodbye_of : Text → Text
  goodbye_of text = if is_empty text then wrapup_text else text

  abbrev pub field_text : (Text → Value Num) → Text → Text
  field_text args name = Js.to_text js (Js.or_empty js (args name))

  abbrev pub run_tool : Text → (Text → Value Num) → Session Num → Outcome Say × Session Num
  run_tool name args s =
      if text_eq name (codes "save_answer")
      then (let key = field_text args (codes "key") in
          answer_tool key (args (codes "value")) (find (λ q. text_eq q.key key) cfg.questions) s)
      else if text_eq name (codes "end_call")
      then said (lit "OK" ∷ []) (
          finish (codes "end_call")
            (speak (txt (goodbye_of (trim (field_text args (codes "goodbye")))) ∷ []) s))
      else said (lit "FEHLER: unbekanntes Tool \"" ∷ txt name ∷ lit "\"." ∷ []) s

  abbrev pub known_tool : Text → Bool
  known_tool name = text_eq name (codes "save_answer") || text_eq name (codes "end_call")

  abbrev pub parsed_tool : Text → Arguments Num → Session Num → Outcome Say × Session Num
  parsed_tool name no_json s = said (lit "FEHLER: ungültige Tool-Argumente (kein JSON)." ∷ []) s
  parsed_tool name no_fields s =
      if known_tool name then (threw, s) else run_tool name (λ _. Value.undefined) s
  parsed_tool name (fields args) s = run_tool name args s

  unfoldable pub exec_tool : ToolCall → Session Num → Outcome Say × Session Num
  exec_tool call s =
      parsed_tool call.name
        (llm.parse (if is_empty call.arguments then codes "{}" else call.arguments)) s

  abbrev pub tool_message : Text → Say → ChatMessage
  tool_message id content = record {
    role = tool_role;
    content = content;
    tool_call_id = some id;
    tool_calls = [];
  }

  abbrev pub tool_result :
      Text
      → (Session Num → Outcome (Unit {0}) × Session Num)
      → Outcome Say × Session Num
      → Outcome (Unit {0}) × Session Num
  tool_result id rest (threw, s) = (threw, s)
  tool_result id rest (ok content, s) =
      let s' = push (tool_message id content) s in if s.ended then (ok tt, s') else rest s'

  -- the `for` over the tool calls; once the call is ended, no further tool runs
  unfoldable pub run_tools : List ToolCall → Session Num → Outcome (Unit {0}) × Session Num
  unfolding exec_tool
  run_tools [] s = (ok tt, s)
  run_tools (call ∷ calls) s = tool_result call.id (run_tools calls) (exec_tool call s)

  abbrev pub after_tools :
      (Session Num → Outcome (Unit {0}) × Session Num)
      → Outcome (Unit {0}) × Session Num
      → Outcome (Unit {0}) × Session Num
  after_tools rest (threw, s) = (threw, s)
  after_tools rest (ok _, s) = rest s

  abbrev pub stored_turn : LlmTurnResult → Text → Session Num → Session Num
  stored_turn r spoken s =
      push
        (record {
          role = assistant_role;
          content = txt r.text ∷ [];
          tool_call_id = none;
          tool_calls = r.tool_calls;
        })
        (store_reply r.text spoken (add_usage r.usage s))

  abbrev pub on_tools :
      (Session Num → Outcome (Unit {0}) × Session Num)
      → List ToolCall
      → Session Num
      → Outcome (Unit {0}) × Session Num
  on_tools rest [] s = (ok tt, s)
  on_tools rest (call ∷ calls) s = after_tools rest (run_tools (call ∷ calls) s)

  abbrev pub on_completion :
      (Session Num → Outcome (Unit {0}) × Session Num)
      → Text
      → Completion
      → Session Num
      → Outcome (Unit {0}) × Session Num
  on_completion rest spoken aborted s = (ok tt, s)
  on_completion rest spoken failed s = (threw, s)
  on_completion rest spoken (finished r) s = on_tools rest r.tool_calls (stored_turn r spoken s)

  abbrev pub complete_turn :
      (Session Num → Outcome (Unit {0}) × Session Num)
      → List Text × Completion
      → Session Num
      → Outcome (Unit {0}) × Session Num
  complete_turn rest (deltas, end) s = on_completion rest (joined deltas) end (send_deltas deltas s)

  -- the loop of `runLlmTurn`, with the number of hops that are left
  unfoldable pub run_hops : ℕ → Session Num → Outcome (Unit {0}) × Session Num
  run_hops zero s = (ok tt, s)
  run_hops (suc n) s =
      if s.ended then (ok tt, s) else complete_turn (run_hops n) (llm.complete s.history) s

  abbrev pub max_turns : ℕ
  max_turns = or_else cfg.max_turns 40

  abbrev pub wrap_up : Text → Session Num → Session Num
  wrap_up reason s = finish reason (speak (txt wrapup_text ∷ []) s)

  abbrev pub count_turn : Session Num → Session Num
  count_turn s = record s { turns = s.turns + 1 }

  unfoldable pub run_llm_turn : Session Num → Outcome (Unit {0}) × Session Num
  run_llm_turn s =
      if ltb max_turns (s.turns + 1)
      then (ok tt, wrap_up (codes "max_turns") (count_turn s))
      else run_hops 4 (count_turn s)

  abbrev pub declined_session : Session Num → Session Num
  declined_session s = end_session (speak decline_text (set_call_status declined llm.now s))

  abbrev pub consented : Text → Session Num → Session Num
  consented text s =
      push (plain_message user_role (txt (trim text) ∷ []))
        (set_call_status in_progress llm.now (set_consent true (record s { consent_given = true })))

  -- the consent gate
  abbrev pub gate : Text → Session Num → Outcome (Unit {0}) × Session Num
  gate text s =
      if says_no text && not (says_yes text)
      then (ok tt, declined_session s)
      else if says_yes text
      then run_llm_turn (consented text s)
      else (ok tt, speak consent_retry s)

  unfoldable pub on_caller_text : Text → Session Num → Outcome (Unit {0}) × Session Num
  on_caller_text text s =
      if s.ended || is_empty (trim text)
      then (ok tt, s)
      else (let heard = save_message caller (txt (trim text) ∷ []) s in
          if s.consent_given
          then run_llm_turn (push (plain_message user_role (txt (trim text) ∷ [])) heard)
          else gate text heard)

  unfoldable pub on_time_up : Session Num → Session Num
  on_time_up s = if s.ended then s else wrap_up (codes "timeout") s
