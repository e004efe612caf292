-- ===== src/Realtime/Relay.antt =====
-- The relay of a streamed call: apps/api/src/realtime/protocol.ts and session.ts. `JSON.parse` is a
-- parameter. Here are the messages and what opens a session; the turns of a session, which the socket
-- does not wait for, are not modelled.
use ai_phone_plattform.Prelude.{
  ℕ, Bool, Option, none, some, List, [], Text, codes, text_eq, String, if◌then◌else◌,
}
use ai_phone_plattform.Js
use ai_phone_plattform.Js.{Js, Value, undefined, null, str}
use ai_phone_plattform.Types.{Question}
use ai_phone_plattform.Questionnaire.{sort_by_order}
use ai_phone_plattform.World.{Call}
use ai_phone_plattform.Exec.{Outcome, ok, threw}
use ai_phone_plattform.Access.Tokens.{Jwt, verify_call_token}
use ai_phone_plattform.Realtime.Agent.{AgentConfig, Arguments, no_json, no_fields, fields}

-- `RelayInbound`
pub data RelayInbound : Type 0 where
  setup prompt : Text → RelayInbound
  interrupt : RelayInbound
  dtmf error other : Text → RelayInbound

-- `typeof msg.type === 'string' ? msg.type : ''`
abbrev pub type_text : {N : Type 0} → Value N → Text
type_text (str t) = t
type_text _ = []

module _ (js : Js) where
  open js use {Num}

  -- `String(v)`, which throws for an object whose `toString` is not a function
  abbrev string_of : (Value Num → Bool) → Value Num → Outcome Text
  string_of prints v = if prints v then ok (Js.to_text js v) else threw

  abbrev field_of :
      (Value Num → Bool)
      → (Text → Value Num)
      → String
      → (Text → RelayInbound)
      → Outcome (Option RelayInbound)
  field_of prints msg name kind = elim (string_of prints (Js.or_empty js (msg (codes name)))) [
    | threw ↦ threw
    | ok text ↦ ok (some (kind text))
  ]

  abbrev pub inbound :
      (Value Num → Bool) → (Text → Value Num) → Text → Outcome (Option RelayInbound)
  inbound prints msg type =
      if text_eq type (codes "setup")
      then field_of prints msg "callSid" setup
      else if text_eq type (codes "prompt")
      then field_of prints msg "voicePrompt" prompt
      else if text_eq type (codes "interrupt")
      then ok (some interrupt)
      else if text_eq type (codes "dtmf")
      then field_of prints msg "digit" dtmf
      else if text_eq type (codes "error")
      then field_of prints msg "description" error
      else ok (some (other type))

  -- `parseRelayMessage`, of the value that `JSON.parse` makes of the text: the access to `null` throws.
  -- Which values print is the runtime's.
  unfoldable pub parse_relay_message :
      (Value Num → Bool) → Arguments Num → Outcome (Option RelayInbound)
  parse_relay_message prints no_json = ok none
  parse_relay_message prints no_fields = threw
  parse_relay_message prints (fields msg) = inbound prints msg (type_text (msg (codes "type")))

-- What opens a session: the row of the call, and what is read beside it.
pub record RelayCall (N : Type 0) : Type 0 where
  pub call : Call N
  pub questions : List (Question N)
  -- `buildRealtimeSystemPrompt`
  pub system_prompt : List (Question N) → Text

abbrev pub agent_config : {N : Type 0} → RelayCall N → AgentConfig N
agent_config r = record {
  system_prompt = r.system_prompt (sort_by_order r.questions);
  questions = sort_by_order r.questions;
  consent_given = r.call.consent_given;
  max_turns = none;
}

pub data Opening (N : Type 0) : Type 0 where
  invalid_token unknown_call : Opening N
  started : RelayCall N → Opening N

abbrev looked_up : {N : Type 0} → Option (RelayCall N) → Opening N
looked_up none = unknown_call
looked_up (some r) = started r

abbrev opened : {N : Type 0} → (Text → Option (RelayCall N)) → Option Text → Opening N
opened find_call none = invalid_token
opened find_call (some id) = looked_up (find_call id)

-- `handleRelaySocket`, up to the first message; an empty id is no id
abbrev non_empty : Option Text → Option Text
non_empty (some []) = none
non_empty o = o

unfoldable pub open_relay :
    {N : Type 0} → Jwt → (Text → Option (RelayCall N)) → ℕ → Text → Opening N
open_relay jwt find_call now token = opened find_call (non_empty (verify_call_token jwt now token))
