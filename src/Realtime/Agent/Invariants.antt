-- ===== src/Realtime/Agent/Invariants.antt =====
-- A predicate that the primitives of apps/api/src/realtime/agent.ts keep holds after a whole turn of
-- the language model, whatever the model answers.
use ai_phone_plattform.Prelude.{
  ℕ, zero, suc, ◌+◌, ◌≡◌, refl, Bool, true, false, Option, none, some, List, [], ◌∷◌, Text, codes,
  text_eq, trim, is_empty, find, not, Bool-cases, inl, inr, ltb, if◌then◌else◌,
}
use ai_phone_plattform.Js.{Js, Value, undefined}
use ai_phone_plattform.Types.{Question, MessageRole, Say}
use ai_phone_plattform.Exec.{Outcome, ok, threw}
use ai_phone_plattform.Realtime.Validate.{Validation, valid, invalid, validate_answer_value}
use ai_phone_plattform.Realtime.Agent.{
  ToolCall, ChatMessage, Completion, finished, aborted, failed, Arguments, no_json, no_fields,
  fields, AgentConfig, Session, Runtime, save_message, save_answer, add_usage, send_token, push,
  speak, end_session, finish, send_deltas, store_reply, voiced,
}
use ai_phone_plattform.Realtime.Agent.Turn.{
  checked_answer, answer_tool, run_tool, parsed_tool, exec_tool, tool_result, run_tools,
  after_tools, on_tools, on_completion, complete_turn, run_hops, wrap_up, count_turn, run_llm_turn,
  max_turns, known_tool, tool_message,
}

module _ (js : Js) (cfg : AgentConfig js.Num) (llm : Runtime js.Num) where
  open js use {Num}

  pub record IsKept (P : Session Num → Type 0) : Type 0 where
    pub message :
        (role : MessageRole) (text : Say) (s : Session Num) → P s → P (save_message role text s)
    pub token : (t : Say) (last : Bool) (s : Session Num) → P s → P (send_token t last s)
    pub pushed : (m : ChatMessage) (s : Session Num) → P s → P (push m s)
    pub usage : (u : ℕ × ℕ) (s : Session Num) → P s → P (add_usage u s)
    pub answer :
        (q : Question Num) (key : Text) (value v : Value Num) (raw : Text) (s : Session Num)
        → find (λ r. text_eq r.key key) cfg.questions ≡ some q
        → validate_answer_value js q value ≡ valid v
        → P s
        → P (save_answer q v raw s)
    pub close : (s : Session Num) → s.ended ≡ false → P s → P (end_session s)

module _ (js : Js) (cfg : AgentConfig js.Num) (llm : Runtime js.Num) (P : Session js.Num → Type 0)
    (kept : IsKept js cfg llm P) where
  open js use {Num}

  pub if-kept : (b : Bool) (x y : Session Num) → P x → (b ≡ false → P y) → P (if b then x else y)
  if-kept true x y h k = h
  if-kept false x y h k = k refl

  pub branch-kept :
      {A : Type 0} (b : Bool) (x y : A × Session Num) → P x.1 → P y.1 → P (if b then x else y).1
  branch-kept true x y h k = h
  branch-kept false x y h k = k

  pub speak-kept : (text : Say) (s : Session Num) → P s → P (speak text s)
  unfolding speak
  speak-kept text s h = kept.token text true _ (kept.message _ text s h)

  finish-kept : (reason : Text) (s : Session Num) → P s → P (finish reason s)
  unfolding finish save_message
  finish-kept reason s h =
      if-kept s.ended s _ h (λ open'. kept.close _ open' (kept.message _ _ s h))

  deltas-kept : (deltas : List Text) (s : Session Num) → P s → P (send_deltas deltas s)
  unfolding send_deltas
  deltas-kept [] s h = h
  deltas-kept (d ∷ deltas) s h = deltas-kept deltas _ (kept.token _ false s h)

  voiced-kept : (text : Text) (s : Session Num) → P s → P (voiced text s)
  voiced-kept text s h = kept.message _ _ _ (kept.token [] true s h)

  reply-kept : (text spoken : Text) (s : Session Num) → P s → P (store_reply text spoken s)
  unfolding store_reply
  reply-kept text spoken s h = elim (Bool-cases (not (is_empty (trim text)))) [
    | inl has_text ↦ rw has_text (voiced-kept text s h)
    | inr no_text ↦ elim (Bool-cases (not (is_empty (trim spoken)))) [
      | inl has_spoken ↦ rw (no_text, has_spoken) (voiced-kept spoken s h)
      | inr nothing ↦ rw (no_text, nothing) h
    ]
  ]

  checked-kept :
      (q : Question Num) (key : Text) (value : Value Num) (r : Validation Num) (s : Session Num)
      → find (λ q. text_eq q.key key) cfg.questions ≡ some q
      → validate_answer_value js q value ≡ r
      → P s
      → P (checked_answer js cfg llm q value r s).1
  checked-kept q key value (invalid reason) s found e h = h
  checked-kept q key value (valid v) s found e h = kept.answer q key value v _ s found e h

  answer-kept :
      (key : Text) (value : Value Num) (q : Option (Question Num)) (s : Session Num)
      → find (λ q. text_eq q.key key) cfg.questions ≡ q
      → P s
      → P (answer_tool js cfg llm key value q s).1
  answer-kept key value none s found h = h
  answer-kept key value (some q) s found h =
      checked-kept q key value (validate_answer_value js q value) s found refl h

  tool-kept :
      (name : Text) (args : Text → Value Num) (s : Session Num)
      → P s
      → P (run_tool js cfg llm name args s).1
  tool-kept name args s h = elim (Bool-cases (text_eq name (codes "save_answer"))) [
    | inl saves ↦ rw saves (answer-kept _ (args (codes "value")) _ s refl h)
    | inr other ↦ elim (Bool-cases (text_eq name (codes "end_call"))) [
      | inl closes ↦ rw (other, closes) (finish-kept (codes "end_call") _ (speak-kept _ s h))
      | inr unknown ↦ rw (other, unknown) h
    ]
  ]

  parsed-kept :
      (name : Text) (a : Arguments Num) (s : Session Num)
      → P s
      → P (parsed_tool js cfg llm name a s).1
  parsed-kept name no_json s h = h
  parsed-kept name no_fields s h = elim (Bool-cases (known_tool js cfg llm name)) [
    | inl known ↦ rw known h
    | inr unknown ↦ rw unknown (tool-kept name (λ _. undefined) s h)
  ]
  parsed-kept name (fields args) s h = tool-kept name args s h

  exec-kept : (call : ToolCall) (s : Session Num) → P s → P (exec_tool js cfg llm call s).1
  unfolding exec_tool
  exec-kept call s h = parsed-kept call.name (llm.parse _) s h

  abbrev Keeps : (Session Num → Outcome (Unit {0}) × Session Num) → Type 0
  Keeps f = (s : Session Num) → P s → P (f s).1

  result-kept :
      (id : Text) (rest : Session Num → Outcome (Unit {0}) × Session Num)
      (r : Outcome Say × Session Num)
      → Keeps rest
      → P r.1
      → P (tool_result js cfg llm id rest r).1
  result-kept id rest (threw, s) k h = h
  result-kept id rest (ok content, s) k h =
      branch-kept s.ended (ok tt, push (tool_message js cfg llm id content) s)
        (rest (push (tool_message js cfg llm id content) s)) (kept.pushed _ s h)
        (k _ (kept.pushed _ s h))

  tools-kept : (calls : List ToolCall) → Keeps (run_tools js cfg llm calls)
  unfolding run_tools
  tools-kept [] s h = h
  tools-kept (call ∷ calls) s h =
      result-kept call.id (run_tools js cfg llm calls) (exec_tool js cfg llm call s)
        (tools-kept calls) (exec-kept call s h)

  after-kept :
      (rest : Session Num → Outcome (Unit {0}) × Session Num) (r : Outcome (Unit {0}) × Session Num)
      → Keeps rest
      → P r.1
      → P (after_tools js cfg llm rest r).1
  after-kept rest (threw, s) k h = h
  after-kept rest (ok _, s) k h = k s h

  on_tools-kept :
      (rest : Session Num → Outcome (Unit {0}) × Session Num) (calls : List ToolCall)
      → Keeps rest
      → Keeps (on_tools js cfg llm rest calls)
  on_tools-kept rest [] k s h = h
  on_tools-kept rest (call ∷ calls) k s h = after-kept rest _ k (tools-kept (call ∷ calls) s h)

  completion-kept :
      (rest : Session Num → Outcome (Unit {0}) × Session Num) (spoken : Text) (c : Completion)
      → Keeps rest
      → Keeps (on_completion js cfg llm rest spoken c)
  completion-kept rest spoken aborted k s h = h
  completion-kept rest spoken failed k s h = h
  completion-kept rest spoken (finished r) k s h =
      on_tools-kept rest r.tool_calls k _
        (kept.pushed _ _ (reply-kept r.text spoken _ (kept.usage r.usage s h)))

  pub hops-kept : (n : ℕ) → Keeps (run_hops js cfg llm n)
  unfolding run_hops
  hops-kept zero s h = h
  hops-kept (suc n) s h =
      branch-kept s.ended (ok tt, s)
        (complete_turn js cfg llm (run_hops js cfg llm n) (llm.complete s.history) s) h
        (completion-kept (run_hops js cfg llm n) _ (llm.complete s.history).1 (hops-kept n) _
          (deltas-kept (llm.complete s.history).0 s h))

  pub wrap_up-kept : (reason : Text) (s : Session Num) → P s → P (wrap_up js cfg llm reason s)
  wrap_up-kept reason s h = finish-kept reason _ (speak-kept _ s h)

  -- Whatever the model answers, a turn of it keeps what the primitives keep.
  pub run_llm_turn-kept :
      ((s : Session Num) → P s → P (count_turn js cfg llm s)) → Keeps (run_llm_turn js cfg llm)
  unfolding run_llm_turn
  run_llm_turn-kept c s h = elim (Bool-cases (ltb (max_turns js cfg llm) (s.turns + 1))) [
    | inl many ↦ rw many (wrap_up-kept _ _ (c s h))
    | inr few ↦ rw few (hops-kept 4 _ (c s h))
  ]
