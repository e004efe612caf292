-- ===== src/Realtime/Stream.antt =====
-- The client of apps/api/src/realtime/openai-llm.ts: the events of a streamed completion, cut out of the
-- chunks of the response and put together. `JSON.parse` of an event is a parameter, and so are the
-- request and the decoder: a chunk is the text that it decodes to.
pub mod Chunks
use ai_phone_plattform.Prelude.{
  ℕ, Bool, true, false, ◌&&◌, ◌||◌, Option, none, some, or_else, List, [], ◌∷◌, ◌++◌, Text, codes,
  text_eq, is_empty, trim, take, drop, leb, ◌==◌, if◌then◌else◌,
}
use ai_phone_plattform.Realtime.Agent.{ToolCall, LlmTurnResult}

-- A part of a tool call, as an event brings it.
pub record ToolDelta : Type 0 where
  pub index : ℕ
  pub id : Option Text
  pub name : Option Text
  pub arguments : Option Text

pub record StreamDelta : Type 0 where
  pub content : Option Text
  pub tool_calls : List ToolDelta

pub record StreamEvent : Type 0 where
  pub usage : Option (Option ℕ × Option ℕ)
  pub delta : Option StreamDelta

-- What the events have made so far, and the deltas that were passed on.
pub record Assembly : Type 0 where
  pub text : Text
  pub tool_parts : List (ℕ × ToolCall)
  pub usage : ℕ × ℕ
  pub sent : List Text

abbrev pub nothing_yet : Assembly
nothing_yet = record { text = []; tool_parts = []; usage = (0, 0); sent = [] }

abbrev newline : ℕ
newline = 10

abbrev pub onto_head : ℕ → List Text × Text → List Text × Text
onto_head c ([], rest) = ([], c ∷ rest)
onto_head c (frame ∷ frames, rest) = ((c ∷ frame) ∷ frames, rest)

abbrev pub after_frame : List Text × Text → List Text × Text
after_frame (frames, rest) = ([] ∷ frames, rest)

abbrev pub ends_frame : ℕ → ℕ → Bool
ends_frame c d = c == newline && d == newline

-- `buffer.split('\n\n')`, with the last piece, which `pop` takes, apart
unfoldable pub split_frames : Text → List Text × Text
split_frames [] = ([], [])
split_frames (c ∷ []) = ([], c ∷ [])
split_frames (c ∷ d ∷ s) = elim (ends_frame c d) [
  | true ↦ after_frame (split_frames s)
  | false ↦ onto_head c (split_frames (d ∷ s))
]

abbrev onto_line : ℕ → List Text → List Text
onto_line c [] = (c ∷ []) ∷ []
onto_line c (line ∷ lines) = (c ∷ line) ∷ lines

-- `frame.split('\n')`
unfoldable pub lines_of : Text → List Text
lines_of [] = [] ∷ []
lines_of (c ∷ s) = let rest = lines_of s in if c == newline then [] ∷ rest else onto_line c rest

abbrev given : Option Text → Text → Text
given none old = old
given (some []) old = old
given (some (c ∷ s)) old = c ∷ s

abbrev no_call : ToolCall
no_call = record { id = []; name = []; arguments = [] }

abbrev merged : ToolDelta → ToolCall → ToolCall
merged t part = record {
  id = given t.id part.id;
  name = part.name ++ or_else t.name [];
  arguments = part.arguments ++ or_else t.arguments [];
}

-- `toolParts.get`, the changes of the part, and `toolParts.set`
unfoldable pub add_part : ToolDelta → List (ℕ × ToolCall) → List (ℕ × ToolCall)
add_part t [] = (t.index, merged t no_call) ∷ []
add_part t ((i, part) ∷ parts) =
    let rest = add_part t parts in
    if i == t.index then (i, merged t part) ∷ parts else (i, part) ∷ rest

unfoldable pub add_parts : List ToolDelta → List (ℕ × ToolCall) → List (ℕ × ToolCall)
add_parts [] parts = parts
add_parts (t ∷ ts) parts = add_parts ts (add_part t parts)

abbrev used : Option (Option ℕ × Option ℕ) → ℕ × ℕ → ℕ × ℕ
used none old = old
used (some (input, output)) old = (or_else input 0, or_else output 0)

-- an empty content is passed over
abbrev pub spoken : Option Text → Assembly → Assembly
spoken none a = a
spoken (some []) a = a
spoken (some (c ∷ s)) a = record a { text = a.text ++ c ∷ s; sent = a.sent ++ (c ∷ s) ∷ [] }

abbrev pub with_delta : Option StreamDelta → Assembly → Assembly
with_delta none a = a
with_delta (some d) a =
    let b = spoken d.content a in record b { tool_parts = add_parts d.tool_calls b.tool_parts }

abbrev pub take_event : Option StreamEvent → Assembly → Assembly
take_event none a = a
take_event (some e) a = with_delta e.delta (record a { usage = used e.usage a.usage })

abbrev pub is_data : Text → Bool
is_data line = text_eq (take 5 line) (codes "data:")

module _ (parse : Text → Option StreamEvent) where
  abbrev pub take_payload : Text → Assembly → Assembly
  take_payload payload a =
      if is_empty payload || text_eq payload (codes "[DONE]")
      then a
      else take_event (parse payload) a

  abbrev pub take_line : Text → Assembly → Assembly
  take_line line a = if is_data line then take_payload (trim (drop 5 line)) a else a

  unfoldable pub take_lines : List Text → Assembly → Assembly
  take_lines [] a = a
  take_lines (line ∷ lines) a = take_lines lines (take_line line a)

  unfoldable pub take_frames : List Text → Assembly → Assembly
  take_frames [] a = a
  take_frames (frame ∷ frames) a = take_frames frames (take_lines (lines_of frame) a)

  -- the loop over the chunks, with the buffer; what is left in it at the end is dropped
  unfoldable pub read_chunks : Text → List Text → Assembly → Assembly
  read_chunks buffer [] a = a
  read_chunks buffer (chunk ∷ chunks) a =
      let cut = split_frames (buffer ++ chunk) in read_chunks cut.1 chunks (take_frames cut.0 a)

abbrev insert_part : ℕ × ToolCall → List (ℕ × ToolCall) → List (ℕ × ToolCall)
insert_part p [] = p ∷ []
insert_part p (q ∷ parts) =
    let rest = insert_part p parts in if leb p.0 q.0 then p ∷ q ∷ parts else q ∷ rest

-- `sort(([a], [b]) => a - b)`, and the calls without their index
unfoldable pub sort_parts : List (ℕ × ToolCall) → List (ℕ × ToolCall)
sort_parts [] = []
sort_parts (p ∷ parts) = insert_part p (sort_parts parts)

abbrev calls_of : List (ℕ × ToolCall) → List ToolCall
calls_of [] = []
calls_of ((i, part) ∷ parts) = part ∷ calls_of parts

abbrev pub result_of : Assembly → List Text × LlmTurnResult
result_of a = (
  a.sent,
  record { text = a.text; tool_calls = calls_of (sort_parts a.tool_parts); usage = a.usage },
)

-- `complete`, of a response that is read to its end: the deltas that are passed on, and the result
unfoldable pub complete : (Text → Option StreamEvent) → List Text → List Text × LlmTurnResult
complete parse chunks = result_of (read_chunks parse [] chunks nothing_yet)
