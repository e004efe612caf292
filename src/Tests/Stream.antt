-- ===== src/Tests/Stream.antt =====
-- A streamed completion whose events are plain texts.
use ai_phone_plattform.Prelude.{
  ◌≡◌, refl, Option, none, some, List, [], ◌∷◌, ◌++◌, Text, codes, trim,
}
use ai_phone_plattform.Realtime.Agent.{joined}
use ai_phone_plattform.Realtime.Stream.{
  StreamEvent, split_frames, lines_of, add_parts, take_lines, take_frames, read_chunks, sort_parts,
  complete,
}
use ai_phone_plattform.Realtime.Stream.Chunks.{complete-eq-whole}

abbrev said : Text → Option StreamEvent
said text =
    some (record { usage = none; delta = some (record { content = some text; tool_calls = [] }) })

-- two events, cut within a word and within the end of a frame
abbrev chunks : List Text
chunks =
    codes "data: Gu"
    ∷ (codes "ten" ++ 10 ∷ [])
    ∷ (10 ∷ codes "data: Tag" ++ 10 ∷ 10 ∷ codes "data: [DONE]" ++ 10 ∷ 10 ∷ [])
    ∷ []

chunks_read : complete said chunks ≡ (
  codes "Guten" ∷ codes "Tag" ∷ [],
  record { text = codes "GutenTag"; tool_calls = []; usage = (0, 0) },
)
unfolding complete read_chunks split_frames lines_of take_lines take_frames add_parts sort_parts
    trim
chunks_read = refl

complete-eq-whole_example : complete said chunks ≡ complete said (joined chunks ∷ [])
complete-eq-whole_example = complete-eq-whole said chunks
