-- ===== src/Realtime/Stream/Chunks.antt =====
-- How a response is cut into chunks makes no difference (apps/api/src/realtime/openai-llm.ts).
use ai_phone_plattform.Prelude.{
  ℕ, ◌≡◌, refl, sym, ap, ◌∙◌, arith, true, false, Option, none, some, List, [], ◌∷◌, ◌++◌, Text,
  append_assoc, Bool-cases, inl, inr, ◌||◌, is_empty, text_eq, codes, trim, drop,
}
use mathlib.Core.List.{append-nil}
use ai_phone_plattform.Realtime.Agent.{joined}
use ai_phone_plattform.Realtime.Stream.{
  StreamEvent, StreamDelta, Assembly, nothing_yet, onto_head, after_frame, ends_frame, split_frames,
  spoken, with_delta, take_event, take_line, take_payload, take_lines, take_frames, lines_of,
  read_chunks, complete, result_of, is_data,
}

-- the frames of what was cut, and then of what is left with a text behind it
abbrev and_then : List Text × Text → Text → List Text × Text
and_then (frames, rest) t = let cut = split_frames (rest ++ t) in (frames ++ cut.0, cut.1)

split-cut :
    (c d : ℕ) (s : Text)
    → ends_frame c d ≡ true
    → split_frames (c ∷ d ∷ s) ≡ after_frame (split_frames s)
unfolding split_frames
split-cut c d s e =
    ap
      (λ b. elim b [
        | true ↦ after_frame (split_frames s)
        | false ↦ onto_head c (split_frames (d ∷ s))
      ])
      e

split-on :
    (c d : ℕ) (s : Text)
    → ends_frame c d ≡ false
    → split_frames (c ∷ d ∷ s) ≡ onto_head c (split_frames (d ∷ s))
unfolding split_frames
split-on c d s e =
    ap
      (λ b. elim b [
        | true ↦ after_frame (split_frames s)
        | false ↦ onto_head c (split_frames (d ∷ s))
      ])
      e

onto_head-none :
    (c : ℕ) (cut : List Text × Text)
    → (onto_head c cut).0 ≡ []
    → (cut.0 ≡ []) × ((onto_head c cut).1 ≡ c ∷ cut.1)
onto_head-none c ([], rest) h = (refl, refl)
onto_head-none c (frame ∷ frames, rest) h = cc

-- A text without a frame is left as it is.
whole : (s : Text) → (split_frames s).0 ≡ [] → (split_frames s).1 ≡ s
unfolding split_frames
whole [] h = refl
whole (c ∷ []) h = refl
whole (c ∷ d ∷ s) h = elim (Bool-cases (ends_frame c d)) [
  | inl cut ↦ absurd (ground (arith, rw (split-cut c d s cut) at h))
  | inr on ↦
      let rest = onto_head-none c (split_frames (d ∷ s)) (rw (split-on c d s on) at h) in
      rw (split-on c d s on) (rest.1 ∙ ap (λ l. c ∷ l) (whole (d ∷ s) rest.0))
]

left_whole : (s rest : Text) → split_frames s ≡ ([], rest) → rest ≡ s
left_whole s rest e =
    sym (ap (λ (x : List Text × Text). x.1) e) ∙ whole s (ap (λ (x : List Text × Text). x.0) e)

onto_head-and_then :
    (c : ℕ) (s t : Text) (cut : List Text × Text)
    → split_frames s ≡ cut
    → split_frames (c ∷ s ++ t) ≡ onto_head c (split_frames (s ++ t))
    → onto_head c (and_then cut t) ≡ and_then (onto_head c cut) t
onto_head-and_then c s t ([], rest) e on = rw (left_whole s rest e) (sym on)
onto_head-and_then c s t (frame ∷ frames, rest) e on = refl

-- Cutting a text and then what is behind it is cutting both at once.
split_frames-append : (s t : Text) → split_frames (s ++ t) ≡ and_then (split_frames s) t
unfolding split_frames
split_frames-append [] t = refl
split_frames-append (c ∷ []) t = refl
split_frames-append (c ∷ d ∷ s) t = elim (Bool-cases (ends_frame c d)) [
  | inl cut ↦
      split-cut c d (s ++ t) cut
      ∙ ap after_frame (split_frames-append s t)
      ∙ ap (λ x. and_then x t) (sym (split-cut c d s cut))
  | inr on ↦
      split-on c d (s ++ t) on
      ∙ ap (onto_head c) (split_frames-append (d ∷ s) t)
      ∙ onto_head-and_then c (d ∷ s) t (split_frames (d ∷ s)) refl (split-on c d (s ++ t) on)
      ∙ ap (λ x. and_then x t) (sym (split-on c d s on))
]

onto_head-rest :
    (c d : ℕ) (s : Text) (cut : List Text × Text)
    → split_frames (d ∷ s) ≡ cut
    → ends_frame c d ≡ false
    → (split_frames cut.1).0 ≡ []
    → (split_frames (onto_head c cut).1).0 ≡ []
onto_head-rest c d s ([], rest) e on h =
    rw (left_whole (d ∷ s) rest e)
      (ap (λ (x : List Text × Text). x.0) (split-on c d s on ∙ ap (onto_head c) e))
onto_head-rest c d s (frame ∷ frames, rest) e on h = h

-- What is left has no frame.
rest-frames : (s : Text) → (split_frames (split_frames s).1).0 ≡ []
unfolding split_frames
rest-frames [] = refl
rest-frames (c ∷ []) = refl
rest-frames (c ∷ d ∷ s) = elim (Bool-cases (ends_frame c d)) [
  | inl cut ↦
      ap (λ (x : List Text × Text). (split_frames x.1).0) (split-cut c d s cut) ∙ rest-frames s
  | inr on ↦
      ap (λ (x : List Text × Text). (split_frames x.1).0) (split-on c d s on)
      ∙ onto_head-rest c d s (split_frames (d ∷ s)) refl on (rest-frames (d ∷ s))
]

module _ (parse : Text → Option StreamEvent) where
  take_frames-append :
      (fs gs : List Text) (a : Assembly)
      → take_frames parse (fs ++ gs) a ≡ take_frames parse gs (take_frames parse fs a)
  unfolding take_frames
  take_frames-append [] gs a = refl
  take_frames-append (f ∷ fs) gs a = take_frames-append fs gs (take_lines parse (lines_of f) a)

  -- The loop takes the frames of the buffer with all chunks behind it.
  read_chunks-eq-take :
      (buffer : Text) (chunks : List Text) (a : Assembly)
      → (split_frames buffer).0 ≡ []
      → read_chunks parse buffer chunks a
        ≡ take_frames parse (split_frames (buffer ++ joined chunks)).0 a
  unfolding read_chunks take_frames
  read_chunks-eq-take buffer [] a h = rw (append-nil buffer, h) refl
  read_chunks-eq-take buffer (chunk ∷ chunks) a h =
      let cut = split_frames (buffer ++ chunk) in
      read_chunks-eq-take cut.1 chunks (take_frames parse cut.0 a) (rest-frames (buffer ++ chunk))
      ∙ sym (take_frames-append cut.0 (split_frames (cut.1 ++ joined chunks)).0 a)
      ∙ ap (λ (x : List Text × Text). take_frames parse x.0 a)
          (sym (split_frames-append (buffer ++ chunk) (joined chunks)))
      ∙ ap (λ l. take_frames parse (split_frames l).0 a) (append_assoc buffer chunk (joined chunks))

  -- However a response is cut into chunks, the deltas that are passed on and the result are those of
  -- the whole response in one chunk.
  pub complete-eq-whole :
      (chunks : List Text) → complete parse chunks ≡ complete parse (joined chunks ∷ [])
  unfolding complete split_frames
  complete-eq-whole chunks = ap result_of (
      read_chunks-eq-take [] chunks nothing_yet refl
      ∙ ap (λ l. take_frames parse (split_frames l).0 nothing_yet)
          (sym (append-nil (joined chunks)))
      ∙ sym (read_chunks-eq-take [] (joined chunks ∷ []) nothing_yet refl))

-- What was passed on is the text.
abbrev IsSpoken : Assembly → Type 0
IsSpoken a = joined a.sent ≡ a.text

joined-append : (ds : List Text) (d : Text) → joined (ds ++ d ∷ []) ≡ joined ds ++ d
joined-append [] d = append-nil d
joined-append (e ∷ ds) d =
    ap (λ l. e ++ l) (joined-append ds d) ∙ sym (append_assoc e (joined ds) d)

spoken-IsSpoken : (content : Option Text) (a : Assembly) → IsSpoken a → IsSpoken (spoken content a)
spoken-IsSpoken none a h = h
spoken-IsSpoken (some []) a h = h
spoken-IsSpoken (some (c ∷ s)) a h = joined-append a.sent (c ∷ s) ∙ ap (λ l. l ++ c ∷ s) h

with_delta-IsSpoken :
    (d : Option StreamDelta) (a : Assembly) → IsSpoken a → IsSpoken (with_delta d a)
with_delta-IsSpoken none a h = h
with_delta-IsSpoken (some d) a h = spoken-IsSpoken d.content a h

take_event-IsSpoken :
    (e : Option StreamEvent) (a : Assembly) → IsSpoken a → IsSpoken (take_event e a)
take_event-IsSpoken none a h = h
take_event-IsSpoken (some e) a h = with_delta-IsSpoken e.delta _ h

module _ (parse : Text → Option StreamEvent) where
  take_payload-IsSpoken :
      (payload : Text) (a : Assembly) → IsSpoken a → IsSpoken (take_payload parse payload a)
  take_payload-IsSpoken payload a h =
      elim (Bool-cases (is_empty payload || text_eq payload (codes "[DONE]"))) [
        | inl passed ↦ rw passed h
        | inr event ↦ rw event (take_event-IsSpoken (parse payload) a h)
      ]

  take_line-IsSpoken : (line : Text) (a : Assembly) → IsSpoken a → IsSpoken (take_line parse line a)
  take_line-IsSpoken line a h = elim (Bool-cases (is_data line)) [
    | inl data_line ↦ rw data_line (take_payload-IsSpoken (trim (drop 5 line)) a h)
    | inr other ↦ rw other h
  ]

  take_lines-IsSpoken :
      (lines : List Text) (a : Assembly) → IsSpoken a → IsSpoken (take_lines parse lines a)
  unfolding take_lines
  take_lines-IsSpoken [] a h = h
  take_lines-IsSpoken (line ∷ lines) a h =
      take_lines-IsSpoken lines (take_line parse line a) (take_line-IsSpoken line a h)

  take_frames-IsSpoken :
      (frames : List Text) (a : Assembly) → IsSpoken a → IsSpoken (take_frames parse frames a)
  unfolding take_frames
  take_frames-IsSpoken [] a h = h
  take_frames-IsSpoken (frame ∷ frames) a h =
      take_frames-IsSpoken frames _ (take_lines-IsSpoken (lines_of frame) a h)

  -- The deltas that are passed on to be spoken are, one behind the other, the text of the result.
  pub complete-joined :
      (chunks : List Text) → joined (complete parse chunks).0 ≡ (complete parse chunks).1.text
  unfolding complete split_frames
  complete-joined chunks =
      rw (read_chunks-eq-take parse [] chunks nothing_yet refl)
        (take_frames-IsSpoken (split_frames (joined chunks)).0 nothing_yet refl)
