-- ===== src/Dates/Clock.antt =====
-- `parseTime` of packages/shared/src/datetime-nl.ts.
use ai_phone_plattform.Prelude.{
  ℕ, zero, suc, ◌+◌, ◌-◌, ◌*◌, ◌%◌, Bool, not, ◌&&◌, ◌||◌, Option, none, some, List, [], ◌∷◌, Text,
  codes, text_eq, is_digit, all, leb, ltb, ◌==◌, is_some, is_empty, if◌then◌else◌,
}
use ai_phone_plattform.Regex.{
  Pattern, char, word_edge, not_after, not_before, seq, alt, opt, many, group, Match, search, lit,
  alts, one_or_two, digits, spaces, some_spaces,
}

pub record ClockTime : Type 0 where
  pub hour : ℕ
  pub minute : ℕ

abbrev pub clock : ℕ → ℕ → ClockTime
clock h m = record { hour = h; minute = m }

-- `Number(s)` of digits
abbrev decimal : ℕ → Text → ℕ
decimal n [] = n
decimal n (c ∷ s) = decimal (n * 10 + (c - b'0')) s

abbrev pub numeral : Text → ℕ
numeral s = decimal 0 s

-- the text of a group, where no group is empty if it takes part in the match
abbrev pub group_at : ℕ → List (Option Text) → Text
group_at n [] = []
group_at zero (none ∷ gs) = []
group_at zero (some s ∷ gs) = s
group_at (suc n) (g ∷ gs) = group_at n gs

-- `(?::(\d{2}))?`
abbrev minutes_part : Pattern
minutes_part = opt (seq (lit (codes ":")) (group (digits 2)))

-- `/\b(\d{1,2})(?::(\d{2}))?\s*(am|pm)\b/`
pub ampm_pattern : Pattern
ampm_pattern = seq word_edge (
    seq (group one_or_two) (
      seq minutes_part
        (seq spaces (seq (group (alt (lit (codes "am")) (lit (codes "pm")))) word_edge))))

-- a character of `[a-zäöüß]`
abbrev is_german : ℕ → Bool
is_german c = leb b'a' c && leb c b'z' || c == 0xe4 || c == 0xf6 || (c == 0xfc || c == 0xdf)

-- `(uhr|o'?clock|:|\bum\b|\bat\b|\bgegen\b)`, and `(?:uhr|o'?clock)?`
abbrev o_clock : Pattern
o_clock = seq (lit (codes "o")) (seq (opt (lit (codes "'"))) (lit (codes "clock")))

abbrev whole_word : Text → Pattern
whole_word w = seq word_edge (seq (lit w) word_edge)

pub cue_pattern : Pattern
cue_pattern = alts (lit (codes "uhr")) (
    o_clock
    ∷ lit (codes ":")
    ∷ whole_word (codes "um")
    ∷ whole_word (codes "at")
    ∷ whole_word (codes "gegen")
    ∷ [])

-- `/\b(\d{1,2})(?::(\d{2}))?\s*(?:uhr|o'?clock)?\b/`
pub hour_pattern : Pattern
hour_pattern = seq word_edge (
    seq (group one_or_two)
      (seq minutes_part (seq spaces (seq (opt (alt (lit (codes "uhr")) o_clock)) word_edge))))

-- `DE_NUM`, with 0 for a missing word
abbrev spelled : List (Text × ℕ) → Text → ℕ
spelled [] s = 0
spelled ((w, n) ∷ ws) s = let rest = spelled ws s in if text_eq w s then n else rest

abbrev de_num : List (Text × ℕ)
de_num =
    (codes "eins", 1)
    ∷ (codes "ein", 1)
    ∷ (codes "zwei", 2)
    ∷ (codes "drei", 3)
    ∷ (codes "vier", 4)
    ∷ (codes "fünf", 5)
    ∷ (codes "sechs", 6)
    ∷ (codes "sieben", 7)
    ∷ (codes "acht", 8)
    ∷ (codes "neun", 9)
    ∷ (codes "zehn", 10)
    ∷ (codes "elf", 11)
    ∷ (codes "zwölf", 12)
    ∷ []

abbrev pub in_day : ℕ → ℕ → Option ClockTime
in_day h m = if leb h 23 && leb m 59 then some (clock h m) else none

abbrev pub on_24h : Text → ℕ → ℕ
on_24h half h =
    let later = if text_eq half (codes "pm") && ltb h 12 then h + 12 else h in
    if text_eq half (codes "am") && later == 12 then 0 else later

abbrev pub ampm_time : Option Match → Option ClockTime
ampm_time none = none
ampm_time (some m) =
    in_day (on_24h (group_at 2 m.groups) (numeral (group_at 0 m.groups)))
      (numeral (group_at 1 m.groups))

abbrev pub half_number : Text → ℕ
half_number raw = if not (is_empty raw) && all is_digit raw then numeral raw else spelled de_num raw

abbrev pub half_of : ℕ → Option ClockTime
half_of n = if leb 1 n && leb n 24 then some (clock ((n + 23) % 24) 30) else none

abbrev pub half_time : Option Match → Option ClockTime
half_time none = none
half_time (some m) = half_of (half_number (group_at 0 m.groups))

abbrev pub hour_time : Option Match → Option ClockTime
hour_time none = none
hour_time (some m) = in_day (numeral (group_at 0 m.groups)) (numeral (group_at 1 m.groups))

abbrev pub first_of {ℓ} : {A : Type ℓ} → Option A → Option A → Option A
first_of none other = other
first_of (some a) other = some a

module _ (is_letter : ℕ → Bool) where
  -- a character of `[\p{L}\d]`
  abbrev pub in_word : ℕ → Bool
  in_word c = is_letter c || is_digit c

  -- `B`: a whole word, by the letters of Unicode
  abbrev pub word : Pattern → Pattern
  word p = seq (not_after in_word) (seq p (not_before in_word))

  -- `/(?<![\p{L}\d])halb\s+([a-zäöüß]+|\d{1,2})(?![\p{L}\d])/u`
  pub half_pattern : Pattern
  half_pattern = word (
      seq (lit (codes "halb"))
        (seq some_spaces (group (alt (seq (char is_german) (many is_german)) one_or_two))))

  unfoldable pub parse_time : Text → Option ClockTime
  unfolding ampm_pattern half_pattern cue_pattern hour_pattern
  parse_time text = first_of (ampm_time (search ampm_pattern text)) (
      first_of (half_time (search half_pattern text))
        (if is_some (search cue_pattern text) then hour_time (search hour_pattern text) else none))
