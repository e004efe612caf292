-- ===== src/Regex.antt =====
-- Regular expressions of JavaScript as data, with the backtracking matcher that ECMAScript defines:
-- alternatives from left to right, greedy repetition, and the leftmost match of a search. Texts are
-- read one UTF-16 code unit at a time.
use ai_phone_plattform.Prelude.{
  ℕ, zero, suc, ◌-◌, Bool, false, not, Option, none, some, List, [], ◌∷◌, ◌++◌, Text, is_word,
  is_digit, is_space, starts_with, length, take, drop, ◌==◌, if◌then◌else◌,
}

pub data Pattern : Type 0 where
  -- the empty pattern, and one character of a class
  nothing : Pattern
  char : (ℕ → Bool) → Pattern
  -- `\b`, and the lookarounds `(?<![…])` and `(?![…])`
  word_edge : Pattern
  not_after not_before : (ℕ → Bool) → Pattern
  seq alt : Pattern → Pattern → Pattern
  -- `p?`, `[…]*` and a capturing group
  opt : Pattern → Pattern
  many : (ℕ → Bool) → Pattern
  group : Pattern → Pattern

-- A place in a text, and the groups that are captured so far.
pub record Cursor : Type 0 where
  -- the character before, if there is one
  pub before : Option ℕ
  pub rest : Text
  pub groups : List (Option Text)

pub record Match : Type 0 where
  pub whole : Text
  pub groups : List (Option Text)

fits : (ℕ → Bool) → Option ℕ → Bool
fits p none = false
fits p (some c) = p c

next : Text → Option ℕ
next [] = none
next (c ∷ s) = some c

at_edge : Cursor → Bool
at_edge c =
    if fits is_word c.before then not (fits is_word (next c.rest)) else fits is_word (next c.rest)

-- the groups of a pattern that is passed over
absent : Pattern → List (Option Text)
absent (seq p q) = absent p ++ absent q
absent (alt p q) = absent p ++ absent q
absent (opt p) = absent p
absent (group p) = none ∷ absent p
absent _ = []

taken : Text → Text → Text
taken from rest = take (length from - length rest) from

captured : Text → Cursor → Cursor
captured from c = record c { groups = c.groups ++ some (taken from c.rest) ∷ [] }

skipped : Pattern → Cursor → Cursor
skipped p c = record c { groups = c.groups ++ absent p }

step : (ℕ → Bool) → (Cursor → Option Cursor) → Option ℕ → List (Option Text) → Text → Option Cursor
step p k before groups [] = none
step p k before groups (c ∷ s) =
    if p c then k (record { before = some c; rest = s; groups = groups }) else none

longest :
    (ℕ → Bool) → (Cursor → Option Cursor) → Option ℕ → List (Option Text) → Text → Option Cursor
longest p k before groups [] = k (record { before = before; rest = []; groups = groups })
longest p k before groups (c ∷ s) =
    let longer = longest p k (some c) groups s in
    let here = k (record { before = before; rest = c ∷ s; groups = groups }) in
    if p c then (elim longer [ some r ↦ some r | none ↦ here ]) else here

-- The matcher, with the rest of the match as a continuation.
run : Pattern → (Cursor → Option Cursor) → Cursor → Option Cursor
run nothing k c = k c
run (char p) k c = step p k c.before c.groups c.rest
run word_edge k c = if at_edge c then k c else none
run (not_after p) k c = if fits p c.before then none else k c
run (not_before p) k c = if fits p (next c.rest) then none else k c
run (seq p q) k c = run p (λ d. run q k d) c
run (alt p q) k c =
    let right = run q k (skipped p c) in
    elim (run p (λ d. k (skipped q d)) c) [ some r ↦ some r | none ↦ right ]
run (opt p) k c =
    let passed = k (skipped p c) in elim (run p k c) [ some r ↦ some r | none ↦ passed ]
run (many p) k c = longest p k c.before c.groups c.rest
run (group p) k c = run p (λ d. k (captured c.rest d)) c

found : Text → Option Cursor → Option Match
found from none = none
found from (some c) = some (record { whole = taken from c.rest; groups = c.groups })

match_at : Pattern → Option ℕ → Text → Option Match
match_at p before s =
    found s (run p (λ c. some c) (record { before = before; rest = s; groups = [] }))

search_from : Pattern → Option ℕ → Text → Option Match
search_from p before [] = match_at p before []
search_from p before (c ∷ s) =
    let later = search_from p (some c) s in
    elim (match_at p before (c ∷ s)) [ some m ↦ some m | none ↦ later ]

-- `text.match(p)`
unfoldable pub search : Pattern → Text → Option Match
unfolding step longest run found match_at search_from fits next at_edge absent taken captured
    skipped
search p s = search_from p none s

-- `text.replace(w, by)` of a string `w`: its first occurrence
unfoldable pub replace : Text → Text → Text → Text
replace w by [] = if starts_with w [] then by else []
replace w by (c ∷ s) =
    let later = replace w by s in
    if starts_with w (c ∷ s) then by ++ drop (length w) (c ∷ s) else c ∷ later

-- Shorthands for patterns.
abbrev pub lit : Text → Pattern
lit [] = nothing
lit (c ∷ s) = seq (char (λ d. d == c)) (lit s)

abbrev pub alts : Pattern → List Pattern → Pattern
alts p [] = p
alts p (q ∷ ps) = alt p (alts q ps)

abbrev pub digit : Pattern
digit = char is_digit

-- `\d{1,2}` and `\d{n}`
abbrev pub one_or_two : Pattern
one_or_two = seq digit (opt digit)

abbrev pub digits : ℕ → Pattern
digits zero = nothing
digits (suc n) = seq digit (digits n)

-- `\s*` and `\s+`
abbrev pub spaces : Pattern
spaces = many is_space

abbrev pub some_spaces : Pattern
some_spaces = seq (char is_space) (many is_space)
