-- ===== src/Prelude/Patterns.antt =====
-- The regular expressions that several components share, as matchers.
use ai_phone_plattform.Prelude.Tests.{◌==◌, leb, if◌then◌else◌}
use ai_phone_plattform.Prelude.Lists.{length, keep}
use ai_phone_plattform.Prelude.Texts.{Text, is_digit, is_space, is_word}
use Prim.Native.Nat.{ℕ, ◌-◌}
use mathlib.Core.Bool.{Bool, true, false, ◌&&◌, ◌||◌, not}
use mathlib.Core.List.{List, [], ◌∷◌, ◌++◌}
use mathlib.Core.Option.{Option, none, some}

-- The longest start of a text whose characters pass a test, and the rest.
abbrev pub span : (ℕ → Bool) → Text → Text × Text
span p [] = ([], [])
span p (c ∷ s) = let (run, rest) = span p s in if p c then (c ∷ run, rest) else ([], c ∷ s)

-- `[^\s@]`
abbrev pub is_mail_char : ℕ → Bool
is_mail_char c = not (is_space c) && not (c == b'@')

-- a dot with a character behind it
abbrev dot_inside : Text → Bool
dot_inside [] = false
dot_inside (c ∷ []) = false
dot_inside (c ∷ d ∷ s) = c == b'.' || dot_inside (d ∷ s)

-- `[^\s@]+\.[^\s@]+`, of a run of such characters
abbrev pub is_domain : Text → Bool
is_domain [] = false
is_domain (c ∷ s) = dot_inside s

-- `[^\s@]+@[^\s@]+\.[^\s@]+` at the start of a text: the match, which ends where the run behind the
-- `@` ends, and the rest.
abbrev pub mail_domain : Text → Text × Text → Option (Text × Text)
mail_domain user (domain, rest) =
    if is_domain domain then some (user ++ (b'@' ∷ domain), rest) else none

abbrev pub mail_user : Text × Text → Option (Text × Text)
mail_user ([], rest) = none
mail_user (c ∷ user, []) = none
mail_user (c ∷ user, at ∷ rest) =
    if at == b'@' then mail_domain (c ∷ user) (span is_mail_char rest) else none

unfoldable pub mail_at : Text → Option (Text × Text)
mail_at s = mail_user (span is_mail_char s)

-- `text.match(/[^\s@]+@[^\s@]+\.[^\s@]+/)`: the leftmost match
unfoldable pub find_mail : Text → Option Text
unfolding mail_at
find_mail [] = none
find_mail (c ∷ s) =
    let later = find_mail s in
    elim (mail_at (c ∷ s)) [ some (found, _) ↦ some found | none ↦ later ]

-- `/^[^\s@]+@[^\s@]+\.[^\s@]+$/.test(s)`
abbrev pub is_whole : Option (Text × Text) → Bool
is_whole (some (_, [])) = true
is_whole _ = false

unfoldable pub is_mail : Text → Bool
unfolding mail_at
is_mail s = is_whole (mail_at s)

-- `\d+(?:\.\d+)?` at the start of a text that begins with a digit
abbrev fraction : Text → Text
fraction [] = []
fraction (c ∷ []) = []
fraction (c ∷ d ∷ s) = if c == b'.' && is_digit d then c ∷ (span is_digit (d ∷ s)).0 else []

abbrev decimal_at : Text → Text
decimal_at s = let (whole, rest) = span is_digit s in whole ++ fraction rest

abbrev starts_with_digit : Text → Bool
starts_with_digit [] = false
starts_with_digit (c ∷ s) = is_digit c

-- `text.match(/-?\d+(?:\.\d+)?/)`: the leftmost match
unfoldable pub find_number : Text → Option Text
find_number [] = none
find_number (c ∷ s) =
    let later = find_number s in
    if c == b'-' && starts_with_digit s
    then some (c ∷ decimal_at s)
    else if is_digit c
    then some (decimal_at (c ∷ s))
    else later

-- `text.replace(/[^\d+]/g, '')`, and the count of its digits
abbrev pub is_dial_char : ℕ → Bool
is_dial_char c = is_digit c || c == b'+'

unfoldable pub dial_chars : Text → Text
dial_chars = keep is_dial_char

unfoldable pub digit_count : Text → ℕ
digit_count s = length (keep is_digit s)

-- `/i`: letters are compared in upper case. No character outside ASCII and ö/Ö folds onto a letter
-- of the program's patterns.
abbrev fold_case : ℕ → ℕ
fold_case c = if leb b'a' c && leb c b'z' then c - 32 else if c == 0xf6 then 0xd6 else c

abbrev pub fold : Text → Text
fold [] = []
fold (c ∷ s) = fold_case c ∷ fold s

-- `\b` between the character before and the text behind
abbrev word_first : Text → Bool
word_first [] = false
word_first (c ∷ s) = is_word c

abbrev pub boundary : Bool → Text → Bool
boundary before s = if before then not (word_first s) else word_first s

-- the pattern `w\b` at the start of a text, where `last` says whether `w` ends in a `\w`
abbrev word_at : Bool → Text → Text → Bool
word_at before [] s = boundary before s
word_at before (a ∷ w) [] = false
word_at before (a ∷ w) (c ∷ s) = fold_case a == fold_case c && word_at (is_word c) w s

abbrev any_word_at : List Text → Text → Bool
any_word_at [] s = false
any_word_at (w ∷ ws) s = word_at false w s || any_word_at ws s

-- `/\b(w1|w2|…)\b/i.test(s)`, from a place whose previous character is a `\w` or not
abbrev pub word_from : Bool → List Text → Text → Bool
word_from before ws [] = boundary before [] && any_word_at ws []
word_from before ws (c ∷ s) =
    boundary before (c ∷ s) && any_word_at ws (c ∷ s) || word_from (is_word c) ws s

unfoldable pub has_word : List Text → Text → Bool
has_word ws s = word_from false ws s
