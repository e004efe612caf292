-- ===== src/Export.antt =====
-- The CSV export of apps/api/src/routes/calls.ts: `csvEscape`, and a reader of one
-- field as RFC 4180 describes it, to state what the escape promises.
use ai_phone_plattform.Prelude.{
  ℕ, ◌≡◌, refl, ap, ◌∙◌, arith, Bool, true, false, ◌||◌, Option, none, some, [], ◌∷◌, ◌++◌, Text,
  any, ◌==◌, Bool-cases, or-eq-false, append_assoc, inl, inr, if◌then◌else◌,
}

abbrev quote : ℕ
quote = 34

-- `[",\n]`
abbrev is_special : ℕ → Bool
is_special c = c == quote || c == 44 || c == 10

-- `s.replace(/"/g, '""')`
double_quotes : Text → Text
double_quotes [] = []
double_quotes (c ∷ s) =
    let rest = double_quotes s in if c == quote then quote ∷ quote ∷ rest else c ∷ rest

pub csv_escape : Text → Text
csv_escape s = if any is_special s then quote ∷ (double_quotes s ++ quote ∷ []) else s

abbrev with_char : ℕ → Option (Text × Text) → Option (Text × Text)
with_char c none = none
with_char c (some (field, rest)) = some (c ∷ field, rest)

-- the inside of a quoted field, and what follows its closing quote
read_quoted : Text → Option (Text × Text)
read_quoted [] = none
read_quoted (c ∷ []) = if c == quote then some ([], []) else none
read_quoted (c ∷ d ∷ s) =
    let next = read_quoted (d ∷ s) in
    let later = read_quoted s in
    if c == quote
    then (if d == quote then with_char quote later else some ([], d ∷ s))
    else with_char c next

-- A comma or a line break ends a field without quotes, in which a quote is an error.
abbrev ends_field : ℕ → Bool
ends_field c = c == 44 || (c == 10 || c == 13)

read_plain : Text → Option (Text × Text)
read_plain [] = some ([], [])
read_plain (c ∷ s) =
    let next = read_plain s in
    if ends_field c then some ([], c ∷ s) else if c == quote then none else with_char c next

pub read_field : Text → Option (Text × Text)
read_field [] = some ([], [])
read_field (c ∷ s) = if c == quote then read_quoted s else read_plain (c ∷ s)

-- Text that follows a field: nothing, or a separator, a comma or a line break.
abbrev pub IsSeparated : Text → Type 0
IsSeparated [] = Unit
IsSeparated (c ∷ s) = (c == 44 || (c == 10 || c == 13)) ≡ true

abbrev pub has_return : Text → Bool
has_return s = any (λ c. c == 13) s

read_quoted-char :
    (c : ℕ) (t : Text) → (c == quote) ≡ false → read_quoted (c ∷ t) ≡ with_char c (read_quoted t)
unfolding read_quoted
read_quoted-char c [] h = rw h refl
read_quoted-char c (d ∷ t) h = rw h refl

read_quoted-quotes : (t : Text) → read_quoted (quote ∷ quote ∷ t) ≡ with_char quote (read_quoted t)
unfolding read_quoted
read_quoted-quotes t = refl

read_quoted-double :
    (s rest : Text)
    → IsSeparated rest
    → read_quoted (double_quotes s ++ quote ∷ rest) ≡ some (s, rest)
unfolding read_quoted double_quotes
read_quoted-double [] [] h = refl
read_quoted-double [] (c ∷ rest) h = ground arith
read_quoted-double (c ∷ s) rest h = elim (Bool-cases (c == quote)) [
  | inl quoted ↦
      let same : quote ≡ c = ground arith in
      rw quoted (
        read_quoted-quotes (double_quotes s ++ quote ∷ rest)
        ∙ ap (with_char quote) (read_quoted-double s rest h)
        ∙ ap (λ x. some (x ∷ s, rest)) same)
  | inr plain ↦ rw plain (
      read_quoted-char c (double_quotes s ++ quote ∷ rest) plain
      ∙ ap (with_char c) (read_quoted-double s rest h))
]

read_plain-own :
    (s rest : Text)
    → any is_special s ≡ false
    → has_return s ≡ false
    → IsSeparated rest
    → read_plain (s ++ rest) ≡ some (s, rest)
unfolding read_plain
read_plain-own [] [] n r h = refl
read_plain-own [] (c ∷ rest) n r h = ground arith
read_plain-own (c ∷ s) rest n r h =
    let (own, others) = or-eq-false (is_special c) (any is_special s) n in
    let (text, texts) = or-eq-false (c == 13) (has_return s) r in
    let ends : ends_field c ≡ false = ground arith in
    let unquoted : (c == quote) ≡ false = ground arith in
    rw (ends, unquoted, read_plain-own s rest others texts h) refl

read_plain-field :
    (s rest : Text)
    → any is_special s ≡ false
    → IsSeparated rest
    → read_field (s ++ rest) ≡ read_plain (s ++ rest)
unfolding read_field read_plain
read_plain-field [] [] n h = refl
read_plain-field [] (c ∷ rest) n h = ground arith
read_plain-field (c ∷ s) rest n h = let other : (c == quote) ≡ false = ground arith in rw other refl

-- An escaped text without a carriage return, followed by a comma, a line break or nothing, is read back
-- as it was by the rules of RFC 4180.
pub read_field-csv_escape :
    (s rest : Text)
    → has_return s ≡ false
    → IsSeparated rest
    → read_field (csv_escape s ++ rest) ≡ some (s, rest)
unfolding csv_escape read_field
read_field-csv_escape s rest r h = elim (Bool-cases (any is_special s)) [
  | inl special ↦ rw special (
      ap read_quoted (append_assoc (double_quotes s) (quote ∷ []) rest)
      ∙ read_quoted-double s rest h)
  | inr plain ↦ rw plain (read_plain-field s rest plain h ∙ read_plain-own s rest plain r h)
]
