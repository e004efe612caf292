-- ===== src/Prelude/Texts.antt =====
-- JavaScript strings as lists of UTF-16 code units, and the operations of `String.prototype` and the
-- character classes of `RegExp` that the program uses. `toLowerCase` is not here: it is a parameter.
use Prim.Native.Char.{code}
use Prim.Native.Nat.{ℕ}
use Prim.Native.String.{String}
use mathlib.Core.Path.{◌≡◌, refl}
use mathlib.Core.Logic.{◌↔◌}
use mathlib.Core.Bool.{Bool, true, false, ◌&&◌, ◌||◌}
use mathlib.Core.List.{List, [], ◌∷◌, reverse}
use native.Mathlib.Omega.{arith}
use ai_phone_plattform.Prelude.Tests.{leb, ◌==◌, if◌then◌else◌}

abbrev pub Text : Type 0
Text = List ℕ

-- A text literal.
abbrev pub codes : String → Text
codes String.[] = []
codes (String.◌∷◌ c s) = code c ∷ codes s

abbrev pub text_eq : Text → Text → Bool
text_eq [] [] = true
text_eq [] (_ ∷ _) = false
text_eq (_ ∷ _) [] = false
text_eq (a ∷ s) (b ∷ t) = a == b && text_eq s t

pub text_eq_iff : (s t : Text) → (text_eq s t ≡ true) ↔ (s ≡ t)
text_eq_iff [] [] = ground arith
text_eq_iff [] (b ∷ t) = ground arith
text_eq_iff (a ∷ s) [] = ground arith
text_eq_iff (a ∷ s) (b ∷ t) = ground (arith, text_eq_iff s t)

pub text_eq_refl : (s : Text) → text_eq s s ≡ true
text_eq_refl s = (text_eq_iff s s).1 refl

-- `s.startsWith(w)`
abbrev pub starts_with : Text → Text → Bool
starts_with [] s = true
starts_with (a ∷ w) [] = false
starts_with (a ∷ w) (b ∷ s) = a == b && starts_with w s

-- `s.includes(w)`
abbrev pub includes : Text → Text → Bool
includes w [] = starts_with w []
includes w (c ∷ s) = starts_with w (c ∷ s) || includes w s

-- White space as `trim` and `\s` read it.
abbrev pub is_space : ℕ → Bool
is_space c =
    leb 9 c && leb c 13
    || (c == 32 || c == 160 || c == 0x1680 || leb 0x2000 c && leb c 0x200a)
    || (c == 0x2028 || c == 0x2029 || c == 0x202f || c == 0x205f || c == 0x3000 || c == 0xfeff)

abbrev pub drop_spaces : Text → Text
drop_spaces [] = []
drop_spaces (c ∷ s) = let rest = drop_spaces s in if is_space c then rest else c ∷ s

-- `s.trim()`
unfoldable pub trim : Text → Text
trim s = reverse (drop_spaces (reverse (drop_spaces s)))

-- `!s`, for a string
abbrev pub is_empty : Text → Bool
is_empty [] = true
is_empty (_ ∷ _) = false

-- `\d`
abbrev pub is_digit : ℕ → Bool
is_digit c = leb b'0' c && leb c b'9'

-- `\w`
abbrev pub is_word : ℕ → Bool
is_word c = is_digit c || leb b'A' c && leb c b'Z' || (leb b'a' c && leb c b'z' || c == b'_')
