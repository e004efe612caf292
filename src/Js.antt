-- ===== src/Js.antt =====
-- What the program uses of the JavaScript runtime and what is not text: numbers, the Unicode case
-- table behind `toLowerCase`, and the values of type `unknown` that the program keeps as JSON.
-- Numbers are a parameter: their operations are the runtime's, and `Laws` states the few facts of
-- IEEE 754 comparison and rounding that some theorems use, with an infinite value where arithmetic overflows. `NaN` is a number that is not `===` to
-- itself.
pub mod Order
pub mod Sample
use mathlib.Core.List.{[]}
use ai_phone_plattform.Prelude.{
  ℕ, ◌≤◌, ◌<◌, ◌≡◌, ◌⊎◌, Bool, true, false, not, ◌&&◌, ◌||◌, Text, text_eq, is_empty, codes, some,
  suc, find_number, is_mail, if◌then◌else◌,
}

pub record Js : Type 1 where
  pub Num : Type 0
  -- an integer literal, and the literal n / 10
  pub of_nat : ℕ → Num
  pub tenths : ℕ → Num
  -- `a <= b` and `a === b`
  pub le : Num → Num → Bool
  pub eq : Num → Num → Bool
  pub add : Num → Num → Num
  pub sub : Num → Num → Num
  pub mul : Num → Num → Num
  pub div : Num → Num → Num
  -- `Math.round`
  pub round : Num → Num
  pub is_finite : Num → Bool
  pub nan : Num
  -- `Number.EPSILON`
  pub epsilon : Num
  -- the natural number that a non-negative integer value is
  pub to_nat : Num → ℕ
  -- `Number(s)` of a string, and `String(n)`
  pub to_number : Text → Num
  pub show : Num → Text
  -- `n.toFixed(digits)`
  pub to_fixed : ℕ → Num → Text
  -- `s.toLowerCase()`
  pub to_lower : Text → Text

pub data Value (N : Type 0) : Type 0 where
  undefined null : Value N
  bool : Bool → Value N
  num : N → Value N
  str : Text → Value N
  -- an object or an array, by the text that `String(o)` makes of it
  object : Text → Value N

module _ (js : Js) where
  open js use {
    Num, of_nat, tenths, le, eq, add, div, mul, round, is_finite, nan, epsilon, to_nat, show,
    to_number, to_lower,
  }

  abbrev pub is_number : Num → Bool
  is_number n = eq n n

  -- `a < b`: false if either is NaN
  abbrev pub lt : Num → Num → Bool
  lt a b = is_number a && is_number b && not (le b a)

  -- `Math.min` and `Math.max` of two numbers
  unfoldable pub min : Num → Num → Num
  min a b = if is_number a then (if is_number b then (if le a b then a else b) else b) else a

  unfoldable pub max : Num → Num → Num
  max a b = if is_number a then (if is_number b then (if le a b then b else a) else b) else a

  -- `Boolean(v)`
  abbrev pub truthy : Value Num → Bool
  truthy undefined = false
  truthy null = false
  truthy (bool b) = b
  truthy (num n) = is_number n && not (eq n (of_nat 0))
  truthy (str s) = not (is_empty s)
  truthy (object _) = true

  abbrev bool_eq : Bool → Bool → Bool
  bool_eq true b = b
  bool_eq false b = not b

  -- `v === w`, where no object is compared with itself
  abbrev pub strict_eq : Value Num → Value Num → Bool
  strict_eq undefined undefined = true
  strict_eq null null = true
  strict_eq (bool a) (bool b) = bool_eq a b
  strict_eq (num a) (num b) = eq a b
  strict_eq (str s) (str t) = text_eq s t
  strict_eq _ _ = false

  -- `String(v)`
  abbrev pub to_text : Value Num → Text
  to_text undefined = codes "undefined"
  to_text null = codes "null"
  to_text (bool true) = codes "true"
  to_text (bool false) = codes "false"
  to_text (num n) = show n
  to_text (str s) = s
  to_text (object s) = s

  -- `Number(v)`
  abbrev pub to_num : Value Num → Num
  to_num undefined = nan
  to_num null = of_nat 0
  to_num (bool b) = if b then of_nat 1 else of_nat 0
  to_num (num n) = n
  to_num (str s) = to_number s
  to_num (object s) = to_number s

  -- `v ?? ''`
  abbrev pub or_empty : Value Num → Value Num
  or_empty undefined = str []
  or_empty null = str []
  or_empty v = v

  -- Integers below 2^53 are numbers of the runtime.
  abbrev pub IsExact : ℕ → Type 0
  IsExact n = n < 9007199254740992

  -- Facts of IEEE 754 arithmetic: `<=` orders the numbers that are not NaN, integer literals are
  -- ordered as integers, and multiplication and division by an exact positive integer, and rounding
  -- below one, keep the order. An infinite value is not NaN, and zero times an infinite value and the
  -- quotient of two infinite values are left out.
  pub record Laws : Type 0 where
    pub nat_number : (n : ℕ) → is_number (of_nat n) ≡ true
    pub nat_le : (m n : ℕ) → m ≤ n → le (of_nat m) (of_nat n) ≡ true
    pub le_total :
        (a b : Num) → is_number a ≡ true → is_number b ≡ true → (le a b ≡ true) ⊎ (le b a ≡ true)
    pub le_trans : (a b c : Num) → le a b ≡ true → le b c ≡ true → le a c ≡ true
    pub le_number : (a b : Num) → le a b ≡ true → (is_number a ≡ true) × (is_number b ≡ true)
    pub tenths_le : (m n : ℕ) → m ≤ n → le (tenths m) (tenths n) ≡ true
    pub tenths_pos : (n : ℕ) → le (tenths (suc n)) (of_nat 0) ≡ false
    pub tenths_zero : tenths 0 ≡ of_nat 0
    pub tenths_one : tenths 10 ≡ of_nat 1
    pub div_number :
        (a : Num) (n : ℕ)
        → IsExact (suc n)
        → is_number a ≡ true
        → is_number (div a (of_nat (suc n))) ≡ true
    -- `Number(s)` of the text that `/-?\d+(?:\.\d+)?/` matches is a number
    pub numeral : (s : Text) {t : Text} → find_number s ≡ some t → is_number (to_number t) ≡ true
    -- the lower-case form of a mail address is one
    pub lower_mail : (s : Text) → is_mail s ≡ true → is_mail (to_lower s) ≡ true
    pub mul_mono :
        (n : ℕ) (a b : Num)
        → IsExact (suc n)
        → le a b ≡ true
        → le (mul (of_nat (suc n)) a) (mul (of_nat (suc n)) b) ≡ true
    pub mul_zero : (n : ℕ) → IsExact n → mul (of_nat n) (of_nat 0) ≡ of_nat 0
    pub mul_one : (n : ℕ) → mul (of_nat n) (of_nat 1) ≡ of_nat n
    pub round_mono :
        (n : ℕ) (a b : Num)
        → IsExact n
        → le (of_nat 0) a ≡ true
        → le a b ≡ true
        → le b (of_nat n) ≡ true
        → to_nat (round a) ≤ to_nat (round b)
    pub round_nat : (n : ℕ) → IsExact n → to_nat (round (of_nat n)) ≡ n
    pub finite_number : (a : Num) → is_finite a ≡ true → is_number a ≡ true
    pub nat_finite : (n : ℕ) → IsExact n → is_finite (of_nat n) ≡ true
    pub div_finite :
        (a : Num) (n : ℕ) → is_finite a ≡ true → is_finite (div a (of_nat (suc n))) ≡ true
    pub epsilon_amount : le (of_nat 0) epsilon ≡ true
    pub add_amount :
        (a b : Num)
        → le (of_nat 0) a ≡ true
        → le (of_nat 0) b ≡ true
        → le (of_nat 0) (add a b) ≡ true
    pub mul_amount :
        (a b : Num)
        → le (of_nat 0) a ≡ true
        → le (of_nat 0) b ≡ true
        → is_finite a ≡ true
        → is_finite b ≡ true
        → le (of_nat 0) (mul a b) ≡ true
    pub scale_amount :
        (a : Num) (n : ℕ)
        → IsExact (suc n)
        → le (of_nat 0) a ≡ true
        → le (of_nat 0) (mul a (of_nat (suc n))) ≡ true
    pub div_amount :
        (a : Num) (n : ℕ)
        → IsExact (suc n)
        → le (of_nat 0) a ≡ true
        → le (of_nat 0) (div a (of_nat (suc n))) ≡ true
    pub round_amount : (a : Num) → le (of_nat 0) a ≡ true → le (of_nat 0) (round a) ≡ true
    pub div_mono :
        (a b c : Num)
        → is_finite c ≡ true
        → le c (of_nat 0) ≡ false
        → le a b ≡ true
        → le (div a c) (div b c) ≡ true
