-- ===== src/Js/Sample.antt =====
-- A runtime to try the model with: numbers are thousandths from 0 up, texts are in lower case.
use ai_phone_plattform.Prelude.{
  ℕ, suc, ◌+◌, ◌-◌, ◌*◌, ◌/◌, ◌≤◌, ◌<◌, false, ◌≡◌, ◌⊎◌, refl, true, [], ◌∷◌, Text, codes, arith,
  leb, ◌==◌, is_digit, if◌then◌else◌,
}
use ai_phone_plattform.Js
use ai_phone_plattform.Js.{Js}

abbrev read_digits : ℕ → Text → ℕ
read_digits n [] = n
read_digits n (c ∷ s) = read_digits (if is_digit c then n * 10 + (c - 48) else n) s

abbrev pub sample : Js
sample = record {
  Num = ℕ;
  of_nat = λ n. n * 1000;
  tenths = λ n. n * 100;
  le = leb;
  eq = ◌==◌;
  add = ◌+◌;
  sub = ◌-◌;
  mul = λ a b. a * b / 1000;
  div = λ a b. a * 1000 / b;
  round = λ a. (a + 500) / 1000 * 1000;
  is_finite = λ a. true;
  nan = 0;
  epsilon = 0;
  to_nat = λ a. a / 1000;
  to_fixed = λ d a. codes "n";
  to_number = λ s. read_digits 0 s * 1000;
  show = λ a. codes "n";
  to_lower = λ s. s;
}

number : (n : ℕ) → (n == n) ≡ true
number n = ground arith

ordered : (m n : ℕ) → m ≤ n → leb m n ≡ true
ordered m n h = ground arith

positive : (n : ℕ) → 0 < n → leb n 0 ≡ false
positive n h = ground arith

total : (a b : ℕ) → (leb a b ≡ true) ⊎ (leb b a ≡ true)
total a b = ground arith

transitive : (a b c : ℕ) → leb a b ≡ true → leb b c ≡ true → leb a c ≡ true
transitive a b c h k = ground arith

scaled : (n a b : ℕ) → leb a b ≡ true → leb (n * 1000 * a / 1000) (n * 1000 * b / 1000) ≡ true
scaled n a b h =
    let below : a ≤ b = ground arith in
    let more : n * a ≤ n * b = grind arith in
    ordered (n * 1000 * a / 1000) (n * 1000 * b / 1000) (omega arith)

div_mono : (c a b : ℕ) → 0 < c → a ≤ b → a / c ≤ b / c
div_mono c a b p h = grind arith

rounded :
    (a b : ℕ) → leb a b ≡ true → (a + 500) / 1000 * 1000 / 1000 ≤ (b + 500) / 1000 * 1000 / 1000
rounded a b h = let below : a ≤ b = ground arith in omega arith

shared :
    (a b c : ℕ)
    → true ≡ true
    → leb c 0 ≡ false
    → leb a b ≡ true
    → leb (a * 1000 / c) (b * 1000 / c) ≡ true
shared a b c _ p h =
    let below : a ≤ b = ground arith in
    ordered (a * 1000 / c) (b * 1000 / c)
      (div_mono c (a * 1000) (b * 1000) (ground arith) (omega arith))

pub sample-Laws : Js.Laws sample
sample-Laws = record {
  nat_number = λ n. number (n * 1000);
  nat_le = λ m n h. ordered (m * 1000) (n * 1000) (omega arith);
  le_total = λ a b _ _. total a b;
  le_trans = transitive;
  le_number = λ a b _. (number a, number b);
  tenths_le = λ m n h. ordered (m * 100) (n * 100) (omega arith);
  tenths_pos = λ n. positive ((suc n) * 100) (omega arith);
  tenths_zero = refl;
  tenths_one = refl;
  div_number = λ a n _ _. number (a * 1000 / ((suc n) * 1000));
  numeral = λ s {t} _. number (read_digits 0 t * 1000);
  lower_mail = λ s h. h;
  mul_mono = λ n a b _ h. scaled (suc n) a b h;
  mul_zero = λ n _. omega arith;
  mul_one = λ n. omega arith;
  round_mono = λ n a b _ _ h _. rounded a b h;
  round_nat = λ n _. omega arith;
  finite_number = λ a _. number a;
  nat_finite = λ n _. refl;
  div_finite = λ a n _. refl;
  epsilon_amount = refl;
  add_amount = λ a b _ _. ordered 0 (a + b) (omega arith);
  mul_amount = λ a b _ _ _ _. ordered 0 (a * b / 1000) (omega arith);
  scale_amount = λ a n _ _. ordered 0 (a * (suc n * 1000) / 1000) (omega arith);
  div_amount = λ a n _ _. ordered 0 (a * 1000 / (suc n * 1000)) (omega arith);
  div_mono = shared;
  round_amount = λ a _. ordered 0 ((a + 500) / 1000 * 1000) (omega arith);
}
