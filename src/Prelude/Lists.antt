-- ===== src/Prelude/Lists.antt =====
-- Lists measured by native numbers, Boolean searches of a list, and predicates on its items.
use Prim.Native.Nat.{ℕ, zero, suc, ◌+◌, ◌-◌, ◌≤◌}
use mathlib.Core.Path.{◌≡◌, refl, ap, subst}
use mathlib.Core.Logic.{inl, inr}
use mathlib.Core.Bool.{Bool, true, false, ◌&&◌, ◌||◌}
use mathlib.Core.Option.{Option, none, some}
use mathlib.Core.List.{List, [], ◌∷◌, ◌++◌, Memᴰ}
use native.Mathlib.Omega.{arith}
use ai_phone_plattform.Prelude.Tests.{if◌then◌else◌, Bool-cases}

module _ {ℓ} {A : Type ℓ} where
  abbrev pub length : List A → ℕ
  length [] = 0
  length (x ∷ xs) = suc (length xs)

  abbrev pub take : ℕ → List A → List A
  take zero xs = []
  take (suc n) [] = []
  take (suc n) (x ∷ xs) = x ∷ take n xs

  abbrev pub drop : ℕ → List A → List A
  drop zero xs = xs
  drop (suc n) [] = []
  drop (suc n) (x ∷ xs) = drop n xs

  -- `xs.find(p)`
  abbrev pub find : (A → Bool) → List A → Option A
  find p [] = none
  find p (x ∷ xs) = if p x then some x else find p xs

  -- `xs.some(p)`
  abbrev pub any : (A → Bool) → List A → Bool
  any p [] = false
  any p (x ∷ xs) = p x || any p xs

  -- `xs.every(p)`
  abbrev pub all : (A → Bool) → List A → Bool
  all p [] = true
  all p (x ∷ xs) = p x && all p xs

  -- `xs.filter(p)`
  abbrev pub keep : (A → Bool) → List A → List A
  keep p [] = []
  keep p (x ∷ xs) = let rest = keep p xs in if p x then x ∷ rest else rest

  pub length-append : (xs ys : List A) → length (xs ++ ys) ≡ length xs + length ys
  length-append [] ys = omega arith
  length-append (x ∷ xs) ys = omega (arith, length-append xs ys)

  pub length-take : (n : ℕ) (xs : List A) → length (take n xs) ≤ n
  length-take zero xs = omega arith
  length-take (suc n) [] = omega arith
  length-take (suc n) (x ∷ xs) = omega (arith, length-take n xs)

  pub length-drop : (n : ℕ) (xs : List A) → length (drop n xs) ≡ length xs - n
  length-drop zero xs = omega arith
  length-drop (suc n) [] = omega arith
  length-drop (suc n) (x ∷ xs) = omega (arith, length-drop n xs)

module _ {ℓ κ} {A : Type ℓ} (P : A → Type κ) where
  abbrev pub All : List A → Type κ
  All [] = Unit
  All (x ∷ xs) = P x × All xs

  pub All-append : (xs ys : List A) → All xs → All ys → All (xs ++ ys)
  All-append [] ys h k = k
  All-append (x ∷ xs) ys (p, h) k = (p, All-append xs ys h k)

module _ {ℓ} {A : Type ℓ} (p : A → Bool) where
  pub find-eq-some : (xs : List A) {x : A} → find p xs ≡ some x → p x ≡ true
  find-eq-some [] h = ground arith
  find-eq-some (y ∷ xs) h = elim (Bool-cases (p y)) [
    | inl here ↦ ground arith
    | inr other ↦ find-eq-some xs (rw other at h)
  ]

  pub find-eq-none : (xs : List A) → find p xs ≡ none → All (λ x. p x ≡ false) xs
  find-eq-none [] h = tt
  find-eq-none (y ∷ xs) h = elim (Bool-cases (p y)) [
    | inl here ↦ ground arith
    | inr other ↦ (other, find-eq-none xs (rw other at h))
  ]

  pub find-All {κ} : (Q : A → Type κ) (xs : List A) {x : A} → All Q xs → find p xs ≡ some x → Q x
  find-All Q [] a h = absurd (ground arith)
  find-All Q (y ∷ xs) {x} a h = elim (Bool-cases (p y)) [
    | inl here ↦ let e : y ≡ x = ground arith in subst Q e a.0
    | inr other ↦ find-All Q xs a.1 (rw other at h)
  ]

pub All-map {ℓ κ μ} :
    {A : Type ℓ} (P : A → Type κ) (Q : A → Type μ) (xs : List A)
    → ((x : A) → P x → Q x)
    → All P xs
    → All Q xs
All-map P Q [] f h = tt
All-map P Q (x ∷ xs) f h = (f x h.0, All-map P Q xs f h.1)

module _ {ℓ} {A : Type ℓ} where
  All-Mem : (xs all : List A) → ((x : A) → Memᴰ x xs → Memᴰ x all) → All (λ x. Memᴰ x all) xs
  All-Mem [] all f = tt
  All-Mem (x ∷ xs) all f = (f x (Memᴰ.head refl), All-Mem xs all (λ y m. f y (Memᴰ.tail m)))

  -- Every item of a list is in it.
  pub All-own : (xs : List A) → All (λ x. Memᴰ x xs) xs
  All-own xs = All-Mem xs xs (λ x m. m)

module _ {ℓ} {A : Type ℓ} where
  pub keep-keep : (p q : A → Bool) (xs : List A) → keep p (keep q xs) ≡ keep (λ x. q x && p x) xs
  keep-keep p q [] = refl
  keep-keep p q (x ∷ xs) = ground (arith, keep-keep p q xs)

  pub keep-all : (xs : List A) → keep (λ x. true) xs ≡ xs
  keep-all [] = refl
  keep-all (x ∷ xs) = ap (λ l. x ∷ l) (keep-all xs)

  pub keep-eq : (p q : A → Bool) (xs : List A) → All (λ x. p x ≡ q x) xs → keep p xs ≡ keep q xs
  keep-eq p q [] h = refl
  keep-eq p q (x ∷ xs) h = rw (h.0, keep-eq p q xs h.1) refl

  pub keep-same : (p q : A → Bool) (xs : List A) → ((x : A) → p x ≡ q x) → keep p xs ≡ keep q xs
  keep-same p q [] h = refl
  keep-same p q (x ∷ xs) h = rw (h x, keep-same p q xs h) refl

  pub All-keep {κ} : (P : A → Type κ) (p : A → Bool) (xs : List A) → All P xs → All P (keep p xs)
  All-keep P p [] h = tt
  All-keep P p (x ∷ xs) h = elim (Bool-cases (p x)) [
    | inl kept ↦ rw kept (h.0, All-keep P p xs h.1)
    | inr out ↦ rw out (All-keep P p xs h.1)
  ]

  pub All-zip {κ μ ν} :
      (P : A → Type κ) (Q : A → Type μ) (R : A → Type ν) (xs : List A)
      → ((x : A) → P x → Q x → R x)
      → All P xs
      → All Q xs
      → All R xs
  All-zip P Q R [] f h k = tt
  All-zip P Q R (x ∷ xs) f h k = (f x h.0 k.0, All-zip P Q R xs f h.1 k.1)

module _ {ℓ} {A : Type ℓ} (p : A → Bool) where
  pub any-append : (xs ys : List A) → any p xs ≡ true → any p (xs ++ ys) ≡ true
  any-append [] ys h = absurd (ground arith)
  any-append (x ∷ xs) ys h = ground (arith, any-append xs ys)

  pub any-last : (xs : List A) (x : A) → p x ≡ true → any p (xs ++ x ∷ []) ≡ true
  any-last [] x h = ground arith
  any-last (y ∷ xs) x h = ground (arith, any-last xs x h)
