-- ===== src/Js/Order.antt =====
-- Consequences of the runtime's order for the clamps that the program writes.
use ai_phone_plattform.Prelude.{◌≡◌, inl, inr, true, arith}
use ai_phone_plattform.Js
use ai_phone_plattform.Js.{Js}

module _ (js : Js) (laws : Js.Laws js) where
  open js use {Num, le}
  open laws use {le_total, le_trans, le_number}

  pub le_refl : (a : Num) → Js.is_number js a ≡ true → le a a ≡ true
  le_refl a h = elim (le_total a a h h) [ inl e ↦ e | inr e ↦ e ]

  -- `Math.min(b, Math.max(a, x))` lies between a and b.
  pub clamp_bounds :
      (a b x : Num)
      → le a b ≡ true
      → Js.is_number js x ≡ true
      → (le a (Js.min js b (Js.max js a x)) ≡ true) × (le (Js.min js b (Js.max js a x)) b ≡ true)
  unfolding Js.min Js.max
  clamp_bounds a b x h n = ground (
    arith,
    le_number a b h,
    le_total a x,
    le_total b x,
    le_refl a,
    le_refl b,
    le_refl x,
    le_total b a,
  )

  max_mono :
      (a x y : Num)
      → Js.is_number js a ≡ true
      → le x y ≡ true
      → le (Js.max js a x) (Js.max js a y) ≡ true
  unfolding Js.max
  max_mono a x y h k =
      ground (arith, le_number x y k, le_total a y, le_trans a x y, le_refl a, le_total a x)

  min_mono :
      (b x y : Num)
      → Js.is_number js b ≡ true
      → le x y ≡ true
      → le (Js.min js b x) (Js.min js b y) ≡ true
  unfolding Js.min
  min_mono b x y h k =
      ground (arith, le_number x y k, le_total b x, le_trans b x y, le_refl b, le_total b y)

  -- The clamp keeps the order.
  pub clamp_mono :
      (a b x y : Num)
      → le a b ≡ true
      → le x y ≡ true
      → le (Js.min js b (Js.max js a x)) (Js.min js b (Js.max js a y)) ≡ true
  clamp_mono a b x y h k =
      min_mono b (Js.max js a x) (Js.max js a y) (le_number a b h).1
        (max_mono a x y (le_number a b h).0 k)
