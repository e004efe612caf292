-- ===== src/Lead/Laws.antt =====
-- What a score says of a lead: its range, and that a better signal never makes it worse.
use ai_phone_plattform.Prelude.{
  ℕ, ◌+◌, ◌≤◌, ◌≡◌, inl, inr, Bool, true, false, ◌&&◌, Option, none, some, arith, ltb, Bool-cases,
  List,
}
use ai_phone_plattform.Js
use ai_phone_plattform.Js.{Js}
use ai_phone_plattform.Js.Order.{clamp_bounds, clamp_mono}
use ai_phone_plattform.Types.{Say, LeadCategory, lead_a, lead_b, lead_c}
use ai_phone_plattform.Lead.{
  LeadSignals, add_if, is_urgent, urgency_points, score_lead, categorize, high_urgency,
}

abbrev pub rank : LeadCategory → ℕ
rank lead_a = 2
rank lead_b = 1
rank lead_c = 0

abbrev weight : Bool → ℕ → ℕ
weight true n = n
weight false n = 0

add_if-score :
    (test : Bool) (points : ℕ) (reason : Say) (acc : ℕ × List Say)
    → (add_if test points reason acc).0 ≡ acc.0 + weight test points
unfolding add_if
add_if-score test points reason acc = ground arith

urgent_weight : (b : Bool) (n : ℕ) → weight (b && ltb 0 n) n ≡ weight b n
urgent_weight b n = ground arith

module _ (js : Js) where
  open js use {Num, of_nat, le}

  abbrev pub urgency_share : Option Num → ℕ
  urgency_share u = weight (is_urgent js u) (urgency_points js u)

  -- The score is the sum of the weights of the signals that are there.
  score_sum :
      (s : LeadSignals Num)
      → (score_lead js s).score
        ≡ weight s.has_concrete_need 20
          + weight s.has_email 15
          + weight s.has_phone 15
          + weight s.has_name 10
          + weight s.wants_callback 15
          + weight s.has_budget 10
          + urgency_share s.urgency
  score_sum s =
      unfold score_lead in
      simp add_if-score
        (omega (arith, urgent_weight (is_urgent js s.urgency) (urgency_points js s.urgency)))

-- Every signal of `s` is there in `s'` too, and the urgency is no lower.
module _ (js : Js) where
  open js use {Num, of_nat, le}

  abbrev pub UrgencyLe : Option Num → Option Num → Type 0
  UrgencyLe none u = Unit
  UrgencyLe (some a) none = ⊥
  UrgencyLe (some a) (some b) = le a b ≡ true

  pub record IsWeaker (s s' : LeadSignals Num) : Type 0 where
    pub email : s.has_email ≡ true → s'.has_email ≡ true
    pub phone : s.has_phone ≡ true → s'.has_phone ≡ true
    pub name : s.has_name ≡ true → s'.has_name ≡ true
    pub urgency : UrgencyLe s.urgency s'.urgency
    pub callback : s.wants_callback ≡ true → s'.wants_callback ≡ true
    pub budget : s.has_budget ≡ true → s'.has_budget ≡ true
    pub need : s.has_concrete_need ≡ true → s'.has_concrete_need ≡ true

weight_mono :
    (a b : Bool) (m n : ℕ) → (a ≡ true → b ≡ true) → (a ≡ true → m ≤ n) → weight a m ≤ weight b n
weight_mono a b m n h k = ground arith

module _ (js : Js) (laws : Js.Laws js) where
  open js use {Num, of_nat, tenths, le, mul, round, to_nat}
  open laws use {
    nat_number, nat_le, le_trans, le_number, tenths_pos, mul_mono, mul_zero, mul_one, round_mono,
    round_nat,
  }

  -- The points of a share from 0 to 1, before they are rounded, lie between 0 and 25.
  scaled-bounds :
      (share : Num)
      → le (of_nat 0) share ≡ true
      → le share (of_nat 1) ≡ true
      → (le (of_nat 0) (mul (of_nat 25) share) ≡ true)
        × (le (mul (of_nat 25) share) (of_nat 25) ≡ true)
  scaled-bounds share low high =
      let above = mul_mono 24 (of_nat 0) share (omega arith) low in
      let below = mul_mono 24 share (of_nat 1) (omega arith) high in
      (rw (mul_zero 25 (omega arith)) at above, rw (mul_one 25) at below)

  share_of : Num → Num
  share_of u = Js.min js (of_nat 1) (Js.max js (of_nat 0) u)

  share-bounds :
      (u : Num)
      → Js.is_number js u ≡ true
      → (le (of_nat 0) (mul (of_nat 25) (share_of u)) ≡ true)
        × (le (mul (of_nat 25) (share_of u)) (of_nat 25) ≡ true)
  unfolding share_of
  share-bounds u h =
      let (low, high) = clamp_bounds js laws (of_nat 0) (of_nat 1) u (nat_le 0 1 (omega arith)) h in
      scaled-bounds (share_of u) low high

  urgency_points-le : (u : Option Num) → is_urgent js u ≡ true → urgency_points js u ≤ 25
  unfolding urgency_points share_of
  urgency_points-le none h = omega arith
  urgency_points-le (some u) h =
      let (low, high) = share-bounds u (ground arith) in
      let top : le (of_nat 25) (of_nat 25) ≡ true = nat_le 25 25 (omega arith) in
      rw (round_nat 25 (omega arith)) at (round_mono 25 _ (of_nat 25) (omega arith) low high top)

  -- A score is at most 110.
  pub score-le : (s : LeadSignals Num) → (score_lead js s).score ≤ 110
  score-le s =
      let share : urgency_share js s.urgency ≤ 25 = elim (Bool-cases (is_urgent js s.urgency)) [
        | inl e ↦ rw e (urgency_points-le s.urgency e)
        | inr e ↦ rw e (omega arith)
      ] in
      rw (score_sum js s) (ground arith)

  urgent_mono :
      (u v : Option Num) → UrgencyLe js u v → is_urgent js u ≡ true → is_urgent js v ≡ true
  urgent_mono none v h e = cc
  urgent_mono (some a) none h e = absurd h
  urgent_mono (some a) (some b) h e = ground (arith, le_number a b h, le_trans a b (of_nat 0))

  points_mono : (u v : Option Num) → UrgencyLe js u v → urgency_points js u ≤ urgency_points js v
  unfolding urgency_points share_of
  points_mono none v h = omega arith
  points_mono (some a) none h = absurd h
  points_mono (some a) (some b) h =
      let (number_a, number_b) = le_number a b h in
      round_mono 25 _ _ (omega arith) (share-bounds a number_a).0
        (mul_mono 24 _ _ (omega arith)
          (clamp_mono js laws (of_nat 0) (of_nat 1) a b (nat_le 0 1 (omega arith)) h))
        (share-bounds b number_b).1

  high_mono :
      (u v : Option Num) → UrgencyLe js u v → high_urgency js u ≡ true → high_urgency js v ≡ true
  high_mono none v h e = cc (tenths_pos 5)
  high_mono (some a) none h e = absurd h
  high_mono (some a) (some b) h e = le_trans (tenths 6) a b e h

  -- Adding a signal, or a higher urgency, never lowers the score.
  pub score_mono :
      (s s' : LeadSignals Num)
      → IsWeaker js s s'
      → (score_lead js s).score ≤ (score_lead js s').score
  score_mono s s' w =
      rw (score_sum js s, score_sum js s')
        (omega (
          arith,
          weight_mono s.has_concrete_need s'.has_concrete_need 20 20 w.need (λ _. omega arith),
          weight_mono s.has_email s'.has_email 15 15 w.email (λ _. omega arith),
          weight_mono s.has_phone s'.has_phone 15 15 w.phone (λ _. omega arith),
          weight_mono s.has_name s'.has_name 10 10 w.name (λ _. omega arith),
          weight_mono s.wants_callback s'.wants_callback 15 15 w.callback (λ _. omega arith),
          weight_mono s.has_budget s'.has_budget 10 10 w.budget (λ _. omega arith),
          weight_mono (is_urgent js s.urgency) (is_urgent js s'.urgency)
              (urgency_points js s.urgency) (urgency_points js s'.urgency)
              (urgent_mono s.urgency s'.urgency w.urgency)
              (λ _. points_mono s.urgency s'.urgency w.urgency),
        ))

  categorize_mono :
      (s s' : LeadSignals Num) (m n : ℕ)
      → IsWeaker js s s'
      → m ≤ n
      → rank (categorize js s m) ≤ rank (categorize js s' n)
  categorize_mono s s' m n w h = ground (arith, high_mono s.urgency s'.urgency w.urgency)

  -- Under `Js.Laws`, adding a signal, or a higher urgency, never lowers the category.
  pub category_mono :
      (s s' : LeadSignals Num)
      → IsWeaker js s s'
      → rank (score_lead js s).category ≤ rank (score_lead js s').category
  category_mono s s' w = unfold score_lead in categorize_mono s s' _ _ w (score_mono s s' w)
