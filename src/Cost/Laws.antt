-- ===== src/Cost/Laws.antt =====
-- Invoice lines are never negative, and a threshold is reported once.
use ai_phone_plattform.Prelude.{
  ℕ, ◌+◌, ◌≡◌, Bool, true, false, List, [], ◌∷◌, arith, length, if◌then◌else◌,
}
use ai_phone_plattform.Js
use ai_phone_plattform.Js.{Js}
use ai_phone_plattform.Js.Order.{le_refl}
use ai_phone_plattform.Cost.{CostRates, CostBreakdown, is_crossed, crossed_budget_thresholds}

module _ (js : Js) where
  open js use {Num, of_nat, le, is_finite}

  abbrev pub IsAmount : Num → Type 0
  IsAmount n = le (of_nat 0) n ≡ true

  -- Rates from the configuration: finite, and not negative.
  pub record AreRates (r : CostRates Num) : Type 0 where
    pub telephony : IsAmount r.telephony_per_minute × (is_finite r.telephony_per_minute ≡ true)
    pub stt : IsAmount r.stt_per_minute × (is_finite r.stt_per_minute ≡ true)
    pub tts : IsAmount r.tts_per_minute × (is_finite r.tts_per_minute ≡ true)
    pub input : IsAmount r.llm_input_per1k × (is_finite r.llm_input_per1k ≡ true)
    pub output : IsAmount r.llm_output_per1k × (is_finite r.llm_output_per1k ≡ true)
    pub markup : is_finite r.markup_percent ≡ true

  pub record IsInvoice (c : CostBreakdown Num) : Type 0 where
    pub telephony : IsAmount c.telephony_cost
    pub stt : IsAmount c.stt_cost
    pub tts : IsAmount c.tts_cost
    pub llm : IsAmount c.llm_cost
    pub subtotal : IsAmount c.provider_subtotal
    pub markup : IsAmount c.platform_markup
    pub total : IsAmount c.total_cost

module _ (js : Js) where
  open js use {Num, of_nat, le}

  -- How often the threshold `t` is reported while the spending takes the given values in turn.
  abbrev pub alerts : Num → Num → Num → List Num → ℕ
  alerts limit t before [] = 0
  alerts limit t before (after ∷ rest) =
      length (crossed_budget_thresholds js before after limit (t ∷ [])) + alerts limit t after rest

  abbrev pub IsRising : Num → List Num → Type 0
  IsRising before [] = Unit
  IsRising before (after ∷ rest) = (le before after ≡ true) × IsRising after rest

  abbrev pub last_of : Num → List Num → Num
  last_of before [] = before
  last_of before (after ∷ rest) = last_of after rest

  -- The fraction of the limit that is spent goes from below the threshold to it, or past it.
  abbrev pub passes : Num → Num → Num → Num → Bool
  passes limit t before last' = is_crossed js (js.div before limit) (js.div last' limit) t

module _ (js : Js) (laws : Js.Laws js) where
  open js use {Num, of_nat, le, div, is_finite}
  open laws use {div_mono, le_trans, le_total, le_number}

  module _ (limit t : Num) (finite : is_finite limit ≡ true)
      (positive : le limit (of_nat 0) ≡ false) where
    rising-last :
        (before : Num) (spends : List Num)
        → Js.is_number js before ≡ true
        → IsRising js before spends
        → le before (last_of js before spends) ≡ true
    rising-last before [] n h = le_refl js laws before n
    rising-last before (after ∷ rest) n h =
        le_trans before after (last_of js after rest) h.0
          (rising-last after rest (le_number before after h.0).1 h.1)

    split-pass :
        (a b c : Num)
        → le a b ≡ true
        → le b c ≡ true
        → length (crossed_budget_thresholds js a b limit (t ∷ []))
            + (if passes js limit t b c then 1 else 0)
          ≡ (if passes js limit t a c then 1 else 0)
    unfolding crossed_budget_thresholds
    split-pass a b c h k =
        let first = div_mono a b limit finite positive h in
        let second = div_mono b c limit finite positive k in
        ground (
          arith,
          positive,
          first,
          second,
          le_number (div a limit) (div b limit),
          le_trans t (div a limit) (div b limit),
          le_trans t (div b limit) (div c limit),
        )

    -- Under `Js.Laws`, with a positive and finite limit: while the spending rises, a threshold is reported once
    -- if the spending passes it, and else never.
    pub alerts-eq :
        (before : Num) (spends : List Num)
        → Js.is_number js before ≡ true
        → IsRising js before spends
        → alerts js limit t before spends
          ≡ (if passes js limit t before (last_of js before spends) then 1 else 0)
    alerts-eq before [] n h = ground arith
    alerts-eq before (after ∷ rest) n h =
        let next = (le_number before after h.0).1 in
        omega (
          arith,
          alerts-eq after rest next h.1,
          split-pass before after (last_of js after rest) h.0 (rising-last after rest next h.1),
        )
