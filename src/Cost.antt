-- ===== src/Cost.antt =====
-- packages/shared/src/cost.ts: the price of a call, and which budget thresholds a spending crosses.
pub mod Laws
use ai_phone_plattform.Prelude.{ℕ, Bool, ◌&&◌, List, [], keep, if◌then◌else◌}
use ai_phone_plattform.Js
use ai_phone_plattform.Js.{Js}

pub record CostRates (N : Type 0) : Type 0 where
  pub telephony_per_minute : N
  pub stt_per_minute : N
  pub tts_per_minute : N
  pub llm_input_per1k : N
  pub llm_output_per1k : N
  pub markup_percent : N

pub record CostUsage (N : Type 0) : Type 0 where
  pub duration_seconds : N
  pub llm_input_tokens : N
  pub llm_output_tokens : N

pub record CostBreakdown (N : Type 0) : Type 0 where
  pub duration_seconds : N
  pub telephony_cost : N
  pub stt_cost : N
  pub tts_cost : N
  pub llm_cost : N
  pub provider_subtotal : N
  pub platform_markup : N
  pub total_cost : N

module _ (js : Js) where
  open js use {Num, of_nat, le, add, mul, div, round, epsilon}

  unfoldable pub round6 : Num → Num
  round6 value = div (round (mul (add value epsilon) (of_nat 1000000))) (of_nat 1000000)

  -- `Math.max(0, n)`
  abbrev pub at_least_zero : Num → Num
  at_least_zero n = Js.max js (of_nat 0) n

  unfoldable pub calculate_call_cost : CostUsage Num → CostRates Num → CostBreakdown Num
  calculate_call_cost usage rates =
      let seconds = at_least_zero usage.duration_seconds in
      let minutes = div seconds (of_nat 60) in
      let input_tokens = at_least_zero usage.llm_input_tokens in
      let output_tokens = at_least_zero usage.llm_output_tokens in
      let telephony = round6 (mul minutes rates.telephony_per_minute) in
      let stt = round6 (mul minutes rates.stt_per_minute) in
      let tts = round6 (mul minutes rates.tts_per_minute) in
      let llm = round6 (
        add (mul (div input_tokens (of_nat 1000)) rates.llm_input_per1k)
          (mul (div output_tokens (of_nat 1000)) rates.llm_output_per1k)) in
      let subtotal = round6 (add (add (add telephony stt) tts) llm) in
      let markup = round6 (mul subtotal (at_least_zero rates.markup_percent)) in
      record {
        duration_seconds = seconds;
        telephony_cost = telephony;
        stt_cost = stt;
        tts_cost = tts;
        llm_cost = llm;
        provider_subtotal = subtotal;
        platform_markup = markup;
        total_cost = round6 (add subtotal markup);
      }

  -- the test of `thresholds.filter`
  abbrev pub is_crossed : Num → Num → Num → Bool
  is_crossed before after t = Js.lt js before t && le t after

  unfoldable pub crossed_budget_thresholds : Num → Num → Num → List Num → List Num
  crossed_budget_thresholds previous_spend new_spend monthly_limit thresholds =
      if le monthly_limit (of_nat 0)
      then []
      else keep (is_crossed (div previous_spend monthly_limit) (div new_spend monthly_limit))
          thresholds
