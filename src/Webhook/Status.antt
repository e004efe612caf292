-- ===== src/Webhook/Status.antt =====
-- What the status callback of apps/api/src/routes/webhooks.ts leaves behind.
use ai_phone_plattform.Prelude.{
  ℕ, ◌≡◌, ◌≢◌, refl, ap, arith, Bool, false, not, ◌&&◌, Option, none, some, is_some, or_else, ltb,
  ◌==◌, Bool-cases, inl, inr,
}
use ai_phone_plattform.Js.{Js}
use ai_phone_plattform.Types.{CallStatus}
use ai_phone_plattform.Lifecycle.{
  EndOfCallAction, finalize, abandon, backfill, ignore, classify_end_of_call,
  classify-eq-finalize_iff,
}
use ai_phone_plattform.World.{World, Call, CallSummary, Env}
use ai_phone_plattform.Exec.Fixes.{Fixes, Fixes-bind, Fixes-pure, Fixes-when}
use ai_phone_plattform.Cost.{CostUsage, calculate_call_cost}
use ai_phone_plattform.Billing.{record_usage, store_usage}
use ai_phone_plattform.Billing.Frame.{enforce_budget-Fixes}
use ai_phone_plattform.Webhook.{
  StatusCallback, act, input_of, on_status, minutes_only, store_duration, abandon_call,
  backfill_usage, backfill_call,
}

-- what a usage leaves alone
abbrev pub outcome_of : {N : Type 0} → World N → CallStatus × Option (CallSummary N)
outcome_of w = (w.call.status, w.call.summary)

module _ (js : Js) (env : Env js.Num) where
  open js use {Num}

  usage-outcome : (u : CostUsage Num) → Fixes outcome_of (record_usage js env u)
  unfolding record_usage
  usage-outcome u = record {
    at = λ w.
        ((Fixes-bind outcome_of _ _
            (enforce_budget-Fixes js outcome_of env (λ to sent. record { at = λ w'. refl })
              (record { at = λ w'. refl }) (calculate_call_cost js u env.rates).total_cost)
            λ _. Fixes-pure outcome_of (calculate_call_cost js u env.rates)).at
          (store_usage js env (calculate_call_cost js u env.rates) w).1);
  }

  minutes-outcome : (seconds : ℕ) → Fixes outcome_of (minutes_only js env seconds)
  minutes-outcome seconds =
      Fixes-bind outcome_of _ _ (usage-outcome _) (λ _. Fixes-pure outcome_of tt)

  duration-outcome : (d : Option ℕ) → Fixes outcome_of (store_duration js env d)
  duration-outcome none = record { at = λ w. refl }
  duration-outcome (some d) = record { at = λ w. refl }

  usage-if : (billed : Bool) (seconds : ℕ) → Fixes outcome_of (backfill_usage js env billed seconds)
  usage-if billed seconds = record {
    at = λ w. elim (Bool-cases (not billed && ltb 0 seconds)) [
      | inl due ↦ rw due ((minutes-outcome seconds).at w)
      | inr none' ↦ rw none' refl
    ];
  }

  backfill-outcome : (d : Option ℕ) (c : Call Num) → Fixes outcome_of (backfill_call js env d c)
  unfolding backfill_call
  backfill-outcome d c = record {
    at =
        (Fixes-bind outcome_of _
          (λ _. backfill_usage js env (is_some c.usage_event) (or_else d c.duration_seconds))
          (Fixes-when outcome_of (c.duration_seconds == 0) _ (duration-outcome d))
          (λ _. usage-if (is_some c.usage_event) (or_else d c.duration_seconds))).at;
  }

  act-summary :
      (a : EndOfCallAction) (d : Option ℕ) (w : World Num)
      → a ≢ finalize
      → (act js env a d w.call w).1.call.summary ≡ w.call.summary
  unfolding abandon_call
  act-summary finalize d w n = absurd (n refl)
  act-summary abandon d w n = ap (λ o. o.1) ((minutes-outcome _).at _)
  act-summary backfill d w n = ap (λ o. o.1) ((backfill-outcome d w.call).at w)
  act-summary ignore d w n = refl

  -- Without the caller's consent, a status callback writes no summary.
  pub on_status-eq-summary :
      (body : StatusCallback) (w : World Num)
      → w.call.consent_given ≡ false
      → (on_status js env body w).call.summary ≡ w.call.summary
  unfolding on_status
  on_status-eq-summary body w e =
      act-summary (classify_end_of_call (input_of js env body w.call)) _ w (λ f.
        let agreed = ((classify-eq-finalize_iff (input_of js env body w.call)).0 f).2 in
        absurd (ground arith))
