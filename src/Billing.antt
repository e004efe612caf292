-- ===== src/Billing.antt =====
-- apps/api/src/services/cost.service.ts and `sendEmail` of services/email/index.ts: a call's usage is
-- stored and the tenant's monthly budget enforced.
pub mod Frame
use ai_phone_plattform.Prelude.{
  ℕ, Bool, true, false, not, ◌&&◌, Option, none, some, List, [], ◌∷◌, ◌++◌, Text, if◌then◌else◌,
}
use ai_phone_plattform.Js
use ai_phone_plattform.Js.{Js}
use ai_phone_plattform.Cost.{
  CostUsage, CostBreakdown, calculate_call_cost, crossed_budget_thresholds,
}
use ai_phone_plattform.World.{
  World, Call, Tenant, Env, Email, EmailKind, budget_alert, Delivery, delivered, refused,
  log_failed,
}
use ai_phone_plattform.Exec.{
  Exec, ok, threw, continue, ◌>>=◌, ◌>>◌, pure, raise, modify, update_call, gets, when,
}

module _ {N : Type 0} (env : Env N) where
  abbrev pub log_email : Text → EmailKind → Bool → Exec N Bool
  log_email to kind sent w = (
    ok sent,
    record w { email_log = w.email_log ++ record { to = to; kind = kind; sent = sent } ∷ [] },
  )

  -- A mail that the provider refuses is logged as failed; only the log can throw.
  unfoldable pub send_email : Text → EmailKind → Exec N Bool
  send_email to kind = elim (env.deliver to kind) [
    | delivered ↦ log_email to kind true
    | refused ↦ log_email to kind false
    | log_failed ↦ raise
  ]

  -- `for (const r of recipients) await sendEmail(…)`
  unfoldable pub send_all : EmailKind → List Text → Exec N (Unit {0})
  unfolding send_email
  send_all kind [] w = (ok tt, w)
  send_all kind (to ∷ rest) w = continue (send_email to kind w) (λ _. send_all kind rest)

module _ (js : Js) (env : Env js.Num) where
  open js use {Num, of_nat, tenths, le, add, sub}

  abbrev pub budget_alert_thresholds : List Num
  budget_alert_thresholds = tenths 5 ∷ tenths 8 ∷ of_nat 1 ∷ []

  -- `Math.max(...crossed)`
  abbrev pub highest : Num → List Num → Num
  highest n [] = n
  highest n (m ∷ ms) = highest (Js.max js n m) ms

  -- what the stored usage of this call adds to the month
  abbrev usage_total : Option (CostBreakdown Num) → Num
  usage_total none = of_nat 0
  usage_total (some c) = c.total_cost

  unfoldable pub month_to_date_spend : World Num → Num
  month_to_date_spend w = add w.other_spend (usage_total w.call.usage_event)

  abbrev pub pause : Exec Num (Unit {0})
  pause = modify (λ w. record w { tenant = record w.tenant { paused = true } })

  abbrev pub alert : List Num → Exec Num (Unit {0})
  alert [] = pure tt
  alert (t ∷ ts) = do
    recipients ← gets (λ w. w.recipients)
    send_all env budget_alert recipients
    tenant ← gets (λ w. w.tenant)
    when (le (of_nat 1) (highest t ts) && (tenant.auto_pause_on_budget && not tenant.paused)) pause

  abbrev pub within_limit : Num → Num → Exec Num (Unit {0})
  within_limit limit latest_cost w =
      let after = month_to_date_spend w in
      alert
        (crossed_budget_thresholds js (sub after latest_cost) after limit budget_alert_thresholds) w

  abbrev pub enforce_limit : Option Num → Num → Exec Num (Unit {0})
  enforce_limit none latest_cost w = (ok tt, w)
  enforce_limit (some limit) latest_cost w =
      if le limit (of_nat 0) then (ok tt, w) else within_limit limit latest_cost w

  unfoldable pub enforce_budget : Num → Exec Num (Unit {0})
  enforce_budget latest_cost w = enforce_limit w.tenant.monthly_budget_limit latest_cost w

  -- the transaction of `recordUsage`
  abbrev pub store_usage : CostBreakdown Num → Exec Num (Unit {0})
  store_usage cost =
      update_call (λ c. record c { usage_event = some cost; total_cost = some cost.total_cost })

  unfoldable pub record_usage : CostUsage Num → Exec Num (CostBreakdown Num)
  record_usage usage =
      let cost = calculate_call_cost js usage env.rates in
      do store_usage cost; enforce_budget cost.total_cost; pure cost
