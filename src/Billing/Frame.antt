-- ===== src/Billing/Frame.antt =====
-- What the budget and the mails leave alone.
use ai_phone_plattform.Prelude.{
  refl, Bool, true, false, Option, none, some, List, [], ◌∷◌, Text, Bool-cases, inl, inr,
}
use ai_phone_plattform.Js.{Js}
use ai_phone_plattform.World.{
  World, Env, EmailKind, budget_alert, Delivery, delivered, refused, log_failed,
}
use ai_phone_plattform.Exec.{Exec, raise}
use ai_phone_plattform.Exec.Fixes.{
  Fixes, Fixes-bind, Fixes-pure, Fixes-raise, Fixes-gets, Fixes-when,
}
use ai_phone_plattform.Billing.{
  log_email, send_email, send_all, enforce_budget, enforce_limit, alert, pause,
}

module _ {N X : Type 0} (view : World N → X) (env : Env N) (kind : EmailKind)
    (logged : (to : Text) (sent : Bool) → Fixes view (log_email env to kind sent)) where
  delivered-Fixes :
      (to : Text) (d : Delivery)
      → Fixes view (elim d as (λ _. Exec N Bool) [
        | delivered ↦ log_email env to kind true
        | refused ↦ log_email env to kind false
        | log_failed ↦ raise
      ])
  delivered-Fixes to delivered = logged to true
  delivered-Fixes to refused = logged to false
  delivered-Fixes to log_failed = Fixes-raise view

  pub send_email-Fixes : (to : Text) → Fixes view (send_email env to kind)
  unfolding send_email
  send_email-Fixes to = record { at = (delivered-Fixes to (env.deliver to kind)).at }

  -- Mails of one kind leave alone what their log entry leaves alone.
  pub send_all-Fixes : (tos : List Text) → Fixes view (send_all env kind tos)
  unfolding send_all
  send_all-Fixes [] = record { at = λ w. refl }
  send_all-Fixes (to ∷ tos) = record {
    at =
        (Fixes-bind view (send_email env to kind) (λ _. send_all env kind tos) (send_email-Fixes to)
          (λ _. send_all-Fixes tos)).at;
  }

module _ (js : Js) {X : Type 0} (view : World js.Num → X) (env : Env js.Num)
    (logged : (to : Text) (sent : Bool) → Fixes view (log_email env to budget_alert sent))
    (paused : Fixes view (pause js env)) where
  open js use {Num}

  alert-Fixes : (ts : List Num) → Fixes view (alert js env ts)
  alert-Fixes [] = Fixes-pure view tt
  alert-Fixes (t ∷ ts) = Fixes-bind view _ _ (Fixes-gets view (λ w. w.recipients)) λ recipients.
      Fixes-bind view _ _ (send_all-Fixes view env budget_alert logged recipients) λ _.
        Fixes-bind view _ _ (Fixes-gets view (λ w. w.tenant)) λ tenant. Fixes-when view _ _ paused

  limit-Fixes : (limit : Option Num) (cost : Num) → Fixes view (enforce_limit js env limit cost)
  limit-Fixes none cost = record { at = λ w. refl }
  limit-Fixes (some limit) cost = record {
    at = λ w. elim (Bool-cases (js.le limit (js.of_nat 0))) [
      | inl free ↦ rw free
      | inr limited ↦ rw limited ((alert-Fixes _).at w)
    ];
  }

  -- The budget leaves alone what a logged alert and a pause leave alone.
  pub enforce_budget-Fixes : (cost : Num) → Fixes view (enforce_budget js env cost)
  unfolding enforce_budget
  enforce_budget-Fixes cost = record {
    at = λ w. (limit-Fixes w.tenant.monthly_budget_limit cost).at w;
  }
