-- ===== src/Summary/MailConsent.antt =====
-- To whom `finalizeCall` of apps/api/src/services/summary.service.ts sends a mail.
use ai_phone_plattform.Prelude.{
  ◌≡◌, refl, ap, Bool, true, false, List, [], ◌∷◌, ◌++◌, Text, keep, Bool-cases, inl, inr,
}
use ai_phone_plattform.Js.{Js}
use ai_phone_plattform.World.{
  World, Call, CallAnswer, Env, Email, tenant_summary, caller_summary, budget_alert, SummaryResult,
}
use ai_phone_plattform.Cost.{CostUsage, calculate_call_cost}
use ai_phone_plattform.Lead.{LeadScore, score_lead}
use ai_phone_plattform.Exec.Fixes.{Fixes, Fixes-bind, Fixes-pure, Fixes-gets}
use ai_phone_plattform.Billing.{store_usage, record_usage, log_email}
use ai_phone_plattform.Billing.Frame.{send_all-Fixes, enforce_budget-Fixes}
use ai_phone_plattform.Summary.{
  is_completed, order_answers, signals_of, is_spoken, usage_of, finalize_call, finish_call,
  finish_readable, is_readable, close_call, send_mails,
}
use ai_phone_plattform.Summary.Final.{booking-Fixes, appointment-log}

abbrev is_to_caller : Email → Bool
is_to_caller m = elim m.kind [ caller_summary ↦ true | _ ↦ false ]

-- the mails that were sent to the caller, or tried
abbrev pub caller_mails : {N : Type 0} → World N → List Email
caller_mails w = keep is_to_caller w.email_log

keep-last :
    (m : Email) (log : List Email)
    → is_to_caller m ≡ false
    → keep is_to_caller (log ++ m ∷ []) ≡ keep is_to_caller log
keep-last m [] h = rw h
keep-last m (x ∷ log) h = elim (Bool-cases (is_to_caller x)) [
  | inl here ↦ rw here (ap (λ l. x ∷ l) (keep-last m log h))
  | inr other ↦ rw other (keep-last m log h)
]

module _ (js : Js) (env : Env js.Num) where
  open js use {Num}

  logged-tenant :
      (to : Text) (sent : Bool) → Fixes caller_mails (log_email env to tenant_summary sent)
  logged-tenant to sent = record { at = λ w. keep-last _ w.email_log refl }

  logged-alert : (to : Text) (sent : Bool) → Fixes caller_mails (log_email env to budget_alert sent)
  logged-alert to sent = record { at = λ w. keep-last _ w.email_log refl }

  usage-mails : (u : CostUsage Num) → Fixes caller_mails (record_usage js env u)
  unfolding record_usage
  usage-mails u = record {
    at = λ w.
        ((Fixes-bind caller_mails _ _
            (enforce_budget-Fixes js caller_mails env logged-alert (record { at = λ w'. refl })
              (calculate_call_cost js u env.rates).total_cost)
            λ _. Fixes-pure caller_mails (calculate_call_cost js u env.rates)).at
          (store_usage js env (calculate_call_cost js u env.rates) w).1);
  }

  mails-mails :
      (answers : List (CallAnswer Num)) → Fixes caller_mails (send_mails js env false answers)
  unfolding send_mails
  mails-mails answers = record {
    at =
        (Fixes-bind caller_mails _ _ (Fixes-gets _ (λ w. w.recipients)) λ recipients.
          Fixes-bind caller_mails _ _ (send_all-Fixes _ env tenant_summary logged-tenant recipients)
            λ _. Fixes-pure caller_mails tt).at;
  }

  close-mails :
      (answers : List (CallAnswer Num)) (lead : LeadScore) (result : SummaryResult)
      → Fixes caller_mails (close_call js env answers lead result)
  unfolding close_call
  close-mails answers lead result = record { at = λ w. refl }

  finish-mails :
      (c : Call Num)
      → c.caller_email_consent ≡ false
      → Fixes caller_mails (finish_readable js env c)
  unfolding finish_readable
  finish-mails c e =
      let answers = order_answers env.assistant.questions c.answers in
      let h =
        Fixes-bind caller_mails _ _
          (close-mails answers (score_lead js (signals_of js env c.from_number answers))
            (env.generate_summary (keep is_spoken c.messages) answers))
          λ _.
            Fixes-bind caller_mails _ _
              (usage-mails
                (usage_of js env c (env.generate_summary (keep is_spoken c.messages) answers)))
              λ _. Fixes-bind caller_mails _ _ (mails-mails answers) λ _.
                booking-Fixes js env caller_mails
                  (λ start w. ap (keep is_to_caller) (appointment-log env start w)) answers in
      record { at = λ w. rw e (h.at w) }

  -- Finalizing sends the caller no mail without the caller's consent to it.
  pub finalize_call-eq-mails :
      (w : World Num)
      → w.call.caller_email_consent ≡ false
      → caller_mails (finalize_call js env w).1 ≡ caller_mails w
  unfolding finalize_call finish_call
  finalize_call-eq-mails w e = elim (Bool-cases (is_completed js env w.call.status)) [
    | inl closed ↦ rw closed
    | inr fresh ↦ elim (Bool-cases (is_readable js env w.call)) [
      | inl read ↦ rw (fresh, read) ((finish-mails w.call e).at w)
      | inr unread ↦ rw (fresh, unread)
    ]
  ]
