-- ===== src/Summary/Final.antt =====
-- What `finalizeCall` of apps/api/src/services/summary.service.ts leaves behind.
use ai_phone_plattform.Prelude.{
  ℕ, ◌≡◌, ◌⊎◌, Bool, true, false, Option, none, some, List, arith, refl, sym, ap, subst, keep,
  Option-cases, Bool-cases, inl, inr,
}
use ai_phone_plattform.Js.{Js}
use ai_phone_plattform.Types.{LeadCategory, completed}
use ai_phone_plattform.Cost.{CostBreakdown, calculate_call_cost}
use ai_phone_plattform.Lead.{LeadScore, score_lead}
use ai_phone_plattform.World.{
  World, Call, CallState, Message, CallAnswer, CallSummary, Env, tenant_summary, caller_summary,
  SummaryResult,
}
use ai_phone_plattform.Exec.{Exec, ok, threw, ◌>>=◌, pure}
use ai_phone_plattform.Exec.Fixes.{Fixes, Fixes-bind, Fixes-pure, Fixes-gets, Fixes-when}
use ai_phone_plattform.Billing.{store_usage, record_usage, enforce_budget}
use ai_phone_plattform.Billing.Frame.{send_all-Fixes, enforce_budget-Fixes}
use ai_phone_plattform.Calendar.Booking.{create_appointment}
use ai_phone_plattform.Summary.{
  is_completed, order_answers, signals_of, is_spoken, usage_of, upsert_summary, finalize_call,
  finish_call, finish_readable, is_readable, close_call, send_mails, book_appointment,
  appointment_start,
}

-- the call but for its appointment
abbrev pub core : {N : Type 0} → Call N → Call N
core c = record c { appointment = none }

-- what was said and answered in a call
abbrev pub talk :
    {N : Type 0} → Call N → Bool × Option CallState × List (CallAnswer N) × List Message
talk c = (c.consent_given, c.state, c.answers, c.messages)

abbrev pub category_of : {N : Type 0} → Option (CallSummary N) → Option LeadCategory
category_of none = none
category_of (some s) = some s.lead_category

abbrev pub charge_of : {N : Type 0} → Option (CostBreakdown N) → Option N
charge_of none = none
charge_of (some c) = some c.total_cost

-- A call that is closed: completed at the given time, with a summary that shares its lead category,
-- and a price that is the total of its usage.
pub record IsFinal {N : Type 0} (now : ℕ) (c : Call N) : Type 0 where
  pub status : c.status ≡ completed
  pub ended : c.ended_at ≡ some now
  pub rated : (l : LeadCategory) × (c.lead_category ≡ some l) × (category_of c.summary ≡ some l)
  pub charged : (n : N) × (c.total_cost ≡ some n) × (charge_of c.usage_event ≡ some n)

module _ {N : Type 0} (env : Env N) where
  appointment-core :
      (start : ℕ) (w : World N) → core (create_appointment env start w).1.call ≡ core w.call
  unfolding create_appointment
  appointment-core start w = ground arith

  pub appointment-log :
      (start : ℕ) (w : World N) → (create_appointment env start w).1.email_log ≡ w.email_log
  unfolding create_appointment
  appointment-log start w = ground arith

module _ (js : Js) (env : Env js.Num) where
  open js use {Num}

  pub booking-Fixes :
      {X : Type 0} (view : World Num → X)
      → ((start : ℕ) (w : World Num) → view (create_appointment env start w).1 ≡ view w)
      → (answers : List (CallAnswer Num)) → Fixes view (book_appointment js env answers)
  unfolding book_appointment
  booking-Fixes view h answers = record {
    at = λ w. elim (Option-cases (appointment_start env.parse_date_value answers)) [
      | inl none' ↦ rw (none', book_appointment)
      | inr (start, found) ↦ rw (found, book_appointment) (h start w)
    ];
  }

  -- the steps behind `store_usage`
  abbrev after_usage : Bool → List (CallAnswer Num) → CostBreakdown Num → Exec Num (Unit {0})
  after_usage consent answers cost =
      ((enforce_budget js env cost.total_cost >>= λ _. pure cost) >>= λ _.
      send_mails js env consent answers >>= λ _. book_appointment js env answers)

  mails-core :
      (consent : Bool) (answers : List (CallAnswer Num))
      → Fixes (λ w. core w.call) (send_mails js env consent answers)
  unfolding send_mails
  mails-core consent answers = Fixes-bind _ _ _ (Fixes-gets _ (λ w. w.recipients)) λ recipients.
      Fixes-bind _ _ _
        (send_all-Fixes _ env tenant_summary (λ to sent. record { at = λ w. refl }) recipients)
        λ _.
          Fixes-when _ _ _
            (send_all-Fixes _ env caller_summary (λ to sent. record { at = λ w. refl }) _)

  after-core :
      (consent : Bool) (answers : List (CallAnswer Num)) (cost : CostBreakdown Num)
      → Fixes (λ w. core w.call) (after_usage consent answers cost)
  after-core consent answers cost =
      Fixes-bind _ _ _
        (Fixes-bind _ _ _
          (enforce_budget-Fixes js _ env (λ to sent. record { at = λ w. refl })
            (record { at = λ w. refl }) cost.total_cost)
          (λ _. Fixes-pure _ cost))
        λ _.
          Fixes-bind _ _ _ (mails-core consent answers)
            λ _. booking-Fixes _ (appointment-core env) answers

  of_core : {now : ℕ} (c : Call Num) → IsFinal now (core c) → IsFinal now c
  of_core c h = record { status = h.status; ended = h.ended; rated = h.rated; charged = h.charged }

  abbrev final_lead : Call Num → LeadScore
  final_lead c =
      score_lead js
        (signals_of js env c.from_number (order_answers env.assistant.questions c.answers))

  abbrev final_result : Call Num → SummaryResult
  final_result c =
      env.generate_summary (keep is_spoken c.messages)
        (order_answers env.assistant.questions c.answers)

  abbrev final_cost : Call Num → CostBreakdown Num
  final_cost c = calculate_call_cost js (usage_of js env c (final_result c)) env.rates

  -- the world when the usage is stored
  abbrev stored : World Num → World Num
  stored w =
      (store_usage js env (final_cost w.call)
        (close_call js env (order_answers env.assistant.questions w.call.answers)
          (final_lead w.call) (final_result w.call) w).1).1

  category-upsert :
      (s : Option (CallSummary Num)) (new : CallSummary Num)
      → category_of (some (upsert_summary js env s new)) ≡ some new.lead_category
  category-upsert s new = ground arith

  stored-IsFinal : (w : World Num) → IsFinal env.now (core (stored w).call)
  unfolding close_call
  stored-IsFinal w = record {
    status = refl;
    ended = refl;
    rated = ((final_lead w.call).category, refl, category-upsert w.call.summary _);
    charged = ((final_cost w.call).total_cost, refl, refl);
  }

  -- A call that can be read is closed.
  read-IsFinal :
      (w : World Num)
      → is_completed js env w.call.status ≡ false
      → is_readable js env w.call ≡ true
      → IsFinal env.now (finalize_call js env w).1.call
  unfolding finalize_call finish_call finish_readable close_call record_usage
  read-IsFinal w e r =
      rw (e, r, finalize_call)
        (of_core _ (
          subst (IsFinal env.now)
            (sym (
              (after-core w.call.caller_email_consent
                  (order_answers env.assistant.questions w.call.answers) (final_cost w.call)).at
                (stored w)))
            (stored-IsFinal w)))

  pub finalize_call-unread :
      (w : World Num)
      → is_completed js env w.call.status ≡ false
      → is_readable js env w.call ≡ false
      → finalize_call js env w ≡ (threw, w)
  unfolding finalize_call finish_call
  finalize_call-unread w e r = rw (e, r)

  pub finalize_call-IsFinal :
      (w : World Num)
      → is_completed js env w.call.status ≡ false
      → ((is_readable js env w.call ≡ true) × IsFinal env.now (finalize_call js env w).1.call)
        ⊎ ((is_readable js env w.call ≡ false) × (finalize_call js env w ≡ (threw, w)))
  finalize_call-IsFinal w e = elim (Bool-cases (is_readable js env w.call)) [
    | inl read ↦ inl (read, read-IsFinal w e read)
    | inr unread ↦ inr (unread, finalize_call-unread w e unread)
  ]

  pub finalize_call-talk : (w : World Num) → talk (finalize_call js env w).1.call ≡ talk w.call
  unfolding finalize_call finish_call finish_readable close_call record_usage
  finalize_call-talk w = elim (Bool-cases (is_completed js env w.call.status)) [
    | inl closed ↦ rw (closed, finalize_call)
    | inr fresh ↦ elim (Bool-cases (is_readable js env w.call)) [
      | inl read ↦
          rw (fresh, read, finalize_call)
            (ap talk (
              (after-core w.call.caller_email_consent
                  (order_answers env.assistant.questions w.call.answers) (final_cost w.call)).at
                (stored w)))
      | inr unread ↦ rw (fresh, unread, finalize_call) refl
    ]
  ]

  pub finalize_call-closed :
      (w : World Num)
      → is_completed js env w.call.status ≡ true
      → finalize_call js env w ≡ (ok tt, w)
  unfolding finalize_call
  finalize_call-closed w e = rw e

  -- Finalizing again changes nothing if the first time could read the call.
  pub finalize_call_again :
      (w : World Num)
      → is_readable js env w.call ≡ true
      → finalize_call js env (finalize_call js env w).1 ≡ (ok tt, (finalize_call js env w).1)
  finalize_call_again w read = elim (Bool-cases (is_completed js env w.call.status)) [
    | inl closed ↦
        let h = finalize_call-closed w closed in
        subst (λ r. finalize_call js env r.1 ≡ (ok tt, r.1)) (sym h) h
    | inr fresh ↦
        finalize_call-closed _ (ap (is_completed js env) (read-IsFinal w fresh read).status)
  ]
