-- ===== src/Webhook/Voice.antt =====
-- `/webhooks/twilio/voice` of apps/api/src/routes/webhooks.ts: an inbound call.
use ai_phone_plattform.Prelude.{
  ℕ, suc, ◌≡◌, refl, Bool, true, false, Option, none, some, List, [], ◌∷◌, ◌++◌, Text, text_eq,
  text_eq_refl, Bool-cases, ◌⊎◌, subst, sym, ap, inl, inr, if◌then◌else◌,
}
use ai_phone_plattform.Types.{consent_pending, Say, lit, txt}
use ai_phone_plattform.World.{Call}
use ai_phone_plattform.Conversation.{default_state}
use ai_phone_plattform.Routing.{
  ForwardingStatus, active, InboundPhone, InboundReason, paused, classify_inbound,
}
use ai_phone_plattform.Webhook.{
  Response, invalid_signature, bad_request, say_and_hangup, say_and_gather, say_and_relay,
}

pub record Dialed : Type 0 where
  pub phone : InboundPhone
  pub forwarding_status : ForwardingStatus
  pub greeting_text : Text
  pub consent_text : Text
  -- the global flag, the tenant's flag and the key of the language model
  pub realtime_enabled : Bool

pub record VoiceWebhook : Type 0 where
  pub call_sid : Text
  pub from : Text

-- the number that was dialed, if it is known, and the calls by their provider's ids
pub record VoiceState (N : Type 0) : Type 0 where
  pub dialed : Option Dialed
  pub calls : List (Text × Call N)
  pub audited : ℕ

abbrev rejection : InboundReason → Say
rejection paused =
    lit "Dieser Dienst ist vorübergehend pausiert. Bitte versuchen Sie es später erneut." ∷ []
rejection _ = lit "Diese Nummer ist derzeit nicht erreichbar. Auf Wiederhören." ∷ []

abbrev greet : Dialed → Response
greet d =
    let greeting = txt d.greeting_text ∷ lit " " ∷ txt d.consent_text ∷ [] in
    if d.realtime_enabled then say_and_relay greeting else say_and_gather greeting

module _ {N : Type 0} where
  abbrev new_call : Text → ℕ → Call N
  new_call from now = record {
    status = consent_pending;
    consent_given = false;
    caller_email_consent = false;
    state = some default_state;
    answers = [];
    messages = [];
    from_number = from;
    started_at = now;
    ended_at = none;
    duration_seconds = 0;
    lead_category = none;
    total_cost = none;
    summary = none;
    usage_event = none;
    appointment = none;
  }

  abbrev pub has_sid : Text → List (Text × Call N) → Bool
  has_sid sid [] = false
  has_sid sid ((k, c) ∷ calls) = if text_eq k sid then true else has_sid sid calls

  -- the `upsert` with an empty update
  unfoldable pub upsert_call : Text → Call N → List (Text × Call N) → List (Text × Call N)
  upsert_call sid call calls = if has_sid sid calls then calls else calls ++ (sid, call) ∷ []

  abbrev admit : ℕ → VoiceWebhook → Dialed → VoiceState N → Response × VoiceState N
  admit now body d s = (
    greet d,
    record {
      dialed = some (record d { forwarding_status = active });
      calls = upsert_call body.call_sid (new_call body.from now) s.calls;
      audited = suc s.audited;
    },
  )

  abbrev answer_dialed : ℕ → VoiceWebhook → Option Dialed → VoiceState N → Response × VoiceState N
  answer_dialed now body none s = (say_and_hangup (rejection (classify_inbound none).reason), s)
  answer_dialed now body (some d) s =
      if (classify_inbound (some d.phone)).reachable
      then admit now body d s
      else (say_and_hangup (rejection (classify_inbound (some d.phone)).reason), s)

  unfoldable pub handle_voice :
      ℕ → Bool → Option VoiceWebhook → VoiceState N → Response × VoiceState N
  handle_voice now false body s = (invalid_signature, s)
  handle_voice now true none s = (bad_request, s)
  handle_voice now true (some body) s = answer_dialed now body s.dialed s

  has_sid-upsert :
      (sid : Text) (c : Call N) (calls : List (Text × Call N))
      → has_sid sid (calls ++ (sid, c) ∷ []) ≡ true
  has_sid-upsert sid c [] = rw (text_eq_refl sid)
  has_sid-upsert sid c ((k, d) ∷ calls) = elim (Bool-cases (text_eq k sid)) [
    | inl same ↦ rw same
    | inr other ↦ rw other (has_sid-upsert sid c calls)
  ]

  has_sid-own :
      (sid : Text) (c : Call N) (calls : List (Text × Call N))
      → has_sid sid (upsert_call sid c calls) ≡ true
  unfolding upsert_call
  has_sid-own sid c calls = elim (Bool-cases (has_sid sid calls)) [
    | inl known ↦ rw (known, upsert_call) known
    | inr new ↦ rw (new, upsert_call) (has_sid-upsert sid c calls)
  ]

  upsert_call-known :
      (sid : Text) (c : Call N) (calls : List (Text × Call N))
      → has_sid sid calls ≡ true
      → upsert_call sid c calls ≡ calls
  unfolding upsert_call
  upsert_call-known sid c calls h = rw h

  -- a call that is known stays as it is
  known-kept :
      (now : ℕ) (body : VoiceWebhook) (o : Option Dialed) (s : VoiceState N)
      → has_sid body.call_sid s.calls ≡ true
      → (answer_dialed now body o s).1.calls ≡ s.calls
  known-kept now body none s h = refl
  known-kept now body (some d) s h = elim (Bool-cases (classify_inbound (some d.phone)).reachable) [
    | inl served ↦ rw served (upsert_call-known body.call_sid _ s.calls h)
    | inr closed ↦ rw closed refl
  ]

  -- a call is admitted now, or whenever it comes nothing changes
  answered-cases :
      (now : ℕ) (body : VoiceWebhook) (o : Option Dialed) (s : VoiceState N)
      → (has_sid body.call_sid (answer_dialed now body o s).1.calls ≡ true)
        ⊎ ((m : ℕ) → (answer_dialed m body o s).1 ≡ s)
  answered-cases now body none s = inr (λ m. refl)
  answered-cases now body (some d) s =
      elim (Bool-cases (classify_inbound (some d.phone)).reachable) [
        | inl served ↦ inl (rw served (has_sid-own body.call_sid _ s.calls))
        | inr closed ↦ inr (λ m. rw closed refl)
      ]

  -- A webhook that is delivered again creates no second call, and changes none.
  pub handle_voice_again :
      (now later : ℕ) (body : VoiceWebhook) (s : VoiceState N)
      → (handle_voice later true (some body) (handle_voice now true (some body) s).1).1.calls
        ≡ (handle_voice now true (some body) s).1.calls
  unfolding handle_voice
  handle_voice_again now later body s = elim (answered-cases now body s.dialed s) [
    | inl known ↦ known-kept later body _ (answer_dialed now body s.dialed s).1 known
    | inr same ↦
        subst (λ t. (answer_dialed later body t.dialed t).1.calls ≡ t.calls) (sym (same now))
          (ap (λ t. t.calls) (same later))
  ]
