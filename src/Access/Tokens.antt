-- ===== src/Access/Tokens.antt =====
-- The signed tokens of apps/api/src/lib/auth.ts, apps/api/src/services/calendar/state.ts and
-- apps/api/src/realtime/token.ts, which share one secret. The library `jose` is a parameter: `sign`
-- makes a token of a payload and a time of expiry, in seconds, and `verify` reads it at a time. Ids
-- are texts, and a role is what the token says: it is not checked.
use ai_phone_plattform.Prelude.{
  ℕ, ◌+◌, ◌*◌, ◌<◌, ◌≡◌, refl, ap, subst, arith, inl, inr, Option-cases, Bool, Option, none, some,
  Text, codes, text_eq, if◌then◌else◌,
}

-- The claims of the four kinds of token; a claim that a kind lacks is undefined.
pub record Payload : Type 0 where
  pub sub : Option Text
  pub tenant_id : Option Text
  pub user_id : Option Text
  pub role : Option Text
  pub email : Option Text
  pub provider : Option Text
  pub call_id : Option Text
  pub purpose : Option Text

pub record Jwt : Type 0 where
  pub sign : Payload → ℕ → Text
  pub verify : ℕ → Text → Option Payload

pub record SessionClaims : Type 0 where
  pub sub : Text
  pub tenant_id : Text
  pub role : Option Text
  pub email : Text

pub record CalendarState : Type 0 where
  pub tenant_id : Text
  pub user_id : Text
  pub provider : Option Text

abbrev blank : Payload
blank = record {
  sub = none;
  tenant_id = none;
  user_id = none;
  role = none;
  email = none;
  provider = none;
  call_id = none;
  purpose = none;
}

abbrev pub session_payload : SessionClaims → Payload
session_payload c = record blank {
  sub = some c.sub;
  tenant_id = some c.tenant_id;
  role = c.role;
  email = some c.email;
}

abbrev pub magic_payload : Text → Text → Payload
magic_payload email tenant = record blank {
  email = some email;
  tenant_id = some tenant;
  purpose = some (codes "magic_link");
}

abbrev pub calendar_payload : CalendarState → Payload
calendar_payload s = record blank {
  tenant_id = some s.tenant_id;
  user_id = some s.user_id;
  provider = s.provider;
  purpose = some (codes "calendar_oauth");
}

abbrev pub call_payload : Text → Payload
call_payload id = record blank { call_id = some id; purpose = some (codes "realtime_call") }

-- `String(v)` of a claim
abbrev pub text_of : Option Text → Text
text_of none = codes "undefined"
text_of (some s) = s

abbrev pub has_purpose : Text → Payload → Bool
has_purpose purpose p = text_eq (text_of p.purpose) purpose

abbrev pub session_claims : Payload → SessionClaims
session_claims p = record {
  sub = text_of p.sub;
  tenant_id = text_of p.tenant_id;
  role = p.role;
  email = text_of p.email;
}

abbrev pub read {ℓ} : {A : Type ℓ} → (Payload → Option A) → Option Payload → Option A
read f none = none
read f (some p) = f p

abbrev magic_claims : Payload → Option (Text × Text)
magic_claims p =
    if has_purpose (codes "magic_link") p then some (text_of p.email, text_of p.tenant_id) else none

abbrev calendar_claims : Payload → Option CalendarState
calendar_claims p =
    if has_purpose (codes "calendar_oauth") p
    then some (record {
      tenant_id = text_of p.tenant_id;
      user_id = text_of p.user_id;
      provider = p.provider;
    })
    else none

abbrev call_claim : Payload → Option Text
call_claim p = if has_purpose (codes "realtime_call") p then p.call_id else none

-- A verification that throws is `none`.
module _ (jwt : Jwt) where
  -- `JWT_EXPIRES_IN` and `MAGIC_LINK_TTL_MINUTES` of the configuration are arguments
  unfoldable pub sign_session : ℕ → ℕ → SessionClaims → Text
  sign_session lifetime now c = jwt.sign (session_payload c) (now + lifetime)

  unfoldable pub verify_session : ℕ → Text → Option SessionClaims
  verify_session now t = read (λ p. some (session_claims p)) (jwt.verify now t)

  unfoldable pub sign_magic_link : ℕ → ℕ → Text → Text → Text
  sign_magic_link ttl_minutes now email tenant =
      jwt.sign (magic_payload email tenant) (now + ttl_minutes * 60)

  unfoldable pub verify_magic_link : ℕ → Text → Option (Text × Text)
  verify_magic_link now t = read magic_claims (jwt.verify now t)

  unfoldable pub sign_calendar_state : ℕ → CalendarState → Text
  sign_calendar_state now s = jwt.sign (calendar_payload s) (now + 10 * 60)

  unfoldable pub verify_calendar_state : ℕ → Text → Option CalendarState
  verify_calendar_state now t = read calendar_claims (jwt.verify now t)

  unfoldable pub sign_call_token : ℕ → Text → Text
  sign_call_token now id = jwt.sign (call_payload id) (now + 15 * 60)

  unfoldable pub verify_call_token : ℕ → Text → Option Text
  verify_call_token now t = read call_claim (jwt.verify now t)

-- The payloads that the program signs.
pub data IsIssued : Payload → Type 0 where
  session : (c : SessionClaims) → IsIssued (session_payload c)
  magic : (email tenant : Text) → IsIssued (magic_payload email tenant)
  calendar : (s : CalendarState) → IsIssued (calendar_payload s)
  call : (id : Text) → IsIssued (call_payload id)

-- What a signature promises: a token that the program signs is read as it was signed, until it expires,
-- and who has not the secret makes no token that is accepted.
pub record Laws (jwt : Jwt) : Type 0 where
  pub signed :
      (p : Payload) (now expiry : ℕ)
      → IsIssued p
      → now < expiry
      → jwt.verify now (jwt.sign p expiry) ≡ some p
  pub genuine :
      (now : ℕ) (t : Text) (p : Payload)
      → jwt.verify now t ≡ some p
      → IsIssued p × ((expiry : ℕ) × (t ≡ jwt.sign p expiry) × (now < expiry))

call_claim-issued :
    (p : Payload) (id : Text) → IsIssued p → call_claim p ≡ some id → p ≡ call_payload id
call_claim-issued p id (session c) e = cc
call_claim-issued p id (magic email tenant) e = cc
call_claim-issued p id (calendar s) e = cc
call_claim-issued p id (call k) e = ap call_payload (ground (arith, e))

magic_claims-issued :
    (p : Payload) (email tenant : Text)
    → IsIssued p
    → magic_claims p ≡ some (email, tenant)
    → p ≡ magic_payload email tenant
magic_claims-issued p email tenant (session c) e = cc
magic_claims-issued p email tenant (magic m k) e =
    ap (λ (c : Text × Text). magic_payload c.0 c.1) (ground (arith, e))
magic_claims-issued p email tenant (calendar s) e = cc
magic_claims-issued p email tenant (call k) e = cc

calendar_claims-issued :
    (p : Payload) (s : CalendarState)
    → IsIssued p
    → calendar_claims p ≡ some s
    → p ≡ calendar_payload s
calendar_claims-issued p s (session c) e = cc
calendar_claims-issued p s (magic m k) e = cc
calendar_claims-issued p s (calendar u) e = ap calendar_payload (ground (arith, e))
calendar_claims-issued p s (call k) e = cc

-- A token that was signed with a payload, and has not expired.
abbrev pub IsSigned : Jwt → ℕ → Text → Payload → Type 0
IsSigned jwt now t p = (expiry : ℕ) × (t ≡ jwt.sign p expiry) × (now < expiry)

module _ (jwt : Jwt) (laws : Laws jwt) where
  accepted {ℓ} :
      {A : Type ℓ} (f : Payload → Option A) (issued : A → Payload)
      → ((p : Payload) (a : A) → IsIssued p → f p ≡ some a → p ≡ issued a)
      → (now : ℕ) (t : Text) (a : A) → read f (jwt.verify now t) ≡ some a
      → IsSigned jwt now t (issued a)
  accepted f issued h now t a e = elim (Option-cases (jwt.verify now t)) [
    | inl rejected ↦ absurd (ground (arith, rw rejected at e))
    | inr (p, read_as) ↦
        let token = laws.genuine now t p read_as in
        let same = h p a token.0 (rw read_as at e) in subst (IsSigned jwt now t) same token.1
  ]

  -- A token is accepted for one purpose only: one that opens the relay of a call was signed for that
  -- call, a magic link for its user and tenant, and the state of a calendar for its connection, and
  -- none of them has expired.
  pub tokens-IsSigned :
      (now : ℕ) (t : Text)
      → ((id : Text) → verify_call_token jwt now t ≡ some id → IsSigned jwt now t (call_payload id))
        × ((email tenant : Text)
            → verify_magic_link jwt now t ≡ some (email, tenant)
            → IsSigned jwt now t (magic_payload email tenant))
        × ((s : CalendarState)
            → verify_calendar_state jwt now t ≡ some s
            → IsSigned jwt now t (calendar_payload s))
  unfolding verify_call_token verify_magic_link verify_calendar_state
  tokens-IsSigned now t = (
    λ id e. accepted call_claim call_payload call_claim-issued now t id e,
    λ email tenant e.
        accepted magic_claims (λ c. magic_payload c.0 c.1)
          (λ p c i f. magic_claims-issued p c.0 c.1 i f) now t (email, tenant) e,
    λ s e. accepted calendar_claims calendar_payload calendar_claims-issued now t s e,
  )

  -- A token is read back until it expires, and not under another purpose.
  pub verify_call_token-sign_call_token :
      (now later : ℕ) (id : Text)
      → later < now + 15 * 60
      → (verify_call_token jwt later (sign_call_token jwt now id) ≡ some id)
        × (verify_magic_link jwt later (sign_call_token jwt now id) ≡ none)
        × (verify_calendar_state jwt later (sign_call_token jwt now id) ≡ none)
  unfolding verify_call_token verify_magic_link verify_calendar_state sign_call_token
  verify_call_token-sign_call_token now later id h =
      rw (laws.signed (call_payload id) later (now + 15 * 60) (call id) h) (refl, refl, refl)

  -- The state of a calendar consent is accepted as a session of its tenant too.
  pub verify_session-sign_calendar_state :
      (now later : ℕ) (s : CalendarState)
      → later < now + 10 * 60
      → verify_session jwt later (sign_calendar_state jwt now s)
        ≡ some (record {
          sub = codes "undefined";
          tenant_id = s.tenant_id;
          role = none;
          email = codes "undefined";
        })
  unfolding verify_session sign_calendar_state
  verify_session-sign_calendar_state now later s h =
      rw (laws.signed (calendar_payload s) later (now + 10 * 60) (calendar s) h) refl
