-- ===== src/Calendar/Connections.antt =====
-- The calendar connections of all tenants: the first half of
-- apps/api/src/services/calendar.service.ts, and the OAuth callback of apps/api/src/routes/integrations.ts. A
-- provider is a port whose calls may throw; a name that is no provider has a port whose calls all
-- throw. The iv of each encryption is an argument. Audits are not modelled.
pub mod Kept
pub mod Served
use ai_phone_plattform.Prelude.{
  ℕ, suc, ◌+◌, Bool, true, false, not, ◌&&◌, Option, none, some, or_else, List, [], ◌∷◌, ◌++◌, Text,
  codes, text_eq, find, any, keep, ltb, ◌==◌, if◌then◌else◌,
}
use ai_phone_plattform.World.{ConnectionStatus, active, attention, error}
use ai_phone_plattform.Exec.{Outcome, ok, threw}
use ai_phone_plattform.Crypto.{Primitives, Bytes, encrypt, decrypt}
use ai_phone_plattform.Access.Tokens.{Jwt, CalendarState, verify_calendar_state}

-- `OAuthTokens`
pub record OauthTokens : Type 0 where
  pub access_token : Text
  pub refresh_token : Option Text
  pub expires_at : Option ℕ
  pub account_email : Option Text
  pub scope : Option Text

pub record Connection : Type 0 where
  pub id : ℕ
  pub tenant_id : Text
  pub provider : Text
  pub access_token_enc : Text
  pub refresh_token_enc : Option Text
  pub expires_at : Option ℕ
  pub account_email : Option Text
  pub scope : Option Text
  pub calendar_id : Text
  pub status : ConnectionStatus

pub record ConnectionStore : Type 0 where
  pub rows : List Connection
  pub next_id : ℕ

-- `none` is an error that is thrown
pub record CalendarPort : Type 0 where
  pub exchange_code : Text → Option OauthTokens
  pub refresh : Text → Option OauthTokens
  pub lists_calendars : Text → Bool

-- the random iv of the access token, and that of the refresh token
pub record Ivs : Type 0 where
  pub access : Bytes
  pub refresh : Bytes

-- `uiStatus`
pub data Light : Type 0 where
  green yellow red : Light

unfoldable pub ui_status : ConnectionStatus → Light
ui_status active = green
ui_status attention = yellow
ui_status error = red

abbrev pub is_connection : Text → Text → Connection → Bool
is_connection tenant provider r = text_eq r.tenant_id tenant && text_eq r.provider provider

unfoldable pub update_where :
    (Connection → Bool) → (Connection → Connection) → List Connection → List Connection
update_where p f [] = []
update_where p f (r ∷ rows) =
    let rest = update_where p f rows in if p r then f r ∷ rest else r ∷ rest

-- a text that is given and not empty
abbrev pub chosen : Option Text → Option Text → Option Text
chosen none old = old
chosen (some []) old = old
chosen (some (c ∷ s)) old = some (c ∷ s)

module _ (c : Primitives) where
  -- `encryptNullable`
  abbrev pub sealed : Bytes → Option Text → Option Text
  sealed iv none = none
  sealed iv (some s) = some (encrypt c iv s)

  -- a refresh token that is given and not empty replaces the old one
  abbrev pub resealed : Bytes → Option Text → Option Text → Option Text
  resealed iv none old = old
  resealed iv (some []) old = old
  resealed iv (some (d ∷ s)) old = some (encrypt c iv (d ∷ s))

  abbrev pub new_connection : Ivs → Text → Text → OauthTokens → ℕ → Connection
  new_connection ivs tenant provider tokens id = record {
    id = id;
    tenant_id = tenant;
    provider = provider;
    access_token_enc = encrypt c ivs.access tokens.access_token;
    refresh_token_enc = sealed ivs.refresh tokens.refresh_token;
    expires_at = tokens.expires_at;
    account_email = tokens.account_email;
    scope = tokens.scope;
    calendar_id = codes "primary";
    status = active;
  }

  abbrev pub reconnected : Ivs → OauthTokens → Connection → Connection
  reconnected ivs tokens r = record r {
    access_token_enc = encrypt c ivs.access tokens.access_token;
    refresh_token_enc = resealed ivs.refresh tokens.refresh_token r.refresh_token_enc;
    expires_at = tokens.expires_at;
    account_email = chosen tokens.account_email r.account_email;
    scope = tokens.scope;
    status = active;
  }

  -- `upsertConnection`
  unfoldable pub upsert_connection :
      Ivs → Text → Text → OauthTokens → ConnectionStore → ConnectionStore
  upsert_connection ivs tenant provider tokens s =
      if any (is_connection tenant provider) s.rows
      then record s {
        rows = update_where (is_connection tenant provider) (reconnected ivs tokens) s.rows;
      }
      else record {
        rows = s.rows ++ new_connection ivs tenant provider tokens s.next_id ∷ [];
        next_id = suc s.next_id;
      }

  abbrev exchanged :
      Ivs → Text → Text → Option OauthTokens → ConnectionStore → Outcome Text × ConnectionStore
  exchanged ivs tenant provider none s = (threw, s)
  exchanged ivs tenant provider (some tokens) s =
      (ok provider, upsert_connection ivs tenant provider tokens s)

  -- a state without a provider names no port
  abbrev pub stated :
      (Text → CalendarPort)
      → Ivs
      → Text
      → Option CalendarState
      → ConnectionStore
      → Outcome Text × ConnectionStore
  stated port ivs code none s = (threw, s)
  stated port ivs code (some state) s = elim state.provider [
    | none ↦ (threw, s)
    | some provider ↦ exchanged ivs state.tenant_id provider ((port provider).exchange_code code) s
  ]

  -- `completeOAuth`
  unfoldable pub complete_oauth :
      Jwt
      → (Text → CalendarPort)
      → Ivs
      → ℕ
      → Text
      → Text
      → ConnectionStore
      → Outcome Text × ConnectionStore
  complete_oauth jwt port ivs now token code s =
      stated port ivs code (verify_calendar_state jwt now token) s

  abbrev outcome_of : Option Text → Outcome Text
  outcome_of none = threw
  outcome_of (some t) = ok t

  abbrev pub is_fresh : ℕ → Option ℕ → Bool
  is_fresh now none = false
  is_fresh now (some expiry) = ltb (now + 60000) expiry

  abbrev pub refreshed_row : Ivs → OauthTokens → Connection → Connection
  refreshed_row ivs tokens r = record r {
    access_token_enc = encrypt c ivs.access tokens.access_token;
    refresh_token_enc = resealed ivs.refresh tokens.refresh_token r.refresh_token_enc;
    expires_at = tokens.expires_at;
    status = active;
  }

  abbrev has_id : ℕ → Connection → Bool
  has_id id r = r.id == id

  abbrev pub renewed :
      Ivs → Connection → Option OauthTokens → ConnectionStore → Outcome Text × ConnectionStore
  renewed ivs row none s = (threw, s)
  renewed ivs row (some tokens) s = (
    ok tokens.access_token,
    record s { rows = update_where (has_id row.id) (refreshed_row ivs tokens) s.rows },
  )

  abbrev pub wrapped : Option Text → Option (Option Text)
  wrapped none = none
  wrapped (some t) = some (some t)

  -- `decryptNullable`
  abbrev pub unsealed : Option Text → Option (Option Text)
  unsealed none = some none
  unsealed (some s) = wrapped (decrypt c s)

  abbrev pub renewing :
      CalendarPort
      → Ivs
      → Connection
      → Option (Option Text)
      → ConnectionStore
      → Outcome Text × ConnectionStore
  renewing port ivs row none s = (threw, s)
  renewing port ivs row (some none) s = (outcome_of (decrypt c row.access_token_enc), s)
  renewing port ivs row (some (some [])) s = (outcome_of (decrypt c row.access_token_enc), s)
  renewing port ivs row (some (some (d ∷ t))) s = renewed ivs row (port.refresh (d ∷ t)) s

  -- `validAccessToken`
  unfoldable pub valid_access_token :
      CalendarPort → Ivs → ℕ → Connection → ConnectionStore → Outcome Text × ConnectionStore
  valid_access_token port ivs now row s =
      if is_fresh now row.expires_at
      then (outcome_of (decrypt c row.access_token_enc), s)
      else renewing port ivs row (unsealed row.refresh_token_enc) s

  abbrev with_status : ConnectionStatus → Connection → Connection
  with_status status r = record r { status = status }

  abbrev pub marked : ℕ → ConnectionStatus → ConnectionStore → ConnectionStore
  marked id status s = record s { rows = update_where (has_id id) (with_status status) s.rows }

  abbrev pub tested : CalendarPort → ℕ → Outcome Text × ConnectionStore → Bool × ConnectionStore
  tested port id (threw, s) = (false, marked id error s)
  tested port id (ok token, s) =
      if port.lists_calendars token then (true, marked id active s) else (false, marked id error s)

  abbrev pub probed :
      CalendarPort → Ivs → ℕ → Option Connection → ConnectionStore → Bool × ConnectionStore
  probed port ivs now none s = (false, s)
  probed port ivs now (some row) s = tested port row.id (valid_access_token port ivs now row s)

  -- `testConnection`
  unfoldable pub test_connection :
      (Text → CalendarPort) → Ivs → ℕ → Text → Text → ConnectionStore → Bool × ConnectionStore
  test_connection port ivs now tenant provider s =
      probed (port provider) ivs now (find (is_connection tenant provider) s.rows) s

abbrev with_calendar : Text → Connection → Connection
with_calendar calendar r = record r { calendar_id = calendar }

-- `setDefaultCalendar`
unfoldable pub set_default_calendar : Text → Text → Text → ConnectionStore → ConnectionStore
set_default_calendar tenant provider calendar s = record s {
  rows = update_where (is_connection tenant provider) (with_calendar calendar) s.rows;
}

-- `disconnectCalendar`
unfoldable pub disconnect_calendar : Text → Text → ConnectionStore → ConnectionStore
disconnect_calendar tenant provider s = record s {
  rows = keep (λ r. not (is_connection tenant provider r)) s.rows;
}
