-- ===== src/Tests/Sessions.antt =====
-- Sessions and tokens, with a signature that writes down the payload and is checked by signing again.
use ai_phone_plattform.Prelude.{
  ℕ, zero, suc, length, ap, ◌≡◌, ◌<◌, refl, subst, arith, true, false, ◌&&◌, Option, none, some,
  List, [], ◌∷◌, ◌++◌, Text, codes, text_eq, text_eq_iff, text_eq_refl, ltb, ◌==◌, if◌then◌else◌,
  Bool-cases, inl, inr,
}
use ai_phone_plattform.Access.{
  super_admin, sent, failed_with, unauthorized, require_capability, role_has_capability,
  role_capabilities,
}
use ai_phone_plattform.Access.Tokens.{
  Payload, Jwt, SessionClaims, CalendarState, session_payload, magic_payload, calendar_payload,
  call_payload, IsIssued, session, magic, calendar, call, Laws, IsSigned, sign_call_token,
  verify_call_token, verify_magic_link, verify_calendar_state, tokens-IsSigned,
  verify_call_token-sign_call_token,
}
use ai_phone_plattform.Access.Login.{
  Account, logged_in, has_password, login, pick_membership, IsAdmitted, login-IsAdmitted,
}
use ai_phone_plattform.Admin.Accounts.{Operator, lock_user, login-lock_user}

abbrev anna : Account
anna = record {
  id = codes "u1";
  email = codes "anna@b.de";
  password_hash = some (codes "geheim");
  locked = false;
  tenant_users = record { tenant_id = codes "t1"; role = codes "TENANT_ADMIN" } ∷ [];
  last_login_at = none;
}

abbrev anna_session : SessionClaims
anna_session = record {
  sub = codes "u1";
  tenant_id = codes "t1";
  role = some (codes "TENANT_ADMIN");
  email = codes "anna@b.de";
}

anna-login :
    login text_eq (codes "anna@b.de") (codes "geheim") none 5 (anna ∷ [])
    ≡ (sent anna_session, logged_in (codes "u1") 5 (anna ∷ []))
unfolding login pick_membership
anna-login = refl

login-IsAdmitted_example :
    (a : IsAdmitted (anna ∷ []) (codes "anna@b.de") anna_session) × (has_password text_eq
        (codes "geheim")
        a.account.password_hash
      ≡ true)
login-IsAdmitted_example =
    login-IsAdmitted text_eq (codes "anna@b.de") (codes "geheim") none 5 (anna ∷ [])
      (logged_in (codes "u1") 5 (anna ∷ [])) anna_session anna-login

abbrev root : Operator
root = record {
  auth = record { user_id = 1; tenant_id = 1; role = super_admin; email = codes "root@b.de" };
  id = codes "u9";
}

lock_served : (lock_user (some root) (codes "u1") (anna ∷ [])).0 ≡ sent tt
unfolding lock_user require_capability role_has_capability role_capabilities
lock_served = refl

login-lock_user_example :
    (login text_eq
      (codes "anna@b.de")
      (codes "geheim")
      none
      5
      (lock_user (some root) (codes "u1") (anna ∷ [])).1).0
    ≡ failed_with unauthorized
login-lock_user_example =
    login-lock_user text_eq (some root) (codes "anna@b.de") (codes "geheim") none 5 (anna ∷ [])
      {u = anna} refl lock_served

-- A text with its end: a character follows a 2, a 1 ends it, and a 0 is no text.
abbrev written_text : Text → Text
written_text [] = 1 ∷ []
written_text (c ∷ s) = 2 ∷ c ∷ written_text s

abbrev written : Option Text → Text
written none = 0 ∷ []
written (some s) = written_text s

abbrev with_char : ℕ → Option Text × Text → Option Text × Text
with_char c (none, rest) = (none, rest)
with_char c (some s, rest) = (some (c ∷ s), rest)

abbrev field : Text → Option Text × Text
field [] = (none, [])
field (mark ∷ []) = (if mark == 1 then some [] else none, [])
field (mark ∷ c ∷ rest) =
    let later = field rest in
    if mark == 2
    then with_char c later
    else if mark == 1
    then (some [], c ∷ rest)
    else (none, c ∷ rest)

field-written_text : (s rest : Text) → field (written_text s ++ rest) ≡ (some s, rest)
field-written_text [] [] = refl
field-written_text [] (c ∷ rest) = refl
field-written_text (c ∷ s) rest = rw (field-written_text s rest) refl

field-written : (o : Option Text) (rest : Text) → field (written o ++ rest) ≡ (o, rest)
field-written none [] = refl
field-written none (c ∷ rest) = refl
field-written (some s) rest = field-written_text s rest

abbrev written_all : List (Option Text) → Text
written_all [] = []
written_all (o ∷ os) = written o ++ written_all os

pub fields_of : ℕ → Text → List (Option Text)
fields_of zero s = []
fields_of (suc n) s = let f = field s in f.0 ∷ fields_of n f.1

fields_of-written_all : (os : List (Option Text)) → fields_of (length os) (written_all os) ≡ os
unfolding fields_of
fields_of-written_all [] = refl
fields_of-written_all (o ∷ os) =
    rw (field-written o (written_all os)) (ap (λ l. o ∷ l) (fields_of-written_all os))

-- the claims of a payload, in a fixed order
abbrev claims_of : Payload → List (Option Text)
claims_of p =
    p.sub ∷ p.tenant_id ∷ p.user_id ∷ p.role ∷ p.email ∷ p.provider ∷ p.call_id ∷ p.purpose ∷ []

-- The payloads that the program signs, found by their claims.
abbrev issue : List (Option Text) → Option ((p : Payload) × IsIssued p)
issue (some s ∷ some t ∷ none ∷ r ∷ some e ∷ none ∷ none ∷ none ∷ []) =
    let c : SessionClaims = record { sub = s; tenant_id = t; role = r; email = e } in
    some (session_payload c, session c)
issue (none ∷ some t ∷ none ∷ none ∷ some e ∷ none ∷ none ∷ some purpose ∷ []) =
    if text_eq purpose (codes "magic_link") then some (magic_payload e t, magic e t) else none
issue (none ∷ some t ∷ some u ∷ none ∷ none ∷ p ∷ none ∷ some purpose ∷ []) =
    let s : CalendarState = record { tenant_id = t; user_id = u; provider = p } in
    if text_eq purpose (codes "calendar_oauth") then some (calendar_payload s, calendar s) else none
issue (none ∷ none ∷ none ∷ none ∷ none ∷ none ∷ some id ∷ some purpose ∷ []) =
    if text_eq purpose (codes "realtime_call") then some (call_payload id, call id) else none
issue _ = none

abbrev signed_text : Payload → ℕ → Text
signed_text p expiry = expiry ∷ written_all (claims_of p)

abbrev confirmed :
    ℕ → ℕ → Text → Option ((p : Payload) × IsIssued p) → Option ((p : Payload) × IsIssued p)
confirmed now expiry t none = none
confirmed now expiry t (some (p, i)) =
    if text_eq t (signed_text p expiry) && ltb now expiry then some (p, i) else none

abbrev verified : ℕ → Text → Option ((p : Payload) × IsIssued p)
verified now [] = none
verified now (expiry ∷ s) = confirmed now expiry (expiry ∷ s) (issue (fields_of 8 s))

abbrev payload : Option ((p : Payload) × IsIssued p) → Option Payload
payload none = none
payload (some (p, i)) = some p

abbrev pub written_down : Jwt
written_down = record { sign = signed_text; verify = λ now t. payload (verified now t) }

issue-claims_of : (p : Payload) (i : IsIssued p) → issue (claims_of p) ≡ some (p, i)
issue-claims_of p (session c) = refl
issue-claims_of p (magic email tenant) = refl
issue-claims_of p (calendar s) = refl
issue-claims_of p (call id) = refl

confirmed-some :
    (now expiry : ℕ) (t : Text) (o : Option ((p : Payload) × IsIssued p)) (q : Payload)
    → payload (confirmed now expiry t o) ≡ some q
    → IsIssued q × ((e : ℕ) × (t ≡ signed_text q e) × (now < e))
confirmed-some now expiry t none q h = absurd (ground (arith, h))
confirmed-some now expiry t (some (p, i)) q h =
    elim (Bool-cases (text_eq t (signed_text p expiry))) [
      | inl same ↦ elim (Bool-cases (ltb now expiry)) [
        | inl fresh ↦
            let e : p ≡ q = ground (arith, rw (same, fresh) at h) in
            subst (λ r. IsIssued r × ((k : ℕ) × (t ≡ signed_text r k) × (now < k))) e
              (i, (expiry, (text_eq_iff t (signed_text p expiry)).0 same, ground arith))
        | inr late ↦ absurd (ground (arith, rw (same, late) at h))
      ]
      | inr forged ↦ absurd (ground (arith, rw forged at h))
    ]

ltb-true : (n m : ℕ) → n < m → ltb n m ≡ true
ltb-true n m h = ground arith

pub written_down-Laws : Laws written_down
written_down-Laws = record {
  signed = λ p now expiry i fresh.
      rw
        (
          fields_of-written_all (claims_of p),
          issue-claims_of p i,
          text_eq_refl (signed_text p expiry),
          ltb-true now expiry fresh,
        )
        refl;
  genuine = λ now t p h. genuine_text now t p h;
}
  where
    genuine_text :
        (now : ℕ) (t : Text) (p : Payload)
        → payload (verified now t) ≡ some p
        → IsIssued p × ((e : ℕ) × (t ≡ signed_text p e) × (now < e))
    genuine_text now [] p h = absurd (ground (arith, h))
    genuine_text now (expiry ∷ s) p h =
        confirmed-some now expiry (expiry ∷ s) (issue (fields_of 8 s)) p h

abbrev token : Text
token = sign_call_token written_down 0 (codes "c1")

token-call : verify_call_token written_down 5 token ≡ some (codes "c1")
token-call =
    (verify_call_token-sign_call_token written_down written_down-Laws 0 5 (codes "c1")
      (omega arith)).0

tokens-IsSigned_example :
    ((id : Text)
      → verify_call_token written_down 5 token ≡ some id
      → IsSigned written_down 5 token (call_payload id))
    × ((email tenant : Text)
        → verify_magic_link written_down 5 token ≡ some (email, tenant)
        → IsSigned written_down 5 token (magic_payload email tenant))
    × ((s : CalendarState)
        → verify_calendar_state written_down 5 token ≡ some s
        → IsSigned written_down 5 token (calendar_payload s))
tokens-IsSigned_example = tokens-IsSigned written_down written_down-Laws 5 token

-- The token of a call is signed.
token-IsSigned : IsSigned written_down 5 token (call_payload (codes "c1"))
token-IsSigned = (tokens-IsSigned written_down written_down-Laws 5 token).0 (codes "c1") token-call
