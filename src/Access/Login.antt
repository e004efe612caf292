-- ===== src/Access/Login.antt =====
-- The handlers of apps/api/src/routes/auth.ts that issue sessions. `verifyPassword` is a parameter,
-- the audit rows and the mail with the link are not modelled, and bodies are parsed.
use ai_phone_plattform.Prelude.{
  ℕ, ◌≡◌, inl, inr, refl, arith, Bool, true, false, not, Option, none, some, List, [], ◌∷◌, Text,
  text_eq, find, keep, Bool-cases, if◌then◌else◌,
}
use mathlib.Core.List.{Memᴰ}
use ai_phone_plattform.Access.{unauthorized, bad_request, Reply, sent, failed_with}
use ai_phone_plattform.Access.Tokens.{Jwt, SessionClaims, verify_magic_link}

pub record Membership : Type 0 where
  pub tenant_id : Text
  pub role : Text

-- a user with its memberships
pub record Account : Type 0 where
  pub id : Text
  pub email : Text
  pub password_hash : Option Text
  pub locked : Bool
  pub tenant_users : List Membership
  pub last_login_at : Option ℕ

abbrev pub in_tenant : Text → Membership → Bool
in_tenant tenant m = text_eq m.tenant_id tenant

abbrev first : List Membership → Option Membership
first [] = none
first (m ∷ ms) = some m

-- `pickMembership`
unfoldable pub pick_membership : List Membership → Option Text → Option Membership
pick_membership ms none = first ms
pick_membership ms (some tenant) = find (in_tenant tenant) ms

abbrev pub by_email : Text → Account → Bool
by_email email u = text_eq u.email email

abbrev pub by_id : Text → Account → Bool
by_id id u = text_eq u.id id

-- `prisma.user.update` of the last login
unfoldable pub logged_in : Text → ℕ → List Account → List Account
logged_in id now [] = []
logged_in id now (u ∷ users) =
    let rest = logged_in id now users in
    if by_id id u then record u { last_login_at = some now } ∷ rest else u ∷ rest

abbrev pub session_of : Account → Membership → SessionClaims
session_of u m = record { sub = u.id; tenant_id = m.tenant_id; role = some m.role; email = u.email }

abbrev pub admitted :
    Account → ℕ → Option Membership → List Account → Reply SessionClaims × List Account
admitted u now none users = (failed_with unauthorized, users)
admitted u now (some m) users = (sent (session_of u m), logged_in u.id now users)

module _ (verify_password : Text → Text → Bool) where
  -- an account without a password has no hash, or an empty one
  abbrev pub has_password : Text → Option Text → Bool
  has_password password none = false
  has_password password (some []) = false
  has_password password (some (c ∷ hash)) = verify_password password (c ∷ hash)

  abbrev pub checked :
      Text → Option Text → ℕ → Option Account → List Account → Reply SessionClaims × List Account
  checked password tenant now none users = (failed_with unauthorized, users)
  checked password tenant now (some u) users =
      if not (has_password password u.password_hash)
      then (failed_with unauthorized, users)
      else if u.locked
      then (failed_with unauthorized, users)
      else admitted u now (pick_membership u.tenant_users tenant) users

  -- `POST /auth/login`, up to the signing of the session
  unfoldable pub login :
      Text → Text → Option Text → ℕ → List Account → Reply SessionClaims × List Account
  login email password tenant now users =
      checked password tenant now (find (by_email email) users) users

abbrev pub followed : Text → ℕ → Option Account → List Account → Reply SessionClaims × List Account
followed tenant now none users = (failed_with unauthorized, users)
followed tenant now (some u) users =
    let membership = first (keep (in_tenant tenant) u.tenant_users) in
    elim membership [
      | none ↦ (failed_with unauthorized, users)
      | some m ↦
          if u.locked
          then (failed_with unauthorized, users)
          else (sent (session_of u m), logged_in u.id now users)
    ]

abbrev pub link_read : ℕ → Option (Text × Text) → List Account → Reply SessionClaims × List Account
link_read now none users = (failed_with bad_request, users)
link_read now (some (email, tenant)) users = followed tenant now (find (by_email email) users) users

-- `POST /auth/magic-link/verify`
unfoldable pub verify_link : Jwt → Text → ℕ → List Account → Reply SessionClaims × List Account
verify_link jwt token now users = link_read now (verify_magic_link jwt now token) users

abbrev pub switched : SessionClaims → Option Membership → Reply SessionClaims
switched auth none = failed_with unauthorized
switched auth (some m) = sent (record auth { tenant_id = m.tenant_id; role = some m.role })

abbrev memberships_of : Option Account → List Membership
memberships_of none = []
memberships_of (some u) = u.tenant_users

-- `POST /auth/switch-tenant`, with the claims of the session
unfoldable pub switch_tenant : SessionClaims → Text → List Account → Reply SessionClaims
switch_tenant auth tenant users =
    switched auth (find (in_tenant tenant) (memberships_of (find (by_id auth.sub) users)))

-- A session of an account that is not locked, for one of its memberships.
pub record IsAdmitted (users : List Account) (email : Text) (c : SessionClaims) : Type 0 where
  pub account : Account
  pub found : find (by_email email) users ≡ some account
  pub unlocked : account.locked ≡ false
  pub membership : Membership
  pub member : Memᴰ membership account.tenant_users
  pub session : c ≡ session_of account membership

find-Mem :
    (p : Membership → Bool) (ms : List Membership) (m : Membership) → find p ms ≡ some m → Memᴰ m ms
find-Mem p [] m e = absurd (ground (arith, e))
find-Mem p (n ∷ ms) m e = elim (Bool-cases (p n)) [
  | inl here ↦ Memᴰ.head (ground (arith, rw here at e))
  | inr other ↦ Memᴰ.tail (find-Mem p ms m (rw other at e))
]

pick-Mem :
    (ms : List Membership) (tenant : Option Text) (m : Membership)
    → pick_membership ms tenant ≡ some m
    → Memᴰ m ms
unfolding pick_membership
pick-Mem [] none m e = absurd (ground (arith, e))
pick-Mem (n ∷ ms) none m e = Memᴰ.head (ground (arith, e))
pick-Mem ms (some tenant) m e = find-Mem (in_tenant tenant) ms m e

-- How a member is admitted, inverted.
admitted-sent :
    (u : Account) (now : ℕ) (o : Option Membership) (users after : List Account) (c : SessionClaims)
    → admitted u now o users ≡ (sent c, after)
    → (m : Membership) × (o ≡ some m) × (c ≡ session_of u m)
admitted-sent u now none users after c e = absurd (ground (arith, e))
admitted-sent u now (some m) users after c e = (m, refl, ground (arith, e))

module _ (verify_password : Text → Text → Bool) (email password : Text) (tenant : Option Text)
    (now : ℕ) (users after : List Account) (c : SessionClaims) where
  checked-IsAdmitted :
      (o : Option Account)
      → find (by_email email) users ≡ o
      → checked verify_password password tenant now o users ≡ (sent c, after)
      → (a : IsAdmitted users email c) × (has_password verify_password password
            a.account.password_hash
          ≡ true)
  checked-IsAdmitted none f e = absurd (ground (arith, e))
  checked-IsAdmitted (some u) f e =
      elim (Bool-cases (has_password verify_password password u.password_hash)) [
        | inl right ↦ elim (Bool-cases u.locked) [
          | inl locked ↦ absurd (ground (arith, rw (right, locked) at e))
          | inr unlocked ↦
              let (m, picked, session) =
                admitted-sent u now (pick_membership u.tenant_users tenant) users after c
                  (rw (right, unlocked) at e) in
              (
                record {
                  account = u;
                  found = f;
                  unlocked = unlocked;
                  membership = m;
                  member = pick-Mem u.tenant_users tenant m picked;
                  session = session;
                },
                right,
              )
        ]
        | inr wrong ↦ absurd (ground (arith, rw wrong at e))
      ]

  -- A login is admitted only with the password of an account that is not locked, and for one of its
  -- memberships.
  pub login-IsAdmitted :
      login verify_password email password tenant now users ≡ (sent c, after)
      → (a : IsAdmitted users email c) × (has_password verify_password password
            a.account.password_hash
          ≡ true)
  unfolding login
  login-IsAdmitted e = checked-IsAdmitted (find (by_email email) users) refl e

-- A locked account cannot log in, but a session that it has is renewed for any of its tenants.
pub switch_tenant-locked :
    (verify_password : Text → Text → Bool) (auth : SessionClaims) (password : Text) (tenant : Text)
    (asked : Option Text) (now : ℕ) (users : List Account) {u : Account} {m : Membership}
    → u.locked ≡ true
    → find (by_id auth.sub) users ≡ some u
    → find (by_email auth.email) users ≡ some u
    → find (in_tenant tenant) u.tenant_users ≡ some m
    → (login verify_password auth.email password asked now users
        ≡ (failed_with unauthorized, users))
      × (switch_tenant auth tenant users
          ≡ sent (record auth { tenant_id = m.tenant_id; role = some m.role }))
unfolding login switch_tenant
switch_tenant-locked verify_password auth password tenant asked now users {u} locked own mail
      member =
    (
      elim (Bool-cases (has_password verify_password password u.password_hash)) [
        | inl right ↦ rw (mail, right, locked) refl
        | inr wrong ↦ rw (mail, wrong) refl
      ],
      rw (own, member) refl,
    )
