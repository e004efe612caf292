-- ===== src/Access.antt =====
-- Roles and users: packages/shared/src/constants.ts, apps/api/src/plugins/auth.ts and
-- apps/api/src/routes/users.ts.
pub mod Users
pub mod Tenancy
pub mod Tokens
pub mod Login
use ai_phone_plattform.Prelude.{
  ℕ, ◌≡◌, refl, Bool, true, false, ◌||◌, Option, none, some, List, [], ◌∷◌, Text, codes, text_eq,
  starts_with, any, if◌then◌else◌, Bool-cases, inl, inr,
}

pub data Role : Type 0 where
  super_admin platform_support billing tenant_admin tenant_member read_only : Role

abbrev pub is_platform_role : Role → Bool
is_platform_role super_admin = true
is_platform_role platform_support = true
is_platform_role billing = true
is_platform_role _ = false

abbrev pub is_super_admin : Role → Bool
is_super_admin super_admin = true
is_super_admin _ = false

-- `ROLE_CAPABILITIES`
unfoldable pub role_capabilities : Role → List Text
role_capabilities super_admin = codes "*" ∷ []
role_capabilities platform_support =
    codes "platform:dashboard"
    ∷ codes "platform:tenants:read"
    ∷ codes "platform:phone:test"
    ∷ codes "platform:providers:read"
    ∷ codes "platform:monitoring"
    ∷ codes "platform:logs"
    ∷ codes "platform:audit"
    ∷ codes "platform:system"
    ∷ []
role_capabilities billing = codes "platform:dashboard" ∷ codes "platform:billing:read" ∷ []
role_capabilities tenant_admin =
    codes "tenant:read"
    ∷ codes "tenant:write"
    ∷ codes "questionnaire:write"
    ∷ codes "calls:read"
    ∷ codes "calls:delete"
    ∷ codes "billing:read"
    ∷ codes "users:write"
    ∷ []
role_capabilities tenant_member =
    codes "tenant:read" ∷ codes "calls:read" ∷ codes "calls:export" ∷ []
role_capabilities read_only = codes "tenant:read" ∷ codes "calls:read" ∷ []

-- `roleHasCapability`, and `hasCapability` of the plugin
unfoldable pub role_has_capability : Role → Text → Bool
role_has_capability role capability =
    any (text_eq (codes "*")) (role_capabilities role)
    || any (text_eq capability) (role_capabilities role)

pub record RequestAuth : Type 0 where
  pub user_id : ℕ
  pub tenant_id : ℕ
  pub role : Role
  pub email : Text

pub data HttpError : Type 0 where
  unauthorized forbidden bad_request not_found conflicting server_error : HttpError

pub data Reply (A : Type 0) : Type 0 where
  sent : A → Reply A
  failed_with : HttpError → Reply A

abbrev verified : Option RequestAuth → Reply RequestAuth
verified none = failed_with unauthorized
verified (some auth) = sent auth

-- `header.slice('Bearer '.length)`
abbrev pub drop_bearer : Text → Text
drop_bearer (_ ∷ _ ∷ _ ∷ _ ∷ _ ∷ _ ∷ _ ∷ token) = token
drop_bearer _ = []

-- `authenticate`, where `verify` is `verifySession` of the text behind `Bearer `
unfoldable pub authenticate : (Text → Option RequestAuth) → Option Text → Reply RequestAuth
authenticate verify none = failed_with unauthorized
authenticate verify (some header) =
    if starts_with (codes "Bearer ") header
    then verified (verify (drop_bearer header))
    else failed_with unauthorized

unfoldable pub require_capability : Text → Option RequestAuth → Reply RequestAuth
require_capability capability none = failed_with unauthorized
require_capability capability (some auth) =
    if is_super_admin auth.role || role_has_capability auth.role capability
    then sent auth
    else failed_with forbidden

-- A handler behind `preHandler: [app.requireCapability(…)]`, on the rows that it reads and writes.
abbrev pub guarded :
    {S A : Type 0} → (RequestAuth → S → Reply A × S) → Reply RequestAuth → S → Reply A × S
guarded handler (failed_with e) s = (failed_with e, s)
guarded handler (sent auth) s = handler auth s

-- What a refused request leaves alone and a served one keeps.
pub guarded-keeps {κ} :
    {S A : Type 0} (P : S → Type κ) (handler : RequestAuth → S → Reply A × S)
    (r : Reply RequestAuth) (s : S)
    → P s
    → ((auth : RequestAuth) → P (handler auth s).1)
    → P (guarded handler r s).1
guarded-keeps P handler (failed_with e) s h k = h
guarded-keeps P handler (sent auth) s h k = k auth

-- A guarded request of a session, served for that session or refused.
pub guarded-own {κ} :
    {S A : Type 0} (P : S → Type κ) (handler : RequestAuth → S → Reply A × S) (capability : Text)
    (auth : RequestAuth) (s : S)
    → P s
    → P (handler auth s).1
    → P (guarded handler (require_capability capability (some auth)) s).1
unfolding require_capability
guarded-own P handler capability auth s h k =
    elim (Bool-cases (is_super_admin auth.role || role_has_capability auth.role capability)) [
      | inl allowed ↦ rw allowed k
      | inr refused ↦ rw refused h
    ]

pub branch-keeps {κ} :
    {S A : Type 0} (P : S → Type κ) (b : Bool) (x y : Reply A × S)
    → (b ≡ true → P x.1)
    → (b ≡ false → P y.1)
    → P (if b then x else y).1
branch-keeps P true x y f g = f refl
branch-keeps P false x y f g = g refl
