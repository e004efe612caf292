-- ===== src/Access/Users.antt =====
-- The handlers of apps/api/src/routes/users.ts that change users, on the rows of users and memberships.
-- The hash of a password is a parameter, and so are the schemas: a body is parsed.
use ai_phone_plattform.Prelude.{
  ℕ, suc, Bool, not, ◌&&◌, ◌||◌, Option, none, some, List, [], ◌∷◌, ◌++◌, String, Text, codes,
  text_eq, is_empty, find, any, keep, ◌==◌, if◌then◌else◌,
}
use ai_phone_plattform.Access.{
  Role, is_platform_role, is_super_admin, RequestAuth, forbidden, bad_request, not_found, Reply,
  sent, failed_with, require_capability,
}

pub record User : Type 0 where
  pub id : ℕ
  pub email : Text
  pub name : Option Text
  pub password_hash : Option Text

pub record Membership : Type 0 where
  pub tenant_id : ℕ
  pub user_id : ℕ
  pub role : Role

pub record Directory : Type 0 where
  pub users : List User
  pub memberships : List Membership
  -- the id of the next new user
  pub next_id : ℕ
  pub audits : List String

pub record CreateUser : Type 0 where
  pub email : Text
  pub name : Option Text
  pub role : Role
  pub password : Option Text

abbrev pub is_member : ℕ → ℕ → Membership → Bool
is_member tenant user m = m.tenant_id == tenant && m.user_id == user

unfoldable pub set_role : ℕ → ℕ → Role → List Membership → List Membership
set_role tenant user role [] = []
set_role tenant user role (m ∷ ms) =
    let rest = set_role tenant user role ms in
    if is_member tenant user m then record m { role = role } ∷ rest else m ∷ rest

-- `prisma.tenantUser.upsert`
unfoldable pub upsert_membership : ℕ → ℕ → Role → List Membership → List Membership
upsert_membership tenant user role ms =
    if any (is_member tenant user) ms
    then set_role tenant user role ms
    else ms ++ record { tenant_id = tenant; user_id = user; role = role } ∷ []

abbrev given : Option Text → Option Text → Option Text
given none old = old
given (some new) old = some new

abbrev pub updated_user : Option Text → Option Text → User → User
updated_user name hash u = record u {
  name = given name u.name;
  password_hash = given hash u.password_hash;
}

unfoldable pub update_user : Text → Option Text → Option Text → List User → List User
update_user email name hash [] = []
update_user email name hash (u ∷ users) =
    if text_eq u.email email
    then updated_user name hash u ∷ users
    else u ∷ update_user email name hash users

module _ (hash_password : Text → Text) where
  -- an empty password is no password
  abbrev pub hashed : Option Text → Option Text
  hashed none = none
  hashed (some p) = if is_empty p then none else some (hash_password p)

  abbrev pub found_user : Text → List User → Option User
  found_user email = find (λ u. text_eq u.email email)

  abbrev pub joined : ℕ → CreateUser → Option User → Directory → ℕ × Directory
  joined tenant input (some u) d = (
    u.id,
    record d {
      users = update_user input.email input.name (hashed input.password) d.users;
      memberships = upsert_membership tenant u.id input.role d.memberships;
    },
  )
  joined tenant input none d = (
    d.next_id,
    record d {
      users =
          d.users
          ++ record {
            id = d.next_id;
            email = input.email;
            name = input.name;
            password_hash = hashed input.password;
          }
            ∷ [];
      memberships = upsert_membership tenant d.next_id input.role d.memberships;
      next_id = suc d.next_id;
    },
  )

  -- `upsertTenantUser`
  unfoldable pub upsert_tenant_user : ℕ → CreateUser → Directory → ℕ × Directory
  upsert_tenant_user tenant input d = joined tenant input (found_user input.email d.users) d

  abbrev pub audit : String → Directory → Directory
  audit action d = record d { audits = d.audits ++ action ∷ [] }

  abbrev pub may_grant : RequestAuth → Role → Bool
  may_grant auth role = not (is_platform_role role) || is_super_admin auth.role

  abbrev pub invited : RequestAuth → CreateUser → Directory → Reply ℕ × Directory
  invited auth body d =
      if may_grant auth body.role
      then (let (user, d') = upsert_tenant_user auth.tenant_id body d in
          (sent user, audit "user.invite" d'))
      else (failed_with forbidden, d)

  abbrev pub guarded :
      {A : Type 0}
      → (RequestAuth → Directory → Reply A × Directory)
      → Reply RequestAuth
      → Directory
      → Reply A × Directory
  guarded handler (failed_with e) d = (failed_with e, d)
  guarded handler (sent auth) d = handler auth d

  -- `POST /users`
  unfoldable pub invite_user : Option RequestAuth → CreateUser → Directory → Reply ℕ × Directory
  invite_user auth body d =
      guarded (λ a. invited a body) (require_capability (codes "users:write") auth) d

  abbrev pub role_changed : RequestAuth → ℕ → Role → Directory → Reply Role × Directory
  role_changed auth user role d =
      if not (may_grant auth role)
      then (failed_with forbidden, d)
      else if user == auth.user_id
      then (failed_with bad_request, d)
      else if any (is_member auth.tenant_id user) d.memberships
      then (
        sent role,
        audit "user.role_change"
            (record d { memberships = set_role auth.tenant_id user role d.memberships }),
      )
      else (failed_with not_found, d)

  -- `PUT /users/:userId/role`
  unfoldable pub change_role : Option RequestAuth → ℕ → Role → Directory → Reply Role × Directory
  change_role auth user role d =
      guarded (λ a. role_changed a user role) (require_capability (codes "users:write") auth) d

  abbrev pub removed : RequestAuth → ℕ → Directory → Reply (Unit {0}) × Directory
  removed auth user d =
      if user == auth.user_id
      then (failed_with bad_request, d)
      else if any (is_member auth.tenant_id user) d.memberships
      then (
        sent tt,
        audit "user.remove" (record d {
          memberships = keep (λ m. not (is_member auth.tenant_id user m)) d.memberships;
        }),
      )
      else (failed_with not_found, d)

  -- `DELETE /users/:userId`
  unfoldable pub remove_user : Option RequestAuth → ℕ → Directory → Reply (Unit {0}) × Directory
  remove_user auth user d =
      guarded (λ a. removed a user) (require_capability (codes "users:write") auth) d
