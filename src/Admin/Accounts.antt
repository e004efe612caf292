-- ===== src/Admin/Accounts.antt =====
-- The handlers of apps/api/src/routes/admin.ts that change users, on the accounts of
-- Access/Login.antt. A temporary password and the hash of a password are parameters; a query on a user
-- that is missing is an error of the database.
use ai_phone_plattform.Prelude.{
  ℕ, ◌≡◌, refl, arith, Bool, true, false, not, ◌&&◌, Option, none, some, List, [], ◌∷◌, Text, codes,
  text_eq, text_eq_refl, find, any, keep, if◌then◌else◌, Bool-cases, inl, inr,
}
use ai_phone_plattform.Access.{
  RequestAuth, unauthorized, bad_request, not_found, server_error, Reply, sent, failed_with,
  require_capability, guarded,
}
use ai_phone_plattform.Access.Login.{
  Account, Membership, by_id, by_email, in_tenant, login, has_password,
}

-- the id of the operator, as the session says
pub record Operator : Type 0 where
  pub auth : RequestAuth
  pub id : Text

abbrev auth_of : Option Operator → Option RequestAuth
auth_of none = none
auth_of (some o) = some o.auth

abbrev id_of : Option Operator → Text
id_of none = []
id_of (some o) = o.id

unfoldable pub update_account : Text → (Account → Account) → List Account → List Account
update_account id f [] = []
update_account id f (u ∷ users) =
    let rest = update_account id f users in if by_id id u then f u ∷ rest else u ∷ rest

-- `prisma.user.update({ where: { id } })`
abbrev updated : Text → (Account → Account) → List Account → Reply (Unit {0}) × List Account
updated id f users =
    if any (by_id id) users
    then (sent tt, update_account id f users)
    else (failed_with server_error, users)

abbrev pub locked_account : Bool → Account → Account
locked_account b u = record u { locked = b }

abbrev locking : Text → Text → List Account → Reply (Unit {0}) × List Account
locking own id users =
    if text_eq id own
    then (failed_with bad_request, users)
    else updated id (locked_account true) users

-- `POST /admin/users/:id/lock`
unfoldable pub lock_user : Option Operator → Text → List Account → Reply (Unit {0}) × List Account
lock_user o id users =
    guarded (λ a. locking (id_of o) id)
      (require_capability (codes "platform:users:write") (auth_of o)) users

-- `POST /admin/users/:id/unlock`
unfoldable pub unlock_user : Option Operator → Text → List Account → Reply (Unit {0}) × List Account
unlock_user o id users =
    guarded (λ a. updated id (locked_account false))
      (require_capability (codes "platform:users:write") (auth_of o)) users

abbrev with_hash : Text → Account → Account
with_hash hash u = record u { password_hash = some hash }

abbrev reset : (Text → Text) → Text → Text → List Account → Reply Text × List Account
reset hash_password temp_password id users =
    if any (by_id id) users
    then (sent temp_password, update_account id (with_hash (hash_password temp_password)) users)
    else (failed_with not_found, users)

-- `POST /admin/users/:id/reset-password`
unfoldable pub reset_password :
    (Text → Text) → Text → Option Operator → Text → List Account → Reply Text × List Account
reset_password hash_password temp_password o id users =
    guarded (λ a. reset hash_password temp_password id)
      (require_capability (codes "platform:users:write") (auth_of o)) users

unfoldable pub set_member_role : Text → Text → List Membership → List Membership
set_member_role tenant role [] = []
set_member_role tenant role (m ∷ ms) =
    let rest = set_member_role tenant role ms in
    if in_tenant tenant m then record m { role = role } ∷ rest else m ∷ rest

abbrev with_role : Text → Text → Account → Account
with_role tenant role u = record u { tenant_users = set_member_role tenant role u.tenant_users }

abbrev has_member : Text → Text → List Account → Bool
has_member tenant id users = any (λ u. by_id id u && any (in_tenant tenant) u.tenant_users) users

abbrev role_set : Text → Text → Text → List Account → Reply (Unit {0}) × List Account
role_set tenant id role users =
    if has_member tenant id users
    then (sent tt, update_account id (with_role tenant role) users)
    else (failed_with not_found, users)

-- `PUT /admin/users/:id/role`
unfoldable pub set_user_role :
    Option Operator → Text → Text → Text → List Account → Reply (Unit {0}) × List Account
set_user_role o tenant id role users =
    guarded (λ a. role_set tenant id role)
      (require_capability (codes "platform:users:write") (auth_of o)) users

abbrev deleting : Text → Text → List Account → Reply (Unit {0}) × List Account
deleting own id users =
    if text_eq id own
    then (failed_with bad_request, users)
    else if any (by_id id) users
    then (sent tt, keep (λ u. not (by_id id u)) users)
    else (failed_with server_error, users)

-- `DELETE /admin/users/:id`
unfoldable pub delete_user : Option Operator → Text → List Account → Reply (Unit {0}) × List Account
delete_user o id users =
    guarded (λ a. deleting (id_of o) id)
      (require_capability (codes "platform:users:write") (auth_of o)) users

-- A lock leaves the mail addresses in place.
find-update :
    (email id : Text) (users : List Account) (u : Account)
    → find (by_email email) users ≡ some u
    → find (by_email email) (update_account id (locked_account true) users)
      ≡ some (if by_id id u then locked_account true u else u)
unfolding update_account
find-update email id [] u e = absurd (ground (arith, e))
find-update email id (v ∷ users) u e = elim (Bool-cases (by_email email v)) [
  | inl here ↦ elim (Bool-cases (by_id id v)) [
    | inl own ↦
        let same : v ≡ u = ground (arith, rw here at e) in rw (own, here, ← same) (rw own refl)
    | inr other ↦
        let same : v ≡ u = ground (arith, rw here at e) in rw (other, here, ← same) (rw other refl)
  ]
  | inr there ↦ elim (Bool-cases (by_id id v)) [
    | inl own ↦ rw (own, there) (find-update email id users u (rw there at e))
    | inr other ↦ rw (other, there) (find-update email id users u (rw there at e))
  ]
]

-- A lock that is served locks the account.
locked-rows :
    (own id : Text) (r : Reply RequestAuth) (users : List Account)
    → (guarded (λ a. locking own id) r users).0 ≡ sent tt
    → (guarded (λ a. locking own id) r users).1 ≡ update_account id (locked_account true) users
locked-rows own id (failed_with e) users h = absurd (ground (arith, h))
locked-rows own id (sent auth) users h = elim (Bool-cases (text_eq id own)) [
  | inl self ↦ absurd (ground (arith, rw self at h))
  | inr other ↦ elim (Bool-cases (any (by_id id) users)) [
    | inl found ↦ rw (other, found) refl
    | inr missing ↦ absurd (ground (arith, rw (other, missing) at h))
  ]
]

locked-login :
    (verify_password : Text → Text → Bool) (email password : Text) (tenant : Option Text) (now : ℕ)
    (users : List Account) {u : Account}
    → find (by_email email) users ≡ some u
    → u.locked ≡ true
    → (login verify_password email password tenant now users).0 ≡ failed_with unauthorized
unfolding login
locked-login verify_password email password tenant now users {u} e l =
    elim (Bool-cases (has_password verify_password password u.password_hash)) [
      | inl right ↦ rw (e, right, l) refl
      | inr wrong ↦ rw (e, wrong) refl
    ]

-- After an operator has locked an account, no password logs it in, whatever tenant is asked for.
pub login-lock_user :
    (verify_password : Text → Text → Bool) (o : Option Operator) (email password : Text)
    (tenant : Option Text) (now : ℕ) (users : List Account) {u : Account}
    → find (by_email email) users ≡ some u
    → (lock_user o u.id users).0 ≡ sent tt
    → (login verify_password email password tenant now (lock_user o u.id users).1).0
      ≡ failed_with unauthorized
unfolding lock_user
login-lock_user verify_password o email password tenant now users {u} e done =
    rw
      (locked-rows (id_of o) u.id (require_capability (codes "platform:users:write") (auth_of o))
        users done)
      (locked-login verify_password email password tenant now
        (update_account u.id (locked_account true) users) {u = locked_account true u}
        (rw (text_eq_refl u.id) at (find-update email u.id users u e)) refl)
