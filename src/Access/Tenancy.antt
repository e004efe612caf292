-- ===== src/Access/Tenancy.antt =====
-- Who may change what through apps/api/src/routes/users.ts.
use mathlib.Core.List.{Memᴰ}
use ai_phone_plattform.Prelude.{
  ℕ, ◌≡◌, refl, ap, arith, ◌⊎◌, inl, inr, true, false, not, ◌||◌, and-eq-true, Option, none, some,
  List, [], ◌∷◌, Text, codes, text_eq, is_empty, any, keep, ◌==◌, ==_iff, All, All-append, All-own,
  All-map, Bool-cases,
}
use ai_phone_plattform.Access.{
  Role, tenant_admin, is_platform_role, is_super_admin, RequestAuth, require_capability,
  role_has_capability, role_capabilities,
}
use ai_phone_plattform.Access.Users.{
  User, Membership, Directory, CreateUser, is_member, set_role, upsert_membership, update_user,
  updated_user, upsert_tenant_user, found_user, joined, invite_user, invited, change_role,
  role_changed, remove_user, may_grant,
}

-- A membership that was there, or one of the actor's tenant with a role of a tenant, which only a
-- super admin may exceed.
abbrev pub IsGranted : RequestAuth → Directory → Membership → Type 0
IsGranted auth d m =
    Memᴰ m d.memberships
    ⊎ ((m.tenant_id ≡ auth.tenant_id)
        × ((is_platform_role m.role ≡ false) ⊎ (is_super_admin auth.role ≡ true)))

module _ (P : Membership → Type 0) (tenant user : ℕ) (role : Role) where
  set_role-All :
      (ms : List Membership)
      → ((m : Membership) → m.tenant_id ≡ tenant → P (record m { role = role }))
      → All P ms
      → All P (set_role tenant user role ms)
  unfolding set_role
  set_role-All [] k h = tt
  set_role-All (m ∷ ms) k h = elim (Bool-cases (is_member tenant user m)) [
    | inl this ↦
        let here : m.tenant_id ≡ tenant = (==_iff _ _).0 (and-eq-true _ _ this).0 in
        rw this (k m here, set_role-All ms k h.1)
    | inr other ↦ rw other (h.0, set_role-All ms k h.1)
  ]

  upsert-All :
      (ms : List Membership)
      → ((m : Membership) → m.tenant_id ≡ tenant → P (record m { role = role }))
      → P (record { tenant_id = tenant; user_id = user; role = role })
      → All P ms
      → All P (upsert_membership tenant user role ms)
  unfolding upsert_membership
  upsert-All ms k new h = elim (Bool-cases (any (is_member tenant user) ms)) [
    | inl member ↦ rw member (set_role-All ms k h)
    | inr joins ↦ rw joins (All-append P ms _ h (new, tt))
  ]

module _ (hash : Text → Text) (auth : RequestAuth) where
  old-IsGranted : (d : Directory) → All (IsGranted auth d) d.memberships
  old-IsGranted d = All-map _ _ d.memberships (λ m h. inl h) (All-own d.memberships)

  may-granted :
      (role : Role)
      → may_grant hash auth role ≡ true
      → (is_platform_role role ≡ false) ⊎ (is_super_admin auth.role ≡ true)
  may-granted role h = elim (Bool-cases (is_platform_role role)) [
    | inl platform ↦ inr (ground arith)
    | inr plain ↦ inl plain
  ]

  joined-IsGranted :
      (body : CreateUser) (u : Option User) (d : Directory)
      → may_grant hash auth body.role ≡ true
      → All (IsGranted auth d) (joined hash auth.tenant_id body u d).1.memberships
  joined-IsGranted body none d h =
      upsert-All (IsGranted auth d) auth.tenant_id d.next_id body.role d.memberships
        (λ m e. inr (e, may-granted body.role h)) (inr (refl, may-granted body.role h))
        (old-IsGranted d)
  joined-IsGranted body (some u) d h =
      upsert-All (IsGranted auth d) auth.tenant_id u.id body.role d.memberships
        (λ m e. inr (e, may-granted body.role h)) (inr (refl, may-granted body.role h))
        (old-IsGranted d)

  invited-IsGranted :
      (body : CreateUser) (d : Directory)
      → All (IsGranted auth d) (invited hash auth body d).1.memberships
  unfolding upsert_tenant_user
  invited-IsGranted body d = elim (Bool-cases (may_grant hash auth body.role)) [
    | inl may ↦ rw may (joined-IsGranted body (found_user hash body.email d.users) d may)
    | inr not' ↦ rw not' (old-IsGranted d)
  ]

  -- Whoever invites a user adds at most memberships of their own tenant, and gives a role of the
  -- platform only as a super admin.
  pub invite_user-IsGranted :
      (body : CreateUser) (d : Directory)
      → All (IsGranted auth d) (invite_user hash (some auth) body d).1.memberships
  unfolding invite_user require_capability
  invite_user-IsGranted body d =
      elim (Bool-cases
        (is_super_admin auth.role || role_has_capability auth.role (codes "users:write"))) [
          | inl able ↦ rw able (invited-IsGranted body d)
          | inr unable ↦ rw unable (old-IsGranted d)
        ]

  changed-IsGranted :
      (user : ℕ) (role : Role) (d : Directory)
      → All (IsGranted auth d) (role_changed hash auth user role d).1.memberships
  changed-IsGranted user role d = elim (Bool-cases (may_grant hash auth role)) [
    | inr not' ↦ rw not' (old-IsGranted d)
    | inl may ↦ elim (Bool-cases (user == auth.user_id)) [
      | inl self ↦ rw (may, self) (old-IsGranted d)
      | inr other ↦ elim (Bool-cases (any (is_member auth.tenant_id user) d.memberships)) [
        | inl member ↦
            rw (may, other, member)
              (set_role-All (IsGranted auth d) auth.tenant_id user role d.memberships
                (λ m e. inr (e, may-granted role may)) (old-IsGranted d))
        | inr stranger ↦ rw (may, other, stranger) (old-IsGranted d)
      ]
    ]
  ]

  -- Whoever changes a role changes memberships of their own tenant only, and gives a role of the
  -- platform only as a super admin.
  pub change_role-IsGranted :
      (user : ℕ) (role : Role) (d : Directory)
      → All (IsGranted auth d) (change_role hash (some auth) user role d).1.memberships
  unfolding change_role require_capability
  change_role-IsGranted user role d =
      elim (Bool-cases
        (is_super_admin auth.role || role_has_capability auth.role (codes "users:write"))) [
          | inl able ↦ rw able (changed-IsGranted user role d)
          | inr unable ↦ rw unable (old-IsGranted d)
        ]

  -- the memberships of other tenants
  abbrev pub elsewhere : List Membership → List Membership
  elsewhere = keep (λ m. not (m.tenant_id == auth.tenant_id))

  remove-elsewhere :
      (user : ℕ) (ms : List Membership)
      → elsewhere (keep (λ m. not (is_member auth.tenant_id user m)) ms) ≡ elsewhere ms
  remove-elsewhere user [] = refl
  remove-elsewhere user (m ∷ ms) = elim (Bool-cases (m.tenant_id == auth.tenant_id)) [
    | inl here ↦ elim (Bool-cases (m.user_id == user)) [
      | inl gone ↦ rw (here, gone) (remove-elsewhere user ms)
      | inr stays ↦ rw (here, stays, here) (remove-elsewhere user ms)
    ]
    | inr away ↦ rw (away, away) (ap (λ l. m ∷ l) (remove-elsewhere user ms))
  ]

  -- Removing a user leaves the memberships of all other tenants alone.
  pub remove_user-elsewhere :
      (user : ℕ) (d : Directory)
      → elsewhere (remove_user hash (some auth) user d).1.memberships ≡ elsewhere d.memberships
  unfolding remove_user require_capability
  remove_user-elsewhere user d =
      elim (Bool-cases
        (is_super_admin auth.role || role_has_capability auth.role (codes "users:write"))) [
          | inr unable ↦ rw unable refl
          | inl able ↦ elim (Bool-cases (user == auth.user_id)) [
            | inl self ↦ rw (able, self) refl
            | inr other ↦ elim (Bool-cases (any (is_member auth.tenant_id user) d.memberships)) [
              | inl member ↦ rw (able, other, member) (remove-elsewhere user d.memberships)
              | inr stranger ↦ rw (able, other, stranger) refl
            ]
          ]
        ]

  update-found :
      (email : Text) (name pw : Option Text) (users : List User) (u : User)
      → found_user hash email users ≡ some u
      → found_user hash email (update_user email name pw users) ≡ some (updated_user name pw u)
  unfolding update_user
  update-found email name pw [] u h = absurd (ground arith)
  update-found email name pw (v ∷ users) u h = elim (Bool-cases (text_eq v.email email)) [
    | inl here ↦
        let same : v ≡ u = ground arith in
        rw (here, here) (ap (λ x. some (updated_user name pw x)) same)
    | inr other ↦ rw (other, other) (update-found email name pw users u (rw other at h))
  ]

  admin-able :
      auth.role ≡ tenant_admin
      → (is_super_admin auth.role || role_has_capability auth.role (codes "users:write")) ≡ true
  unfolding role_has_capability role_capabilities
  admin-able e = rw e refl

  -- When an administrator of a tenant invites the mail address of an existing user, of whatever
  -- tenant, with a password, that user has the new password.
  pub invite_user-password :
      (body : CreateUser) (u : User) (p : Text) (d : Directory)
      → auth.role ≡ tenant_admin
      → is_platform_role body.role ≡ false
      → found_user hash body.email d.users ≡ some u
      → body.password ≡ some p
      → is_empty p ≡ false
      → found_user hash body.email (invite_user hash (some auth) body d).1.users
        ≡ some (updated_user body.name (some (hash p)) u)
  unfolding invite_user require_capability upsert_tenant_user
  invite_user-password body u p d admin plain found pw full =
      rw (admin-able admin, plain, found, pw, full)
        (update-found body.email body.name (some (hash p)) d.users u found)
