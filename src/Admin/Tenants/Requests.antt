-- ===== src/Admin/Tenants/Requests.antt =====
-- The requests on tenants and their settings, of a session that is no super admin's
-- (apps/api/src/routes/tenants.ts and settings.ts).
use ai_phone_plattform.Prelude.{
  ℕ, ◌≡◌, refl, subst, false, Option, some, Text, codes, any, ◌==◌, ==_iff, Bool-cases, inl, inr,
}
use ai_phone_plattform.Js.{Js}
use ai_phone_plattform.Access.{
  RequestAuth, is_super_admin, Reply, require_capability, guarded, guarded-own, branch-keeps,
}
use ai_phone_plattform.Admin.Tenants.{
  TenantProfile, TenantRow, Platform, with_profile, updated, create_tenant, pause_tenant,
  resume_tenant, update_tenant, delete_tenant,
}
use ai_phone_plattform.Admin.Tenants.Settings.{
  update_settings, add_recipient, delete_recipient, update_retention,
}
use ai_phone_plattform.Admin.Tenants.Provision.{ProvisionTenant, provision_tenant}
use ai_phone_plattform.Admin.Tenants.Scope.{
  SameOutside, IsKeyed, unchanged, updated-outside, listed-outside, unlisted-outside,
  retained-outside, write-refused, owns_id,
}

-- One request of a session on tenants and their settings.
module _ (js : Js) (hash_password : Text → Text) (system_prompt : Text) where
  open js use {Num}

  pub data IsRequested (auth : RequestAuth) (p : Platform Num) : Platform Num → Type 0 where
    creates :
        (name slug : Text) (body : TenantProfile Num)
        → IsRequested auth p (create_tenant (some auth) name slug body p).1
    provisions :
        (body : ProvisionTenant Num)
        → IsRequested auth p (provision_tenant js hash_password system_prompt (some auth) body p).1
    pauses : (id : ℕ) → IsRequested auth p (pause_tenant (some auth) id p).1
    resumes : (id : ℕ) → IsRequested auth p (resume_tenant (some auth) id p).1
    updates :
        (id : ℕ) (body : TenantProfile Num)
        → IsRequested auth p (update_tenant (some auth) id body p).1
    deletes : (id : ℕ) → IsRequested auth p (delete_tenant (some auth) id p).1
    settles : (body : TenantProfile Num) → IsRequested auth p (update_settings (some auth) body p).1
    lists :
        (email : Text) (label : Option Text)
        → IsRequested auth p (add_recipient (some auth) email label p).1
    unlists : (id : ℕ) → IsRequested auth p (delete_recipient (some auth) id p).1
    retains : (days : ℕ) → IsRequested auth p (update_retention (some auth) days p).1

abbrev resumed_row : {N : Type 0} → TenantRow N → TenantRow N
resumed_row t = record t { paused = false }

module _ {N : Type 0} (auth : RequestAuth) (p : Platform N)
    (plain : is_super_admin auth.role ≡ false) where
  -- A request that only an operator may make changes nothing.
  operator-only :
      {A : Type 0} (handler : RequestAuth → Platform N → Reply A × Platform N)
      → SameOutside auth.tenant_id p
          (guarded handler (require_capability (codes "platform:tenants:write") (some auth)) p).1
  unfolding require_capability
  operator-only handler = rw (write-refused auth.role plain) (unchanged auth.tenant_id p)

  resumed-outside : (id : ℕ) → SameOutside auth.tenant_id p (resume_tenant (some auth) id p).1
  unfolding resume_tenant
  resumed-outside id = elim (Bool-cases (auth.tenant_id == id)) [
    | inl own ↦
        let same : auth.tenant_id ≡ id = (==_iff auth.tenant_id id).0 own in
        rw (plain, own)
          (subst (λ k. SameOutside auth.tenant_id p (updated k resumed_row p).1) same
            (updated-outside auth.tenant_id resumed_row p (λ t. refl)))
    | inr other ↦ rw (plain, other) (unchanged auth.tenant_id p)
  ]

module _ (js : Js) (hash_password : Text → Text) (system_prompt : Text) where
  open js use {Num}

  -- Whatever a session asks for that is no super admin's, of tenants and their settings it changes
  -- only its own.
  pub IsRequested-SameOutside :
      {auth : RequestAuth} {p q : Platform Num}
      → IsRequested js hash_password system_prompt auth p q
      → is_super_admin auth.role ≡ false
      → IsKeyed p.recipients
      → SameOutside auth.tenant_id p q
  unfolding create_tenant provision_tenant pause_tenant update_tenant delete_tenant update_settings
      add_recipient delete_recipient update_retention
  IsRequested-SameOutside {auth} {p} (creates name slug body) h k = operator-only auth p h _
  IsRequested-SameOutside {auth} {p} (provisions body) h k = operator-only auth p h _
  IsRequested-SameOutside {auth} {p} (pauses id) h k = operator-only auth p h _
  IsRequested-SameOutside {auth} {p} (resumes id) h k = resumed-outside auth p h id
  IsRequested-SameOutside {auth} {p} (updates id body) h k = operator-only auth p h _
  IsRequested-SameOutside {auth} {p} (deletes id) h k = operator-only auth p h _
  IsRequested-SameOutside {auth} {p} (settles body) h k =
      guarded-own (SameOutside auth.tenant_id p) _ (codes "tenant:write") auth p
        (unchanged auth.tenant_id p)
        (updated-outside auth.tenant_id (with_profile body) p (λ t. refl))
  IsRequested-SameOutside {auth} {p} (lists email label) h k =
      guarded-own (SameOutside auth.tenant_id p) _ (codes "tenant:write") auth p
        (unchanged auth.tenant_id p) (listed-outside auth.tenant_id p email label label)
  IsRequested-SameOutside {auth} {p} (unlists id) h k =
      guarded-own (SameOutside auth.tenant_id p) _ (codes "tenant:write") auth p
        (unchanged auth.tenant_id p)
        (branch-keeps (SameOutside auth.tenant_id p) (any (owns_id auth.tenant_id id) p.recipients)
          _ _ (λ own. unlisted-outside auth.tenant_id p id k own)
          (λ other. unchanged auth.tenant_id p))
  IsRequested-SameOutside {auth} {p} (retains days) h k =
      guarded-own (SameOutside auth.tenant_id p) _ (codes "tenant:write") auth p
        (unchanged auth.tenant_id p) (retained-outside auth.tenant_id p days)
