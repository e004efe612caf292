-- ===== src/Admin/Tenants/Provision.antt =====
-- The one-shot onboarding of apps/api/src/routes/tenants.ts.
use ai_phone_plattform.Prelude.{
  ℕ, Bool, true, false, Option, none, some, Text, codes, any, if◌then◌else◌,
}
use ai_phone_plattform.Js.{Js}
use ai_phone_plattform.Access.{
  RequestAuth, tenant_admin, forbidden, Reply, sent, failed_with, require_capability, guarded,
}
use ai_phone_plattform.Access.Users.{CreateUser, upsert_tenant_user}
use ai_phone_plattform.Setup.Starter.{create_starter_content}
use ai_phone_plattform.Admin.Tenants.{
  TenantProfile, Platform, has_slug, added_tenant, with_recipient,
}

-- `provisionTenantSchema`, parsed
pub record ProvisionTenant (N : Type 0) : Type 0 where
  pub name : Text
  pub slug : Text
  pub profile : TenantProfile N
  pub admin_email : Text
  pub admin_name : Option Text
  pub admin_password : Option Text
  pub seed_starter_content : Bool

module _ (js : Js) (hash_password : Text → Text) (system_prompt : Text) where
  open js use {Num}

  abbrev pub admin_of : ProvisionTenant Num → CreateUser
  admin_of b = record {
    email = b.admin_email;
    name = b.admin_name;
    role = tenant_admin;
    password = b.admin_password;
  }

  abbrev pub with_admin : ℕ → ProvisionTenant Num → Platform Num → ℕ × Platform Num
  with_admin tenant b p =
      let (user, d) = upsert_tenant_user hash_password tenant (admin_of b) p.directory in
      (user, record p { directory = d })

  abbrev pub seeded : Bool → ℕ → Platform Num → Platform Num
  seeded false tenant p = p
  seeded true tenant p = record p {
    setup = (create_starter_content js system_prompt tenant p.setup).1;
  }

  abbrev welcomed : ProvisionTenant Num → ℕ → ℕ × Platform Num → Reply (ℕ × ℕ) × Platform Num
  welcomed b tenant (user, p) = (
    sent (tenant, user),
    seeded b.seed_starter_content tenant
        (with_recipient tenant b.admin_email (some (codes "Admin")) none p),
  )

  abbrev pub provisioned : ProvisionTenant Num → Platform Num → Reply (ℕ × ℕ) × Platform Num
  provisioned b p =
      if any (has_slug b.slug) p.tenants
      then (failed_with forbidden, p)
      else welcomed b p.next_id (with_admin p.next_id b (added_tenant b.name b.slug b.profile p))

  -- `POST /admin/provision-tenant`
  unfoldable pub provision_tenant :
      Option RequestAuth → ProvisionTenant Num → Platform Num → Reply (ℕ × ℕ) × Platform Num
  provision_tenant auth b p =
      guarded (λ a. provisioned b) (require_capability (codes "platform:tenants:write") auth) p
