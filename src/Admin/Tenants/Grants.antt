-- ===== src/Admin/Tenants/Grants.antt =====
-- Who may resume a tenant and choose its plan (apps/api/src/routes/tenants.ts and settings.ts).
use ai_phone_plattform.Prelude.{
  ℕ, ◌≡◌, refl, arith, true, false, some, List, [], ◌∷◌, codes, any, ◌==◌, ==_iff, Bool-cases, inl,
  inr, All,
}
use ai_phone_plattform.Access.{RequestAuth, sent, is_super_admin, require_capability}
use ai_phone_plattform.Admin.Tenants.{
  Plan, TenantProfile, TenantRow, Platform, is_tenant, with_profile, update_row, resume_tenant,
}
use ai_phone_plattform.Admin.Tenants.Settings.{update_settings}

module _ {N : Type 0} where
  -- Every row of a tenant has what an update writes.
  update_row-All :
      (Q : TenantRow N → Type 0) (id : ℕ) (f : TenantRow N → TenantRow N) (ts : List (TenantRow N))
      → ((t : TenantRow N) → Q (f t))
      → All (λ t. is_tenant id t ≡ true → Q t) (update_row id f ts)
  unfolding update_row
  update_row-All Q id f [] h = tt
  update_row-All Q id f (t ∷ ts) h = elim (Bool-cases (is_tenant id t)) [
    | inl own ↦ rw own (λ e. h t, update_row-All Q id f ts h)
    | inr other ↦ rw other (λ e. absurd (ground (arith, e, other)), update_row-All Q id f ts h)
  ]

  -- Whoever has a session of a tenant, whatever the role, resumes the tenant, also after the budget has
  -- paused it.
  pub resume_tenant-any_role :
      (auth : RequestAuth) (p : Platform N)
      → any (is_tenant auth.tenant_id) p.tenants ≡ true
      → ((resume_tenant (some auth) auth.tenant_id p).0 ≡ sent tt)
        × All
            (λ t. is_tenant auth.tenant_id t ≡ true → t.paused ≡ false)
            (resume_tenant (some auth) auth.tenant_id p).1.tenants
  unfolding resume_tenant
  resume_tenant-any_role auth p found =
      let own : (auth.tenant_id == auth.tenant_id) ≡ true = (==_iff _ _).1 refl in
      elim (Bool-cases (is_super_admin auth.role)) [
        | inl operator ↦
            rw (operator, found)
              (refl, update_row-All (λ t. t.paused ≡ false) auth.tenant_id _ p.tenants (λ t. refl))
        | inr tenant ↦
            rw (tenant, own, found)
              (refl, update_row-All (λ t. t.paused ≡ false) auth.tenant_id _ p.tenants (λ t. refl))
      ]

  -- Whoever may write the settings of a tenant, as its administrator may, gives it any plan.
  pub update_settings-plan :
      (auth : RequestAuth) (body : TenantProfile N) (p : Platform N) {plan : Plan}
      → require_capability (codes "tenant:write") (some auth) ≡ sent auth
      → body.plan ≡ some plan
      → any (is_tenant auth.tenant_id) p.tenants ≡ true
      → ((update_settings (some auth) body p).0 ≡ sent tt)
        × All
            (λ t. is_tenant auth.tenant_id t ≡ true → t.plan ≡ plan)
            (update_settings (some auth) body p).1.tenants
  unfolding update_settings
  update_settings-plan auth body p {plan} allowed chosen found =
      rw (allowed, found)
        (
          refl,
          update_row-All (λ t. t.plan ≡ plan) auth.tenant_id (with_profile body) p.tenants
              (λ t. rw chosen refl),
        )
