-- ===== src/Admin/Tenants/Ready.antt =====
-- What the one-shot onboarding of apps/api/src/routes/tenants.ts leaves behind.
use ai_phone_plattform.Prelude.{
  ℕ, ◌≡◌, refl, arith, Bool, true, false, not, ◌&&◌, ◌||◌, Option, none, some, List, [], ◌∷◌, Text,
  codes, text_eq_refl, any, any-last, ◌==◌, Bool-cases, inl, inr,
}
use ai_phone_plattform.Js.{Js}
use ai_phone_plattform.Access.{
  RequestAuth, Role, tenant_admin, Reply, sent, failed_with, require_capability, guarded,
}
use ai_phone_plattform.Access.Users.{
  User, Membership, Directory, is_member, set_role, upsert_membership, found_user, joined,
  upsert_tenant_user,
}
use ai_phone_plattform.Setup.Starter.{create_starter_content}
use ai_phone_plattform.Setup.Owned.{IsSound}
use ai_phone_plattform.Setup.Owned.Served.{starts-IsSound}
use ai_phone_plattform.Admin.Tenants.{
  Platform, Recipient, is_tenant, has_slug, is_recipient, relabel, with_recipient, added_tenant,
}
use ai_phone_plattform.Admin.Tenants.Provision.{
  ProvisionTenant, admin_of, with_admin, seeded, provisioned, provision_tenant,
}

abbrev pub is_admin_role : Role → Bool
is_admin_role tenant_admin = true
is_admin_role _ = false

abbrev pub is_admin : ℕ → ℕ → Membership → Bool
is_admin tenant user m = is_member tenant user m && is_admin_role m.role

-- A tenant that can be used: it has the asked slug, an administrator, a retention of 90 days, a recipient
-- of mails and, if it is seeded, an assistant, and the questionnaires and assistants are sound.
pub record IsReady (js : Js) (b : ProvisionTenant js.Num) (tenant user : ℕ) (q : Platform js.Num)
    : Type 0 where
  pub has_tenant : any (λ t. is_tenant tenant t && has_slug b.slug t) q.tenants ≡ true
  pub administered : any (is_admin tenant user) q.directory.memberships ≡ true
  pub retained : any (λ s. s.tenant_id == tenant && s.retention_days == 90) q.retention ≡ true
  pub notified : any (is_recipient tenant b.admin_email) q.recipients ≡ true
  pub staffed :
      (not b.seed_starter_content || any (λ a. a.tenant_id == tenant) q.setup.assistants) ≡ true
  pub sound : IsSound js q.setup

-- What becomes of the platform, by the reply.
abbrev pub IsProvisioned :
    (js : Js) → ProvisionTenant js.Num → Platform js.Num → Reply (ℕ × ℕ) × Platform js.Num → Type 0
IsProvisioned js b p (failed_with e, q) = q ≡ p
IsProvisioned js b p (sent (tenant, user), q) = IsReady js b tenant user q

set_role-admin :
    (tenant user : ℕ) (ms : List Membership)
    → any (is_member tenant user) ms ≡ true
    → any (is_admin tenant user) (set_role tenant user tenant_admin ms) ≡ true
unfolding set_role
set_role-admin tenant user [] h = cc
set_role-admin tenant user (m ∷ ms) h = elim (Bool-cases (is_member tenant user m)) [
  | inl this ↦ rw (this, this) refl
  | inr other ↦ rw (other, other) (set_role-admin tenant user ms (rw other at h))
]

upsert_membership-admin :
    (tenant user : ℕ) (ms : List Membership)
    → any (is_admin tenant user) (upsert_membership tenant user tenant_admin ms) ≡ true
unfolding upsert_membership
upsert_membership-admin tenant user ms = elim (Bool-cases (any (is_member tenant user) ms)) [
  | inl member ↦ rw member (set_role-admin tenant user ms member)
  | inr joins ↦ rw joins (any-last (is_admin tenant user) ms _ (ground arith))
]

relabel-recipient :
    (tenant : ℕ) (email : Text) (label : Option Text) (rs : List Recipient)
    → any (is_recipient tenant email) rs ≡ true
    → any (is_recipient tenant email) (relabel tenant email label rs) ≡ true
unfolding relabel
relabel-recipient tenant email label [] h = cc
relabel-recipient tenant email label (r ∷ rs) h = elim (Bool-cases (is_recipient tenant email r)) [
  | inl this ↦ rw (this, this) refl
  | inr other ↦ rw (other, other) (relabel-recipient tenant email label rs (rw other at h))
]

with_recipient-recipient :
    {N : Type 0} (tenant : ℕ) (email : Text) (label onto : Option Text) (p : Platform N)
    → any (is_recipient tenant email) (with_recipient tenant email label onto p).recipients ≡ true
with_recipient-recipient tenant email label onto p =
    elim (Bool-cases (any (is_recipient tenant email) p.recipients)) [
      | inl listed ↦ rw listed (relabel-recipient tenant email onto p.recipients listed)
      | inr new ↦
          rw new (
            any-last (is_recipient tenant email) p.recipients _
              (ground (arith, text_eq_refl email)))
    ]

module _ (js : Js) (hash_password : Text → Text) (system_prompt : Text) where
  open js use {Num}

  joined-admin :
      (tenant : ℕ) (b : ProvisionTenant Num) (o : Option User) (d : Directory)
      → any
          (is_admin tenant
            (joined hash_password tenant (admin_of js hash_password system_prompt b) o d).0)
          (joined hash_password tenant
            (admin_of js hash_password system_prompt b)
            o
            d).1.memberships
        ≡ true
  joined-admin tenant b (some u) d = upsert_membership-admin tenant u.id d.memberships
  joined-admin tenant b none d = upsert_membership-admin tenant d.next_id d.memberships

  seeded-rest :
      (seed : Bool) (tenant : ℕ) (p : Platform Num)
      → IsSound js p.setup
      → ((seeded js hash_password system_prompt seed tenant p).tenants ≡ p.tenants)
        × ((seeded js hash_password system_prompt seed tenant p).directory ≡ p.directory)
        × ((seeded js hash_password system_prompt seed tenant p).retention ≡ p.retention)
        × ((seeded js hash_password system_prompt seed tenant p).recipients ≡ p.recipients)
        × IsSound js (seeded js hash_password system_prompt seed tenant p).setup
        × ((not seed
              || any
                  (λ a. a.tenant_id == tenant)
                  (seeded js hash_password system_prompt seed tenant p).setup.assistants)
            ≡ true)
  unfolding create_starter_content
  seeded-rest false tenant p h = (refl, refl, refl, refl, h, refl)
  seeded-rest true tenant p h = (
    refl,
    refl,
    refl,
    refl,
    starts-IsSound js system_prompt tenant p.setup h,
    any-last (λ a. a.tenant_id == tenant) p.setup.assistants _ (ground arith),
  )

  -- The platform with the tenant, its administrator and its recipient, before it is seeded.
  abbrev prepared : ProvisionTenant Num → Platform Num → Platform Num
  prepared b p =
      with_recipient p.next_id b.admin_email (some (codes "Admin")) none
        (with_admin js hash_password system_prompt p.next_id b
          (added_tenant b.name b.slug b.profile p)).1

  with_recipient-rest :
      (tenant : ℕ) (email : Text) (label onto : Option Text) (p : Platform Num)
      → ((with_recipient tenant email label onto p).tenants ≡ p.tenants)
        × ((with_recipient tenant email label onto p).directory ≡ p.directory)
        × ((with_recipient tenant email label onto p).retention ≡ p.retention)
        × ((with_recipient tenant email label onto p).setup ≡ p.setup)
  with_recipient-rest tenant email label onto p =
      elim (Bool-cases (any (is_recipient tenant email) p.recipients)) [
        | inl listed ↦ rw listed (refl, refl, refl, refl)
        | inr new ↦ rw new (refl, refl, refl, refl)
      ]

  provisioned-IsProvisioned :
      (b : ProvisionTenant Num) (p : Platform Num)
      → IsSound js p.setup
      → IsProvisioned js b p (provisioned js hash_password system_prompt b p)
  unfolding upsert_tenant_user
  provisioned-IsProvisioned b p h = elim (Bool-cases (any (has_slug b.slug) p.tenants)) [
    | inl taken ↦ rw taken refl
    | inr free ↦
        let admin = admin_of js hash_password system_prompt b in
        let q = prepared b p in
        let rest =
          with_recipient-rest p.next_id b.admin_email (some (codes "Admin")) none
            (with_admin js hash_password system_prompt p.next_id b
              (added_tenant b.name b.slug b.profile p)).1 in
        let seeds = seeded-rest b.seed_starter_content p.next_id q (rw (rest.3) h) in
        rw free (record {
          has_tenant =
              rw (seeds.0, rest.0)
                (any-last (λ t. is_tenant p.next_id t && has_slug b.slug t) p.tenants _
                  (ground (arith, text_eq_refl b.slug)));
          administered =
              rw (seeds.1, rest.1)
                (joined-admin p.next_id b (found_user hash_password b.admin_email p.directory.users)
                  p.directory);
          retained =
              rw (seeds.2, rest.2)
                (any-last (λ s. s.tenant_id == p.next_id && s.retention_days == 90) p.retention _
                  (ground arith));
          notified = rw (seeds.3) (
              with_recipient-recipient p.next_id b.admin_email (some (codes "Admin")) none
                (with_admin js hash_password system_prompt p.next_id b
                  (added_tenant b.name b.slug b.profile p)).1);
          staffed = seeds.5;
          sound = seeds.4;
        })
  ]

  -- A provision that is refused changes nothing; one that is served leaves a tenant that can be used:
  -- with the asked slug, an administrator, a retention of 90 days, a recipient of mails and, if it is
  -- seeded, an assistant, and the questionnaires and assistants stay sound.
  pub provision_tenant-IsProvisioned :
      (auth : Option RequestAuth) (b : ProvisionTenant Num) (p : Platform Num)
      → IsSound js p.setup
      → IsProvisioned js b p (provision_tenant js hash_password system_prompt auth b p)
  unfolding provision_tenant
  provision_tenant-IsProvisioned auth b p h =
      served (require_capability (codes "platform:tenants:write") auth)
    where
      served :
          (r : Reply RequestAuth)
          → IsProvisioned js b p (guarded (λ a. provisioned js hash_password system_prompt b) r p)
      served (failed_with e) = refl
      served (sent a) = provisioned-IsProvisioned b p h
