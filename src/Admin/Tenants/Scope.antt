-- ===== src/Admin/Tenants/Scope.antt =====
-- Whose rows the requests on tenants and settings change (apps/api/src/routes/tenants.ts and settings.ts).
use ai_phone_plattform.Prelude.{
  ℕ, ◌≡◌, refl, ap, subst, arith, Bool, true, false, not, ◌&&◌, ◌||◌, Option, List, [], ◌∷◌, ◌++◌,
  Text, codes, any, keep, All, ◌==◌, ==_iff, Bool-cases, inl, inr,
}
use ai_phone_plattform.Access.{
  Role, super_admin, platform_support, billing, tenant_admin, tenant_member, read_only,
  is_super_admin, role_has_capability, role_capabilities, branch-keeps,
}
use ai_phone_plattform.Retention.{RetentionSetting}
use ai_phone_plattform.Admin.Tenants.{
  TenantRow, Platform, Recipient, is_tenant, is_recipient, update_row, updated, with_recipient,
  relabel,
}
use ai_phone_plattform.Admin.Tenants.Settings.{set_retention}

-- The rows of a list that are of other tenants.
abbrev pub outside : {A : Type 0} → (A → ℕ) → ℕ → List A → List A
outside tenant_of tenant rows = keep (λ r. not (tenant_of r == tenant)) rows

module _ {N : Type 0} where
  -- Nothing of any other tenant has changed.
  pub record SameOutside (tenant : ℕ) (p q : Platform N) : Type 0 where
    pub tenants : outside (λ t. t.id) tenant q.tenants ≡ outside (λ t. t.id) tenant p.tenants
    pub recipients :
        outside (λ r. r.tenant_id) tenant q.recipients
        ≡ outside (λ r. r.tenant_id) tenant p.recipients
    pub retention :
        outside (λ s. s.tenant_id) tenant q.retention
        ≡ outside (λ s. s.tenant_id) tenant p.retention
    pub directory : q.directory ≡ p.directory
    pub setup : q.setup ≡ p.setup

  pub unchanged : (tenant : ℕ) (p : Platform N) → SameOutside tenant p p
  unchanged tenant p = record {
    tenants = refl;
    recipients = refl;
    retention = refl;
    directory = refl;
    setup = refl;
  }

  update_row-outside :
      (tenant : ℕ) (f : TenantRow N → TenantRow N) (ts : List (TenantRow N))
      → ((t : TenantRow N) → (f t).id ≡ t.id)
      → outside (λ t. t.id) tenant (update_row tenant f ts) ≡ outside (λ t. t.id) tenant ts
  unfolding update_row
  update_row-outside tenant f [] same = refl
  update_row-outside tenant f (t ∷ ts) same = elim (Bool-cases (t.id == tenant)) [
    | inl own ↦ rw own (rw (same t, own) (update_row-outside tenant f ts same))
    | inr other ↦ rw (other, other) (ap (λ l. t ∷ l) (update_row-outside tenant f ts same))
  ]

  pub updated-outside :
      (tenant : ℕ) (f : TenantRow N → TenantRow N) (p : Platform N)
      → ((t : TenantRow N) → (f t).id ≡ t.id)
      → SameOutside tenant p (updated tenant f p).1
  updated-outside tenant f p same =
      branch-keeps (SameOutside tenant p) (any (is_tenant tenant) p.tenants) _ _
        (λ found. record {
          tenants = update_row-outside tenant f p.tenants same;
          recipients = refl;
          retention = refl;
          directory = refl;
          setup = refl;
        })
        (λ missing. unchanged tenant p)

relabel-outside :
    (tenant : ℕ) (email : Text) (label : Option Text) (rs : List Recipient)
    → outside (λ r. r.tenant_id) tenant (relabel tenant email label rs)
      ≡ outside (λ r. r.tenant_id) tenant rs
unfolding relabel
relabel-outside tenant email label [] = refl
relabel-outside tenant email label (r ∷ rs) = elim (Bool-cases (is_recipient tenant email r)) [
  | inl this ↦
      let own : (r.tenant_id == tenant) ≡ true = ground arith in
      rw (this, own) (relabel-outside tenant email label rs)
  | inr other ↦ elim (Bool-cases (r.tenant_id == tenant)) [
    | inl own ↦ rw (other, own) (relabel-outside tenant email label rs)
    | inr elsewhere ↦
        rw (other, elsewhere) (ap (λ l. r ∷ l) (relabel-outside tenant email label rs))
  ]
]

set_retention-outside :
    (tenant days : ℕ) (settings : List RetentionSetting)
    → outside (λ s. s.tenant_id) tenant (set_retention tenant days settings)
      ≡ outside (λ s. s.tenant_id) tenant settings
unfolding set_retention
set_retention-outside tenant days [] = rw ((==_iff tenant tenant).1 refl) refl
set_retention-outside tenant days (s ∷ settings) = elim (Bool-cases (s.tenant_id == tenant)) [
  | inl own ↦ rw (own, own) refl
  | inr other ↦ rw (other, other) (ap (λ l. s ∷ l) (set_retention-outside tenant days settings))
]

append-outside :
    {A : Type 0} (tenant_of : A → ℕ) (tenant : ℕ) (rows : List A) (new : A)
    → (tenant_of new == tenant) ≡ true
    → outside tenant_of tenant (rows ++ new ∷ []) ≡ outside tenant_of tenant rows
append-outside tenant_of tenant [] new h = rw h refl
append-outside tenant_of tenant (r ∷ rows) new h = elim (Bool-cases (tenant_of r == tenant)) [
  | inl own ↦ rw own (append-outside tenant_of tenant rows new h)
  | inr other ↦ rw other (ap (λ l. r ∷ l) (append-outside tenant_of tenant rows new h))
]

-- Only a super admin may write tenants.
pub write-refused :
    (role : Role)
    → is_super_admin role ≡ false
    → (is_super_admin role || role_has_capability role (codes "platform:tenants:write")) ≡ false
unfolding role_has_capability role_capabilities
write-refused super_admin h = absurd (ground (arith, h))
write-refused platform_support h = refl
write-refused billing h = refl
write-refused tenant_admin h = refl
write-refused tenant_member h = refl
write-refused read_only h = refl

-- No two recipients have one id.
abbrev pub IsKeyed : List Recipient → Type 0
IsKeyed [] = Unit
IsKeyed (r ∷ rs) = All (λ q. (q.id == r.id) ≡ false) rs × IsKeyed rs

abbrev without_id : ℕ → List Recipient → List Recipient
without_id id rs = keep (λ r. not (r.id == id)) rs

abbrev pub owns_id : ℕ → ℕ → Recipient → Bool
owns_id tenant id r = r.id == id && r.tenant_id == tenant

without-absent :
    (id : ℕ) (rs : List Recipient) → All (λ q. (q.id == id) ≡ false) rs → without_id id rs ≡ rs
without-absent id [] h = refl
without-absent id (r ∷ rs) h = rw (h.0) (ap (λ l. r ∷ l) (without-absent id rs h.1))

absent-owned :
    (tenant id : ℕ) (rs : List Recipient)
    → All (λ q. (q.id == id) ≡ false) rs
    → any (owns_id tenant id) rs ≡ false
absent-owned tenant id [] h = refl
absent-owned tenant id (r ∷ rs) h = rw (h.0) (absent-owned tenant id rs h.1)

without-outside :
    (tenant id : ℕ) (rs : List Recipient)
    → IsKeyed rs
    → any (owns_id tenant id) rs ≡ true
    → outside (λ r. r.tenant_id) tenant (without_id id rs) ≡ outside (λ r. r.tenant_id) tenant rs
without-outside tenant id [] k h = refl
without-outside tenant id (r ∷ rs) k h = elim (Bool-cases (r.id == id)) [
  | inl this ↦
      let same : r.id ≡ id = (==_iff r.id id).0 this in
      let absent = subst (λ n. All (λ q. (q.id == n) ≡ false) rs) same k.0 in
      elim (Bool-cases (r.tenant_id == tenant)) [
        | inl own ↦ rw (this, own, without-absent id rs absent) refl
        | inr other ↦
            absurd (ground (arith, rw (this, other) at h, absent-owned tenant id rs absent))
      ]
  | inr that ↦
      let rest = without-outside tenant id rs k.1 (rw that at h) in
      elim (Bool-cases (r.tenant_id == tenant)) [
        | inl own ↦ rw (that, own) rest
        | inr other ↦ rw (that, other) (ap (λ l. r ∷ l) rest)
      ]
]

module _ {N : Type 0} (tenant : ℕ) (p : Platform N) where
  pub listed-outside :
      (email : Text) (label onto : Option Text)
      → SameOutside tenant p (with_recipient tenant email label onto p)
  listed-outside email label onto =
      elim (Bool-cases (any (is_recipient tenant email) p.recipients)) [
        | inl known ↦ rw known (record {
          tenants = refl;
          recipients = relabel-outside tenant email onto p.recipients;
          retention = refl;
          directory = refl;
          setup = refl;
        })
        | inr new ↦ rw new (record {
          tenants = refl;
          recipients =
              append-outside (λ r. r.tenant_id) tenant p.recipients _
                ((==_iff tenant tenant).1 refl);
          retention = refl;
          directory = refl;
          setup = refl;
        })
      ]

  pub unlisted-outside :
      (id : ℕ)
      → IsKeyed p.recipients
      → any (owns_id tenant id) p.recipients ≡ true
      → SameOutside tenant p (record p { recipients = without_id id p.recipients })
  unlisted-outside id k h = record {
    tenants = refl;
    recipients = without-outside tenant id p.recipients k h;
    retention = refl;
    directory = refl;
    setup = refl;
  }

  pub retained-outside :
      (days : ℕ)
      → SameOutside tenant p (record p { retention = set_retention tenant days p.retention })
  retained-outside days = record {
    tenants = refl;
    recipients = refl;
    retention = set_retention-outside tenant days p.retention;
    directory = refl;
    setup = refl;
  }
