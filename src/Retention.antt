-- ===== src/Retention.antt =====
-- apps/api/src/services/retention.service.ts: the calls that the nightly job deletes. The rows that a
-- call cascades to go with it.
use ai_phone_plattform.Prelude.{
  ℕ, ◌+◌, ◌*◌, ◌≤◌, ◌≡◌, ◌↔◌, refl, sym, ap, ◌∙◌, arith, Bool, true, false, not, ◌&&◌, ◌||◌, List,
  [], ◌∷◌, any, keep, keep-keep, keep-all, keep-same, length, ltb, ◌==◌, Bool-cases, inl, inr, All,
  if◌then◌else◌,
}

pub record RetentionSetting : Type 0 where
  pub tenant_id : ℕ
  pub retention_days : ℕ

pub record CallRow : Type 0 where
  pub id : ℕ
  pub tenant_id : ℕ
  pub started_at : ℕ

pub record Cleanup : Type 0 where
  pub calls : List CallRow
  pub deleted : ℕ
  -- the tenants whose cleanup is audited
  pub audited : List ℕ

abbrev day_ms : ℕ
day_ms = 86400000

-- `tenantId: s.tenantId, startedAt: { lt: now - days }`
abbrev pub is_expired : ℕ → RetentionSetting → CallRow → Bool
is_expired now s c =
    c.tenant_id == s.tenant_id && ltb (c.started_at + s.retention_days * day_ms) now

abbrev pub counted : (CallRow → Bool) → List CallRow → ℕ
counted p calls = length (keep p calls)

abbrev reported : ℕ → ℕ → List ℕ → List ℕ
reported tenant count audited = if ltb 0 count then tenant ∷ audited else audited

-- the loop over the settings, with the calls that are left
unfoldable pub clean : ℕ → List RetentionSetting → List CallRow → Cleanup
clean now [] calls = record { calls = calls; deleted = 0; audited = [] }
clean now (s ∷ settings) calls =
    let later = clean now settings (keep (λ c. not (is_expired now s c)) calls) in
    record {
      calls = later.calls;
      deleted = counted (is_expired now s) calls + later.deleted;
      audited = reported s.tenant_id (counted (is_expired now s) calls) later.audited;
    }

unfoldable pub run_retention_cleanup : ℕ → List RetentionSetting → List CallRow → Cleanup
run_retention_cleanup now settings calls = clean now settings calls

and-false : (a : Bool) → (a && false) ≡ false
and-false a = ground arith

not-or : (a b : Bool) → (not a && not b) ≡ not (a || b)
not-or a b = ground arith

-- whether some setting lets a call expire
abbrev pub is_due : ℕ → List RetentionSetting → CallRow → Bool
is_due now settings c = any (λ s. is_expired now s c) settings

cleanup-eq-keep :
    (now : ℕ) (settings : List RetentionSetting) (calls : List CallRow)
    → (run_retention_cleanup now settings calls).calls
      ≡ keep (λ c. not (is_due now settings c)) calls
unfolding run_retention_cleanup clean
cleanup-eq-keep now [] calls = sym (keep-all calls)
cleanup-eq-keep now (s ∷ settings) calls =
    cleanup-eq-keep now settings (keep (λ c. not (is_expired now s c)) calls)
    ∙ keep-keep (λ c. not (is_due now settings c)) (λ c. not (is_expired now s c)) calls
    ∙ keep-same _ _ calls (λ c. not-or (is_expired now s c) (is_due now settings c))

split-count :
    (p : CallRow → Bool) (calls : List CallRow)
    → counted p calls + length (keep (λ c. not (p c)) calls) ≡ length calls
split-count p [] = refl
split-count p (c ∷ calls) = ground (arith, split-count p calls)

-- Every call is either kept or counted as deleted, once.
pub run_retention_cleanup-deleted :
    (now : ℕ) (settings : List RetentionSetting) (calls : List CallRow)
    → (run_retention_cleanup now settings calls).deleted
        + length (run_retention_cleanup now settings calls).calls
      ≡ length calls
unfolding run_retention_cleanup clean
run_retention_cleanup-deleted now [] calls = omega arith
run_retention_cleanup-deleted now (s ∷ settings) calls = ground (
  arith,
  split-count (is_expired now s) calls,
  run_retention_cleanup-deleted now settings (keep (λ c. not (is_expired now s c)) calls),
)

unset-due :
    (now tenant : ℕ) (settings : List RetentionSetting) (c : CallRow)
    → All (λ s. (s.tenant_id == tenant) ≡ false) settings
    → (c.tenant_id == tenant) ≡ true
    → is_due now settings c ≡ false
unset-due now tenant [] c h e = refl
unset-due now tenant (s ∷ settings) c h e =
    ground (arith, h.0, unset-due now tenant settings c h.1 e)

unset-same :
    (now tenant : ℕ) (settings : List RetentionSetting) (c : CallRow)
    → All (λ s. (s.tenant_id == tenant) ≡ false) settings
    → (not (is_due now settings c) && (c.tenant_id == tenant)) ≡ (c.tenant_id == tenant)
unset-same now tenant settings c h = elim (Bool-cases (c.tenant_id == tenant)) [
  | inl own ↦ rw (own, unset-due now tenant settings c h own) refl
  | inr other ↦ rw other (and-false (not (is_due now settings c)))
]

-- A tenant without a setting keeps every call, however old.
pub run_retention_cleanup-unset :
    (now : ℕ) (settings : List RetentionSetting) (calls : List CallRow) (tenant : ℕ)
    → All (λ s. (s.tenant_id == tenant) ≡ false) settings
    → keep (λ c. c.tenant_id == tenant) (run_retention_cleanup now settings calls).calls
      ≡ keep (λ c. c.tenant_id == tenant) calls
run_retention_cleanup-unset now settings calls tenant h =
    ap (keep (λ c. c.tenant_id == tenant)) (cleanup-eq-keep now settings calls)
    ∙ keep-keep (λ c. c.tenant_id == tenant) (λ c. not (is_due now settings c)) calls
    ∙ keep-same _ _ calls (λ c. unset-same now tenant settings c h)

-- No setting of the call's tenant is exceeded: since the call started, no more than the days of the
-- setting have passed.
abbrev pub IsWithin : ℕ → List RetentionSetting → CallRow → Type 0
IsWithin now settings c =
    All
      (λ s.
        c.tenant_id ≡ s.tenant_id → now ≤ c.started_at + s.retention_days * (24 * 60 * 60 * 1000))
      settings

not_expired-lem :
    (now : ℕ) (s : RetentionSetting) (c : CallRow)
    → (not (is_expired now s c) ≡ true)
      ↔ (c.tenant_id ≡ s.tenant_id → now ≤ c.started_at + s.retention_days * (24 * 60 * 60 * 1000))
not_expired-lem now s c = (λ e t. ground (arith, e, t), λ f. ground (arith, f))

not_due-lem :
    (now : ℕ) (settings : List RetentionSetting) (c : CallRow)
    → (not (is_due now settings c) ≡ true) ↔ IsWithin now settings c
not_due-lem now [] c = (λ e. tt, λ h. refl)
not_due-lem now (s ∷ settings) c =
    let (one, one_back) = not_expired-lem now s c in
    let (others, others_back) = not_due-lem now settings c in
    (
      λ e. (one (ground (arith, e)), others (ground (arith, e))),
      λ h. ground (arith, one_back h.0, others_back h.1),
    )

-- The cleanup keeps, in their order, the calls that pass a test which holds of a call exactly if no
-- setting of its tenant is exceeded; the others are counted as deleted. So a tenant without a setting
-- keeps every call.
pub run_retention_cleanup-keeps :
    (now : ℕ) (settings : List RetentionSetting) (calls : List CallRow)
    → (p : CallRow → Bool) × ((run_retention_cleanup now settings calls).calls ≡ keep p calls)
      × ((c : CallRow) → (p c ≡ true) ↔ IsWithin now settings c)
      × ((run_retention_cleanup now settings calls).deleted
            + length (run_retention_cleanup now settings calls).calls
          ≡ length calls)
run_retention_cleanup-keeps now settings calls = (
  λ c. not (is_due now settings c),
  cleanup-eq-keep now settings calls,
  not_due-lem now settings,
  run_retention_cleanup-deleted now settings calls,
)
