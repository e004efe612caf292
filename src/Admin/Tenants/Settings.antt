-- ===== src/Admin/Tenants/Settings.antt =====
-- The settings that a tenant changes itself: apps/api/src/routes/settings.ts.
use ai_phone_plattform.Prelude.{
  ℕ, not, ◌&&◌, Option, List, [], ◌∷◌, Text, codes, any, keep, ◌==◌, if◌then◌else◌,
}
use ai_phone_plattform.Access.{
  RequestAuth, not_found, Reply, sent, failed_with, require_capability, guarded,
}
use ai_phone_plattform.Retention.{RetentionSetting}
use ai_phone_plattform.Admin.Tenants.{
  TenantProfile, Platform, with_profile, updated, with_recipient,
}

unfoldable pub set_retention : ℕ → ℕ → List RetentionSetting → List RetentionSetting
set_retention tenant days [] = record { tenant_id = tenant; retention_days = days } ∷ []
set_retention tenant days (s ∷ settings) =
    let rest = set_retention tenant days settings in
    if s.tenant_id == tenant then record s { retention_days = days } ∷ settings else s ∷ rest

module _ {N : Type 0} where
  -- `PUT /settings/tenant`: every field of the profile is taken
  unfoldable pub update_settings :
      Option RequestAuth → TenantProfile N → Platform N → Reply (Unit {0}) × Platform N
  update_settings auth b p =
      guarded (λ a. updated a.tenant_id (with_profile b))
        (require_capability (codes "tenant:write") auth) p

  -- `POST /settings/email-recipients`
  unfoldable pub add_recipient :
      Option RequestAuth → Text → Option Text → Platform N → Reply (Unit {0}) × Platform N
  add_recipient auth email label p =
      guarded (λ a p. (sent tt, with_recipient a.tenant_id email label label p))
        (require_capability (codes "tenant:write") auth) p

  abbrev unlisted : ℕ → RequestAuth → Platform N → Reply (Unit {0}) × Platform N
  unlisted id auth p =
      if any (λ r. r.id == id && r.tenant_id == auth.tenant_id) p.recipients
      then (sent tt, record p { recipients = keep (λ r. not (r.id == id)) p.recipients })
      else (failed_with not_found, p)

  -- `DELETE /settings/email-recipients/:id`
  unfoldable pub delete_recipient :
      Option RequestAuth → ℕ → Platform N → Reply (Unit {0}) × Platform N
  delete_recipient auth id p =
      guarded (unlisted id) (require_capability (codes "tenant:write") auth) p

  -- `PUT /settings/retention`
  unfoldable pub update_retention :
      Option RequestAuth → ℕ → Platform N → Reply (Unit {0}) × Platform N
  update_retention auth days p =
      guarded
        (λ a p. (sent tt, record p { retention = set_retention a.tenant_id days p.retention }))
        (require_capability (codes "tenant:write") auth) p
