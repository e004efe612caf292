-- ===== src/Admin/Tenants.antt =====
-- The tenants: apps/api/src/routes/tenants.ts, and the recipients of apps/api/src/routes/settings.ts. The
-- other settings and the onboarding have files of their own. Bodies are parsed. The lists, the calls and
-- the bills of a tenant are not modelled here, nor are audits and the magic link of the reply.
pub mod Provision
pub mod Settings
pub mod Ready
pub mod Grants
pub mod Scope
pub mod Requests
use ai_phone_plattform.Prelude.{
  ℕ, suc, Bool, true, false, not, ◌&&◌, ◌||◌, Option, none, some, or_else, List, [], ◌∷◌, ◌++◌,
  Text, codes, text_eq, find, any, keep, ◌==◌, if◌then◌else◌,
}
use ai_phone_plattform.Js.{Js}
use ai_phone_plattform.Access.{
  RequestAuth, Role, tenant_admin, is_super_admin, unauthorized, forbidden, not_found, server_error,
  Reply, sent, failed_with, require_capability, guarded,
}
use ai_phone_plattform.Access.Users.{Directory, Membership, CreateUser, upsert_tenant_user}
use ai_phone_plattform.Retention.{RetentionSetting}
use ai_phone_plattform.Setup.{Setup}
use ai_phone_plattform.Setup.Starter.{create_starter_content}

pub data Plan : Type 0 where
  starter business enterprise : Plan

-- `createTenantSchema`, but for the slug
pub record TenantProfile (N : Type 0) : Type 0 where
  pub name : Option Text
  pub is_german : Option Bool
  pub monthly_budget_limit : Option (Option N)
  pub auto_pause_on_budget : Option Bool
  pub industry : Option Text
  pub country : Option Text
  pub timezone : Option Text
  pub plan : Option Plan
  pub telephony_mode : Option Text
  pub openai_mode : Option Text
  pub realtime_enabled : Option Bool

pub record TenantRow (N : Type 0) : Type 0 where
  pub id : ℕ
  pub slug : Text
  pub name : Text
  pub is_german : Bool
  pub monthly_budget_limit : Option N
  pub auto_pause_on_budget : Bool
  pub paused : Bool
  pub industry : Option Text
  pub country : Text
  pub timezone : Text
  pub plan : Plan
  pub telephony_mode : Text
  pub openai_mode : Text
  pub realtime_enabled : Bool

pub record Recipient : Type 0 where
  pub id : ℕ
  pub tenant_id : ℕ
  pub email : Text
  pub label : Option Text

pub record Platform (N : Type 0) : Type 0 where
  pub tenants : List (TenantRow N)
  pub directory : Directory
  pub setup : Setup N
  pub recipients : List Recipient
  pub retention : List RetentionSetting
  -- the id of the next new tenant or recipient
  pub next_id : ℕ

abbrev given : Option Text → Option Text → Option Text
given none old = old
given (some new) old = some new

abbrev with_retention : ℕ → List RetentionSetting → List RetentionSetting
with_retention id settings = settings ++ record { tenant_id = id; retention_days = 90 } ∷ []

abbrev authenticated : Option RequestAuth → Reply RequestAuth
authenticated none = failed_with unauthorized
authenticated (some auth) = sent auth

abbrev pub is_recipient : ℕ → Text → Recipient → Bool
is_recipient tenant email r = r.tenant_id == tenant && text_eq r.email email

unfoldable pub relabel : ℕ → Text → Option Text → List Recipient → List Recipient
relabel tenant email label [] = []
relabel tenant email label (r ∷ rs) =
    let rest = relabel tenant email label rs in
    if is_recipient tenant email r
    then record r { label = given label r.label } ∷ rest
    else r ∷ rest

module _ {N : Type 0} where
  abbrev pub is_tenant : ℕ → TenantRow N → Bool
  is_tenant id t = t.id == id

  abbrev pub has_slug : Text → TenantRow N → Bool
  has_slug slug t = text_eq t.slug slug

  -- `tenantWizardData`, with the defaults of the schema of the database
  abbrev new_tenant : ℕ → Text → Text → TenantProfile N → TenantRow N
  new_tenant id name slug b = record {
    id = id;
    slug = slug;
    name = name;
    is_german = or_else b.is_german true;
    monthly_budget_limit = or_else b.monthly_budget_limit none;
    auto_pause_on_budget = or_else b.auto_pause_on_budget false;
    paused = false;
    industry = b.industry;
    country = or_else b.country (codes "DE");
    timezone = or_else b.timezone (codes "Europe/Berlin");
    plan = or_else b.plan starter;
    telephony_mode = or_else b.telephony_mode (codes "platform_twilio");
    openai_mode = or_else b.openai_mode (codes "platform");
    realtime_enabled = false;
  }

  -- an update with the fields that a body has
  abbrev pub with_profile : TenantProfile N → TenantRow N → TenantRow N
  with_profile b t = record t {
    name = or_else b.name t.name;
    is_german = or_else b.is_german t.is_german;
    monthly_budget_limit = or_else b.monthly_budget_limit t.monthly_budget_limit;
    auto_pause_on_budget = or_else b.auto_pause_on_budget t.auto_pause_on_budget;
    industry = given b.industry t.industry;
    country = or_else b.country t.country;
    timezone = or_else b.timezone t.timezone;
    plan = or_else b.plan t.plan;
    telephony_mode = or_else b.telephony_mode t.telephony_mode;
    openai_mode = or_else b.openai_mode t.openai_mode;
    realtime_enabled = or_else b.realtime_enabled t.realtime_enabled;
  }

  unfoldable pub update_row :
      ℕ → (TenantRow N → TenantRow N) → List (TenantRow N) → List (TenantRow N)
  update_row id f [] = []
  update_row id f (t ∷ ts) =
      let rest = update_row id f ts in if is_tenant id t then f t ∷ rest else t ∷ rest

  -- `prisma.tenant.update({ where: { id } })`, an error if there is no such row
  abbrev pub updated : ℕ → (TenantRow N → TenantRow N) → Platform N → Reply (Unit {0}) × Platform N
  updated id f p =
      if any (is_tenant id) p.tenants
      then (sent tt, record p { tenants = update_row id f p.tenants })
      else (failed_with server_error, p)

  abbrev pub added_tenant : Text → Text → TenantProfile N → Platform N → Platform N
  added_tenant name slug b p = record p {
    tenants = p.tenants ++ new_tenant p.next_id name slug b ∷ [];
    retention = with_retention p.next_id p.retention;
    next_id = suc p.next_id;
  }

  abbrev created : Text → Text → TenantProfile N → Platform N → Reply ℕ × Platform N
  created name slug b p =
      if any (has_slug slug) p.tenants
      then (failed_with server_error, p)
      else (sent p.next_id, added_tenant name slug b p)

  -- `POST /admin/tenants`
  unfoldable pub create_tenant :
      Option RequestAuth → Text → Text → TenantProfile N → Platform N → Reply ℕ × Platform N
  create_tenant auth name slug b p =
      guarded (λ a. created name slug b) (require_capability (codes "platform:tenants:write") auth)
        p

  abbrev paused_row : Bool → TenantRow N → TenantRow N
  paused_row b t = record t { paused = b }

  -- `POST /admin/tenants/:id/pause`
  unfoldable pub pause_tenant : Option RequestAuth → ℕ → Platform N → Reply (Unit {0}) × Platform N
  pause_tenant auth id p =
      guarded (λ a. updated id (paused_row true))
        (require_capability (codes "platform:tenants:write") auth) p

  abbrev resumed : ℕ → RequestAuth → Platform N → Reply (Unit {0}) × Platform N
  resumed id auth p =
      if not (is_super_admin auth.role) && not (auth.tenant_id == id)
      then (failed_with forbidden, p)
      else updated id (paused_row false) p

  -- `POST /admin/tenants/:id/resume`, which asks for no capability
  unfoldable pub resume_tenant : Option RequestAuth → ℕ → Platform N → Reply (Unit {0}) × Platform N
  resume_tenant auth id p = guarded (resumed id) (authenticated auth) p

  abbrev edited : ℕ → TenantProfile N → Platform N → Reply (Unit {0}) × Platform N
  edited id b p =
      if any (is_tenant id) p.tenants
      then (sent tt, record p { tenants = update_row id (with_profile b) p.tenants })
      else (failed_with not_found, p)

  -- `PUT /admin/tenants/:id`
  unfoldable pub update_tenant :
      Option RequestAuth → ℕ → TenantProfile N → Platform N → Reply (Unit {0}) × Platform N
  update_tenant auth id b p =
      guarded (λ a. edited id b) (require_capability (codes "platform:tenants:write") auth) p

  -- what the deletion of a tenant cascades to
  abbrev cascaded : ℕ → Platform N → Platform N
  cascaded id p = record p {
    tenants = keep (λ t. not (is_tenant id t)) p.tenants;
    directory = record p.directory {
      memberships = keep (λ m. not (m.tenant_id == id)) p.directory.memberships;
    };
    setup = record p.setup {
      questionnaires = keep (λ q. not (q.tenant_id == id)) p.setup.questionnaires;
      assistants = keep (λ a. not (a.tenant_id == id)) p.setup.assistants;
    };
    recipients = keep (λ r. not (r.tenant_id == id)) p.recipients;
    retention = keep (λ s. not (s.tenant_id == id)) p.retention;
  }

  abbrev deleted : ℕ → Platform N → Reply (Unit {0}) × Platform N
  deleted id p =
      if any (is_tenant id) p.tenants then (sent tt, cascaded id p) else (failed_with not_found, p)

  -- `DELETE /admin/tenants/:id`
  unfoldable pub delete_tenant : Option RequestAuth → ℕ → Platform N → Reply (Unit {0}) × Platform N
  delete_tenant auth id p =
      guarded (λ a. deleted id) (require_capability (codes "platform:tenants:write") auth) p

  -- `prisma.emailRecipient.upsert`; `onto` is the label that an existing row is given
  abbrev pub with_recipient : ℕ → Text → Option Text → Option Text → Platform N → Platform N
  with_recipient tenant email label onto p =
      if any (is_recipient tenant email) p.recipients
      then record p { recipients = relabel tenant email onto p.recipients }
      else record p {
        recipients =
            p.recipients
            ++ record { id = p.next_id; tenant_id = tenant; email = email; label = label } ∷ [];
        next_id = suc p.next_id;
      }
