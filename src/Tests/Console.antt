-- ===== src/Tests/Console.antt =====
-- The console of the operator and the setup of tenants, on sample rows.
use ai_phone_plattform.Prelude.{
  ℕ, refl, Bool, true, none, some, List, [], ◌∷◌, Text, codes, length, leb,
}
use ai_phone_plattform.Js.Sample.{sample}
use ai_phone_plattform.Types.{TelephonyProvider, twilio}
use ai_phone_plattform.Access.{RequestAuth, super_admin, tenant_admin}
use ai_phone_plattform.Setup.{Setup}
use ai_phone_plattform.Setup.Starter.{create_starter_content}
use ai_phone_plattform.Setup.Owned.{IsSound}
use ai_phone_plattform.Setup.Owned.Served.{starts, IsServed-IsSound}
use ai_phone_plattform.Admin.Numbers.{
  NumberPool, TelephonyPort, AddRoutingNumber, IsAdded, add_routing_number,
  add_routing_number-IsAdded,
}
use ai_phone_plattform.Admin.Tenants.{Platform, TenantProfile}
use ai_phone_plattform.Admin.Tenants.Settings.{delete_recipient}
use ai_phone_plattform.Admin.Tenants.Provision.{ProvisionTenant, provision_tenant}
use ai_phone_plattform.Admin.Tenants.Scope.{SameOutside}
use ai_phone_plattform.Admin.Tenants.Requests.{unlists, IsRequested-SameOutside}
use ai_phone_plattform.Admin.Tenants.Ready.{IsProvisioned, provision_tenant-IsProvisioned}

abbrev operator : RequestAuth
operator = record { user_id = 1; tenant_id = 1; role = super_admin; email = codes "root@b.de" }

abbrev empty_setup : Setup ℕ
empty_setup = record { questionnaires = []; assistants = []; next_id = 1; audits = [] }

empty-IsSound : IsSound sample empty_setup
empty-IsSound = record { accepted = tt; owned = tt; distinct = tt; below = tt }

IsServed-IsSound_example :
    IsSound sample (create_starter_content sample (codes "Fragen") 7 empty_setup).1
IsServed-IsSound_example =
    IsServed-IsSound sample {s = empty_setup} (starts (codes "Fragen") 7) empty-IsSound

abbrev port : TelephonyProvider → TelephonyPort
port provider = record {
  can_provision = true;
  is_configured = true;
  buys = λ number. true;
  sets_webhook = λ number. true;
}

abbrev body : AddRoutingNumber
body = record { e164 = codes "+491"; provider = twilio; country = codes "DE"; purchase = true }

abbrev no_numbers : NumberPool
no_numbers = record { entries = []; next_id = 1; bought = [] }

add_routing_number-IsAdded_example :
    IsAdded
      (λ s. s)
      body
      no_numbers
      (add_routing_number (λ s. s) port (some operator) body no_numbers)
add_routing_number-IsAdded_example =
    add_routing_number-IsAdded (λ s. s) port (some operator) body no_numbers

abbrev profile : TenantProfile ℕ
profile = record {
  name = none;
  is_german = none;
  monthly_budget_limit = none;
  auto_pause_on_budget = none;
  industry = none;
  country = none;
  timezone = none;
  plan = none;
  telephony_mode = none;
  openai_mode = none;
  realtime_enabled = none;
}

abbrev provision : ProvisionTenant ℕ
provision = record {
  name = codes "Praxis";
  slug = codes "praxis";
  profile = profile;
  admin_email = codes "chef@b.de";
  admin_name = none;
  admin_password = some (codes "geheim12");
  seed_starter_content = true;
}

abbrev platform : Platform ℕ
platform = record {
  tenants = [];
  directory = record { users = []; memberships = []; next_id = 1; audits = [] };
  setup = empty_setup;
  recipients = [];
  retention = [];
  next_id = 1;
}

provision_tenant-IsProvisioned_example :
    IsProvisioned sample provision platform
      (provision_tenant sample (λ s. s) (codes "Fragen") (some operator) provision platform)
provision_tenant-IsProvisioned_example =
    provision_tenant-IsProvisioned sample (λ s. s) (codes "Fragen") (some operator) provision
      platform empty-IsSound

abbrev minutes : List (Text × ℕ)
minutes = (codes "b", 2) ∷ (codes "a", 3) ∷ (codes "b", 5) ∷ []

abbrev shorter : Text → Text → Bool
shorter s t = leb (length s) (length t)

-- an administrator of the tenant that is provisioned first
abbrev admin : RequestAuth
admin = record { user_id = 2; tenant_id = 1; role = tenant_admin; email = codes "chef@b.de" }

abbrev recipients : Platform ℕ
recipients = record platform {
  recipients =
      record { id = 5; tenant_id = 1; email = codes "a@b.de"; label = none }
      ∷ record { id = 6; tenant_id = 2; email = codes "a@b.de"; label = none }
      ∷ [];
}

IsRequested-SameOutside_example :
    SameOutside 1 recipients (delete_recipient (some admin) 5 recipients).1
IsRequested-SameOutside_example =
    IsRequested-SameOutside sample (λ s. s) (codes "Fragen") {auth = admin} {p = recipients}
      (unlists 5) refl ((refl, tt), (tt, tt))
