-- ===== src/Tests/Platform.antt =====
-- The webhooks, the pool of numbers and the users of a tenant, on sample rows.
use ai_phone_plattform.Prelude.{
  ℕ, ◌+◌, ◌≡◌, ◌↔◌, refl, Bool, true, false, none, some, List, [], ◌∷◌, ◌++◌, Text, codes, keep,
  length, All,
}
use ai_phone_plattform.Webhook.{StatusCallback}
use ai_phone_plattform.Webhook.Voice.{VoiceWebhook, VoiceState}
use ai_phone_plattform.Routing.{pending}
use ai_phone_plattform.Routing.Pool.{RoutingNumber, available, claim}
use ai_phone_plattform.Routing.Claims.{Pool, Step, claims, IsSound, Step-IsSound}
use ai_phone_plattform.Routing.Numbers.{Registry, CreateNumber, create_number}
use ai_phone_plattform.Routing.Bound.{IsBound, creates, IsServed-IsBound}
use ai_phone_plattform.Retention.{
  RetentionSetting, CallRow, IsWithin, run_retention_cleanup, run_retention_cleanup-keeps,
}
use ai_phone_plattform.Access.{RequestAuth, tenant_admin, super_admin, tenant_member}
use ai_phone_plattform.Access.Users.{
  User, Directory, CreateUser, updated_user, found_user, invite_user,
}
use ai_phone_plattform.Access.Tenancy.{IsGranted, invite_user-IsGranted, invite_user-password}
use ai_phone_plattform.Export.{csv_escape, read_field, read_field-csv_escape}

abbrev ended : StatusCallback
ended = record { call_status = codes "completed"; call_duration = some (codes "42") }

abbrev webhook : VoiceWebhook
webhook = record { call_sid = codes "CA1"; from = codes "+49301234567" }

abbrev voice : VoiceState ℕ
voice = record {
  dialed = some (record {
    phone = record { active = true; assistant = some 1; tenant_paused = false };
    forwarding_status = pending;
    greeting_text = codes "Hallo";
    consent_text = codes "Einverstanden?";
    realtime_enabled = false;
  });
  calls = [];
  audited = 0;
}

abbrev number : RoutingNumber
number = record {
  id = 7;
  country = codes "DE";
  status = available;
  assigned_tenant = none;
  assigned_phone_number = none;
}

abbrev pool : Pool
pool = record { rows = number ∷ []; holders = [] }

pool-claims : Step pool (record { rows = (claim 7 (number ∷ [])).1; holders = 7 ∷ [] })
unfolding claim
pool-claims = claims 7 refl

Step-IsSound_example : IsSound (record { rows = (claim 7 (number ∷ [])).1; holders = 7 ∷ [] })
Step-IsSound_example =
    Step-IsSound {p = pool} pool-claims
      (record { keys = (tt, tt); free = (λ h. refl, tt); held = tt; single = tt })

abbrev admin : RequestAuth
admin = record { user_id = 1; tenant_id = 1; role = tenant_admin; email = codes "admin@b.de" }

abbrev root : User
root = record { id = 9; email = codes "root@b.de"; name = none; password_hash = some (codes "old") }

abbrev directory : Directory
directory = record {
  users = root ∷ [];
  memberships =
      record { tenant_id = 2; user_id = 9; role = super_admin }
      ∷ record { tenant_id = 1; user_id = 3; role = tenant_member }
      ∷ [];
  next_id = 10;
  audits = [];
}

abbrev invitation : CreateUser
invitation = record {
  email = codes "root@b.de";
  name = none;
  role = tenant_member;
  password = some (codes "new");
}

abbrev hash : Text → Text
hash p = codes "#" ++ p

invite_user-IsGranted_example :
    All
      (IsGranted admin directory)
      (invite_user hash (some admin) invitation directory).1.memberships
invite_user-IsGranted_example = invite_user-IsGranted hash admin invitation directory

abbrev registry : Registry
registry = record {
  numbers = [];
  assistants = record { id = 5; tenant_id = 1 } ∷ record { id = 6; tenant_id = 2 } ∷ [];
  pool = number ∷ [];
  next_id = 20;
}

invite_user-password_example :
    found_user hash (codes "root@b.de") (invite_user hash (some admin) invitation directory).1.users
    ≡ some (updated_user none (some (hash (codes "new"))) root)
invite_user-password_example =
    invite_user-password hash admin invitation root (codes "new") directory refl refl refl refl refl

abbrev new_did : CreateNumber
new_did = record {
  e164 = codes "+4930999";
  display_number = none;
  assistant_id = none;
  active_number = true;
}

IsServed-IsBound_example : IsBound (create_number admin new_did registry).1
IsServed-IsBound_example = IsServed-IsBound (creates admin new_did {r = registry}) tt

abbrev call_rows : List CallRow
call_rows =
    record { id = 1; tenant_id = 1; started_at = 0 }
    ∷ record { id = 2; tenant_id = 2; started_at = 0 }
    ∷ []

abbrev settings : List RetentionSetting
settings = record { tenant_id = 1; retention_days = 30 } ∷ []

run_retention_cleanup-keeps_example :
    (p : CallRow → Bool) × ((run_retention_cleanup 9999999999 settings call_rows).calls
      ≡ keep p call_rows)
    × ((c : CallRow) → (p c ≡ true) ↔ IsWithin 9999999999 settings c)
    × ((run_retention_cleanup 9999999999 settings call_rows).deleted
          + length (run_retention_cleanup 9999999999 settings call_rows).calls
        ≡ length call_rows)
run_retention_cleanup-keeps_example = run_retention_cleanup-keeps 9999999999 settings call_rows

read_field-csv_escape_example :
    read_field (csv_escape (codes "a\"b,c") ++ 44 ∷ []) ≡ some (codes "a\"b,c", 44 ∷ [])
read_field-csv_escape_example = read_field-csv_escape (codes "a\"b,c") (44 ∷ []) refl refl
