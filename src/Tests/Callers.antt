-- ===== src/Tests/Callers.antt =====
-- The stored calls of a tenant, with a cipher that leaves its text as it is.
use ai_phone_plattform.Prelude.{
  ℕ, ◌≡◌, refl, arith, not, ◌&&◌, none, some, List, [], ◌∷◌, Text, codes, keep, length, ◌==◌,
  if◌then◌else◌,
}
use ai_phone_plattform.Crypto.{Primitives, encrypt, blind_hash}
use ai_phone_plattform.Crypto.Laws.{Laws, decrypt-encrypt}
use ai_phone_plattform.Access.{
  RequestAuth, tenant_admin, super_admin, server_error, sent, failed_with, require_capability,
  role_has_capability, role_capabilities,
}
use ai_phone_plattform.Calls.{
  StoredCall, CallStore, own, listed, gdpr_erase, gdpr_export, anonymize_call,
}
use ai_phone_plattform.Calls.Erasure.{is_hit, gdpr_erase-eq-keep, gdpr-anonymized}
use ai_phone_plattform.Calls.Pages.{follow, follow-eq-keep}

abbrev sixteen : List ℕ
sixteen = 0 ∷ 0 ∷ 0 ∷ 0 ∷ 0 ∷ 0 ∷ 0 ∷ 0 ∷ 0 ∷ 0 ∷ 0 ∷ 0 ∷ 0 ∷ 0 ∷ 0 ∷ 0 ∷ []

abbrev pub plain : Primitives
plain = record {
  seal = λ iv b. (b, sixteen);
  unseal = λ iv tag ct. if length tag == 16 then some ct else none;
  to_base64 = λ b. b;
  from_base64 = λ s. s;
  to_utf8 = λ s. s;
  from_utf8 = λ b. b;
  hmac = λ s. s;
}

pub plain-Laws : Laws plain
plain-Laws = record {
  unseal-seal = λ iv b h. refl;
  tag_length = λ iv b h. refl;
  no_tag = λ iv ct. refl;
  from_base64-to_base64 = λ b. refl;
  length-from_base64 = λ s. omega arith;
}

abbrev pub twelve : List ℕ
twelve = 1 ∷ 2 ∷ 3 ∷ 4 ∷ 5 ∷ 6 ∷ 7 ∷ 8 ∷ 9 ∷ 10 ∷ 11 ∷ 12 ∷ []

abbrev eva : Text
eva = codes "+491"

abbrev other : Text
other = codes "+492"

abbrev row : ℕ → ℕ → Text → StoredCall
row id tenant number = record {
  id = id;
  tenant_id = tenant;
  from_number_enc = encrypt plain twelve number;
  caller_name = none;
  caller_email_enc = none;
  lead_category = none;
  messages = [];
}

abbrev store : CallStore
store = record { rows = row 1 1 eva ∷ row 2 1 other ∷ row 3 2 eva ∷ []; audits = [] }

abbrev admin : RequestAuth
admin = record { user_id = 1; tenant_id = 1; role = tenant_admin; email = codes "admin@b.de" }

abbrev operator : RequestAuth
operator = record admin { role = super_admin }

-- the number of a sample row
abbrev number_of : StoredCall → Text
number_of r = if r.id == 2 then other else eva

-- Of two calls of the tenant and one of another, the one with the number is erased.
gdpr_erase-eq-keep_example :
    ((gdpr_erase plain (some admin) eva store).1.rows
      ≡ keep (λ r. not (own 1 r && is_hit plain number_of (blind_hash plain eva) r)) store.rows)
    × ((gdpr_erase plain (some admin) eva store).0
        ≡ sent (
            length
              (keep (λ r. own 1 r && is_hit plain number_of (blind_hash plain eva) r) store.rows)))
unfolding require_capability role_has_capability role_capabilities
gdpr_erase-eq-keep_example =
    gdpr_erase-eq-keep plain admin eva store refl number_of
      ((refl, (refl, tt)), ((refl, tt), (tt, tt)))
      (
        decrypt-encrypt plain plain-Laws twelve eva refl,
        (decrypt-encrypt plain plain-Laws twelve other refl, tt),
      )

gdpr-anonymized_example :
    (gdpr_erase plain (some admin) eva (anonymize_call (some operator) 2 store).1
      ≡ (failed_with server_error, (anonymize_call (some operator) 2 store).1))
    × ((gdpr_export plain (some admin) eva (anonymize_call (some operator) 2 store).1).0
        ≡ failed_with server_error)
unfolding require_capability role_has_capability role_capabilities
gdpr-anonymized_example = gdpr-anonymized plain plain-Laws operator admin 2 eva store refl refl refl

-- Pages of one call: two calls of the tenant.
follow-eq-keep_example : follow 1 none 1 store 4 none ≡ keep (listed 1 none) store.rows
follow-eq-keep_example =
    follow-eq-keep 1 none 1 store (omega arith) ((refl, (refl, tt)), ((refl, tt), (tt, tt))) 4
      (omega arith)
