-- ===== src/Calls.antt =====
-- The stored calls of all tenants: apps/api/src/routes/calls.ts, apps/api/src/routes/gdpr.ts, and the
-- handler of apps/api/src/routes/admin.ts that anonymizes a call. Parameters and bodies are parsed; of a
-- reply only what depends on the stored texts is kept. The rows stand in the order of
-- `startedAt`, the newest first, and no two calls start at once.
pub mod Erasure
pub mod Pages
use ai_phone_plattform.Prelude.{
  ℕ, zero, suc, ◌+◌, ◌-◌, Bool, true, false, not, ◌&&◌, ◌||◌, Option, none, some, List, [], ◌∷◌,
  ◌++◌, String, Text, codes, text_eq, find, keep, any, take, drop, length, or_else, ltb, ◌==◌,
  if◌then◌else◌,
}
use ai_phone_plattform.Types.{LeadCategory, lead_a, lead_b, lead_c}
use ai_phone_plattform.Crypto.{Primitives, decrypt, blind_hash}
use ai_phone_plattform.Access.{
  RequestAuth, HttpError, unauthorized, not_found, server_error, Reply, sent, failed_with,
  require_capability, guarded,
}

pub record StoredMessage : Type 0 where
  pub role : Text
  pub text_enc : Text

pub record StoredCall : Type 0 where
  pub id : ℕ
  pub tenant_id : ℕ
  pub from_number_enc : Text
  pub caller_name : Option Text
  pub caller_email_enc : Option Text
  pub lead_category : Option LeadCategory
  pub messages : List StoredMessage

pub record CallStore : Type 0 where
  pub rows : List StoredCall
  pub audits : List String

abbrev pub audit : String → CallStore → CallStore
audit action s = record s { audits = s.audits ++ action ∷ [] }

abbrev pub own : ℕ → StoredCall → Bool
own tenant c = c.tenant_id == tenant

abbrev pub is_row : ℕ → ℕ → StoredCall → Bool
is_row tenant id c = c.id == id && c.tenant_id == tenant

abbrev pub same_category : LeadCategory → LeadCategory → Bool
same_category lead_a lead_a = true
same_category lead_b lead_b = true
same_category lead_c lead_c = true
same_category _ _ = false

abbrev pub in_category : Option LeadCategory → Option LeadCategory → Bool
in_category none c = true
in_category (some k) none = false
in_category (some k) (some c) = same_category k c

-- `maskPhone`
unfoldable pub mask_phone : Text → Text
mask_phone e164 =
    if ltb 4 (length e164)
    then take 4 e164 ++ (codes "****" ++ drop (length e164 - 2) e164)
    else codes "****"

-- the rows behind a cursor, which names a row of the list: the row of the cursor and what stands before it are left out
unfoldable pub after_cursor : ℕ → List StoredCall → List StoredCall
after_cursor id [] = []
after_cursor id (c ∷ rows) = let later = after_cursor id rows in if c.id == id then rows else later

abbrev pub from_cursor : Option ℕ → List StoredCall → List StoredCall
from_cursor none rows = rows
from_cursor (some id) rows = after_cursor id rows

abbrev pub last_id : List StoredCall → Option ℕ
last_id [] = none
last_id (c ∷ []) = some c.id
last_id (c ∷ d ∷ rows) = last_id (d ∷ rows)

pub record Page : Type 0 where
  pub items : List StoredCall
  pub next_cursor : Option ℕ

abbrev pub page_of : ℕ → List StoredCall → Page
page_of limit rows = record {
  items = take limit rows;
  next_cursor = if ltb limit (length rows) then last_id (take limit rows) else none;
}

abbrev pub listed : ℕ → Option LeadCategory → StoredCall → Bool
listed tenant category c = own tenant c && in_category category c.lead_category

-- `GET /calls`: one row more than the limit is read to see whether there are more
unfoldable pub list_calls : ℕ → Option LeadCategory → ℕ → Option ℕ → CallStore → Page
unfolding after_cursor
list_calls tenant category limit cursor s =
    page_of limit (take (suc limit) (from_cursor cursor (keep (listed tenant category) s.rows)))

abbrev found_call : ℕ → ℕ → CallStore → Option StoredCall
found_call tenant id s = find (is_row tenant id) s.rows

abbrev deleted : RequestAuth → ℕ → CallStore → Reply (Unit {0}) × CallStore
deleted auth id s = elim (found_call auth.tenant_id id s) [
  | none ↦ (failed_with not_found, s)
  | some c ↦
      (sent tt, audit "call.delete" (record s { rows = keep (λ d. not (d.id == id)) s.rows }))
]

-- `DELETE /calls/:id`
unfoldable pub delete_call : Option RequestAuth → ℕ → CallStore → Reply (Unit {0}) × CallStore
delete_call auth id s =
    guarded (λ a. deleted a id) (require_capability (codes "calls:delete") auth) s

abbrev anonymized : StoredCall → StoredCall
anonymized c = record c {
  from_number_enc = codes "anonymized";
  caller_name = none;
  caller_email_enc = none;
  messages = [];
}

unfoldable pub anonymize_row : ℕ → List StoredCall → List StoredCall
anonymize_row id [] = []
anonymize_row id (c ∷ rows) =
    let rest = anonymize_row id rows in if c.id == id then anonymized c ∷ rest else c ∷ rest

abbrev anonymized_call : ℕ → CallStore → Reply (Unit {0}) × CallStore
anonymized_call id s =
    if any (λ c. c.id == id) s.rows
    then (sent tt, audit "gdpr.anonymize_call" (record s { rows = anonymize_row id s.rows }))
    else (failed_with not_found, s)

-- `POST /admin/gdpr/anonymize-call/:callId`
unfoldable pub anonymize_call : Option RequestAuth → ℕ → CallStore → Reply (Unit {0}) × CallStore
anonymize_call auth id s =
    guarded (λ a. anonymized_call id) (require_capability (codes "platform:gdpr") auth) s

-- One entry of the data that a caller is given.
pub record ExportedCall : Type 0 where
  pub call_id : ℕ
  pub from_number : Text
  pub caller_name : Option Text
  pub caller_email : Option Text
  pub transcript : List (Text × Text)

module _ (c : Primitives) where
  -- `calls.filter(c => blindHash(decrypt(c.fromNumberEnc)) === target)`, or `none` if a decryption throws
  abbrev joined : Bool → StoredCall → Option (List StoredCall) → Option (List StoredCall)
  joined hit row none = none
  joined true row (some rows) = some (row ∷ rows)
  joined false row (some rows) = some rows

  abbrev pub with_number :
      Text → StoredCall → Option Text → Option (List StoredCall) → Option (List StoredCall)
  with_number target row none rest = none
  with_number target row (some number) rest = joined (text_eq (blind_hash c number) target) row rest

  unfoldable pub matched : Text → List StoredCall → Option (List StoredCall)
  matched target [] = some []
  matched target (row ∷ rows) =
      with_number target row (decrypt c row.from_number_enc) (matched target rows)

  abbrev pub has_id : List StoredCall → ℕ → Bool
  has_id rows id = any (λ r. r.id == id) rows

  abbrev erased : RequestAuth → Option (List StoredCall) → CallStore → Reply ℕ × CallStore
  erased auth none s = (failed_with server_error, s)
  erased auth (some hits) s = (
    sent (length hits),
    audit "gdpr.erase"
        (record s { rows = keep (λ r. not (has_id hits r.id && own auth.tenant_id r)) s.rows }),
  )

  -- `POST /gdpr/erase`
  unfoldable pub gdpr_erase : Option RequestAuth → Text → CallStore → Reply ℕ × CallStore
  gdpr_erase auth phone s =
      guarded (λ a s. erased a (matched (blind_hash c phone) (keep (own a.tenant_id) s.rows)) s)
        (require_capability (codes "calls:delete") auth) s

  -- the reply of an export, or `none` if a decryption throws
  abbrev line : Text → Option Text → Option (List (Text × Text)) → Option (List (Text × Text))
  line role none rest = none
  line role (some text) none = none
  line role (some text) (some rest) = some ((role, text) ∷ rest)

  unfoldable pub transcript_of : List StoredMessage → Option (List (Text × Text))
  transcript_of [] = some []
  transcript_of (m ∷ messages) = line m.role (decrypt c m.text_enc) (transcript_of messages)

  -- `decryptNullable`
  abbrev nullable : Option Text → Option (Option Text)
  nullable none = some none
  nullable (some s) = elim (decrypt c s) [ none ↦ none | some t ↦ some (some t) ]

  abbrev entry :
      StoredCall
      → Option Text
      → Option (Option Text)
      → Option (List (Text × Text))
      → Option ExportedCall
  entry row (some number) (some email) (some transcript) = some (record {
    call_id = row.id;
    from_number = number;
    caller_name = row.caller_name;
    caller_email = email;
    transcript = transcript;
  })
  entry row _ _ _ = none

  abbrev listed_entry :
      Option ExportedCall → Option (List ExportedCall) → Option (List ExportedCall)
  listed_entry none rest = none
  listed_entry (some e) none = none
  listed_entry (some e) (some rest) = some (e ∷ rest)

  unfoldable pub entries : List StoredCall → Option (List ExportedCall)
  unfolding transcript_of
  entries [] = some []
  entries (row ∷ rows) =
      listed_entry
        (entry row (decrypt c row.from_number_enc) (nullable row.caller_email_enc)
          (transcript_of row.messages))
        (entries rows)

  abbrev replied : Option (List ExportedCall) → Reply (List ExportedCall)
  replied none = failed_with server_error
  replied (some es) = sent es

  abbrev exported : Option (List StoredCall) → CallStore → Reply (List ExportedCall) × CallStore
  exported none s = (failed_with server_error, s)
  exported (some hits) s = (replied (entries hits), audit "gdpr.export" s)

  -- `POST /gdpr/export`
  unfoldable pub gdpr_export :
      Option RequestAuth → Text → CallStore → Reply (List ExportedCall) × CallStore
  gdpr_export auth phone s =
      guarded (λ a s. exported (matched (blind_hash c phone) (keep (own a.tenant_id) s.rows)) s)
        (require_capability (codes "calls:delete") auth) s
