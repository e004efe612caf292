-- ===== src/Routing/Numbers.antt =====
-- The handlers of apps/api/src/routes/phone-numbers.ts that change rows. The schemas and the telephony
-- provider are parameters; the hash of a number is the number, and the number of a pool row is a
-- function of its id. Setting a webhook at the provider changes no row and is left out.
use ai_phone_plattform.Prelude.{
  ℕ, suc, Bool, true, not, ◌&&◌, Option, none, some, List, [], ◌∷◌, ◌++◌, Text, codes, text_eq, any,
  keep, ◌==◌, if◌then◌else◌,
}
use ai_phone_plattform.Access.{
  RequestAuth, require_capability, Reply, sent, failed_with, bad_request, not_found, conflicting,
  server_error,
}
use ai_phone_plattform.Routing.{
  ResolveResult, resolved, refused, resolve_assistant_for_number, ForwardingStatus, pending, active,
  initial_forwarding_status,
}
use ai_phone_plattform.Routing.Pool.{
  RoutingNumber, assigned, claim_from_pool, link_routing_number, release_claim,
  release_by_phone_number,
}

pub record AssistantRow : Type 0 where
  pub id : ℕ
  pub tenant_id : ℕ

pub record PhoneNumber : Type 0 where
  pub id : ℕ
  pub tenant_id : ℕ
  pub e164 : Text
  pub display_number : Option Text
  pub forwarding_status : ForwardingStatus
  pub assistant_id : ℕ
  pub active_number : Bool

pub record Registry : Type 0 where
  pub numbers : List PhoneNumber
  pub assistants : List AssistantRow
  pub pool : List RoutingNumber
  -- the id of the next new row
  pub next_id : ℕ

pub record CreateNumber : Type 0 where
  pub e164 : Text
  pub display_number : Option Text
  pub assistant_id : Option ℕ
  pub active_number : Bool

-- what the outside does: other requests between two queries, the number of a pool row, and a number
-- that a provider finds and sells when the pool is empty
pub record Outside : Type 0 where
  pub others : ℕ → List RoutingNumber → List RoutingNumber
  pub e164_of : ℕ → Text
  pub provision : Text → Option Text
  pub country : Text
  pub sells : Bool

-- the ids of a tenant's assistants
abbrev pub assistants_of : ℕ → List AssistantRow → List ℕ
assistants_of tenant [] = []
assistants_of tenant (a ∷ rows) =
    let rest = assistants_of tenant rows in if a.tenant_id == tenant then a.id ∷ rest else rest

abbrev pub is_registered : Text → List PhoneNumber → Bool
is_registered e164 = any (λ n. text_eq n.e164 e164)

-- `prisma.phoneNumber.create`, whose numbers are unique
abbrev pub insert_number : (ℕ → PhoneNumber) → Registry → Registry
insert_number row r = record r {
  numbers = r.numbers ++ row r.next_id ∷ [];
  next_id = suc r.next_id;
}

abbrev pub new_number : ℕ → ℕ → Text → Option Text → ForwardingStatus → Bool → ℕ → PhoneNumber
new_number tenant assistant e164 display status active' id = record {
  id = id;
  tenant_id = tenant;
  e164 = e164;
  display_number = display;
  forwarding_status = status;
  assistant_id = assistant;
  active_number = active';
}

abbrev pub guarded : RequestAuth → (Registry → Reply ℕ × Registry) → Registry → Reply ℕ × Registry
guarded auth handler r = elim (require_capability (codes "tenant:write") (some auth)) [
  | failed_with e ↦ (failed_with e, r)
  | sent a ↦ handler r
]

abbrev pub created_number :
    RequestAuth → CreateNumber → ResolveResult → Registry → Reply ℕ × Registry
created_number auth body (refused m) r = (failed_with bad_request, r)
created_number auth body (resolved assistant) r = (
  sent r.next_id,
  insert_number
      (new_number auth.tenant_id assistant body.e164 body.display_number
        (initial_forwarding_status body.display_number) body.active_number)
      r,
)

abbrev pub create : RequestAuth → CreateNumber → Registry → Reply ℕ × Registry
create auth body r =
    if is_registered body.e164 r.numbers
    then (failed_with conflicting, r)
    else created_number auth body
        (resolve_assistant_for_number (assistants_of auth.tenant_id r.assistants) body.assistant_id)
        r

-- `POST /phone-numbers`
unfoldable pub create_number : RequestAuth → CreateNumber → Registry → Reply ℕ × Registry
create_number auth body = guarded auth (create auth body)

module _ (o : Outside) where
  -- the row that `provisionFresh` creates for a number that was bought
  abbrev bought_row : ℕ → RoutingNumber
  bought_row id = record {
    id = id;
    country = o.country;
    status = assigned;
    assigned_tenant = none;
    assigned_phone_number = none;
  }

  abbrev pub provisioned : Option Text → Registry → Option (ℕ × Text) × Registry
  provisioned none r = (none, r)
  provisioned (some e164) r = (
    some (r.next_id, e164),
    record r { pool = r.pool ++ bought_row r.next_id ∷ []; next_id = suc r.next_id },
  )

  abbrev pub acquired : Option ℕ × List RoutingNumber → Registry → Option (ℕ × Text) × Registry
  acquired (some id, rows) r = (some (id, o.e164_of id), record r { pool = rows })
  acquired (none, rows) r = provisioned (o.provision o.country) (record r { pool = rows })

  -- `acquireRoutingNumber`, with the six attempts of `claimFromPool`
  unfoldable pub acquire_routing_number : Registry → Option (ℕ × Text) × Registry
  acquire_routing_number r = acquired (claim_from_pool 6 o.others (some o.country) r.pool) r

  -- A number that is registered already makes the creation throw, and the claim is released.
  abbrev pub kept_number :
      RequestAuth → Text → ℕ → Option (ℕ × Text) × Registry → Reply ℕ × Registry
  kept_number auth display assistant (none, r) = (failed_with conflicting, r)
  kept_number auth display assistant (some (id, e164), r) =
      if is_registered e164 r.numbers
      then (failed_with server_error, record r { pool = release_claim id r.pool })
      else (
        sent r.next_id,
        insert_number (new_number auth.tenant_id assistant e164 (some display) pending true)
            (record r { pool = link_routing_number id auth.tenant_id r.next_id r.pool }),
      )

  abbrev pub keep_resolved : RequestAuth → Text → ResolveResult → Registry → Reply ℕ × Registry
  keep_resolved auth display (refused m) r = (failed_with bad_request, r)
  keep_resolved auth display (resolved assistant) r =
      kept_number auth display assistant (acquire_routing_number r)

  abbrev pub keep_own : RequestAuth → Text → Option ℕ → Registry → Reply ℕ × Registry
  keep_own auth display assistant r =
      keep_resolved auth display
        (resolve_assistant_for_number (assistants_of auth.tenant_id r.assistants) assistant) r

  -- `POST /phone-numbers/keep-number`
  unfoldable pub keep_number : RequestAuth → Text → Option ℕ → Registry → Reply ℕ × Registry
  keep_number auth display assistant = guarded auth (keep_own auth display assistant)

  abbrev pub purchased : RequestAuth → Text → ResolveResult → Registry → Reply ℕ × Registry
  purchased auth e164 (refused m) r = (failed_with bad_request, r)
  purchased auth e164 (resolved assistant) r =
      if o.sells
      then (
        sent r.next_id,
        insert_number (new_number auth.tenant_id assistant e164 none active true) r,
      )
      else (failed_with bad_request, r)

  abbrev pub purchase : RequestAuth → Text → Option ℕ → Registry → Reply ℕ × Registry
  purchase auth e164 assistant r =
      if is_registered e164 r.numbers
      then (failed_with conflicting, r)
      else purchased auth e164
          (resolve_assistant_for_number (assistants_of auth.tenant_id r.assistants) assistant) r

  -- `POST /phone-numbers/purchase`, with a provider
  unfoldable pub purchase_number : RequestAuth → Text → Option ℕ → Registry → Reply ℕ × Registry
  purchase_number auth e164 assistant = guarded auth (purchase auth e164 assistant)

abbrev pub is_own : ℕ → ℕ → PhoneNumber → Bool
is_own tenant id n = n.id == id && n.tenant_id == tenant

abbrev pub reassigned : ℕ → ℕ → ℕ → List PhoneNumber → List PhoneNumber
reassigned tenant id assistant [] = []
reassigned tenant id assistant (n ∷ ns) =
    let rest = reassigned tenant id assistant ns in
    if is_own tenant id n then record n { assistant_id = assistant } ∷ rest else n ∷ rest

abbrev pub reassign : RequestAuth → ℕ → ℕ → Registry → Reply ℕ × Registry
reassign auth id assistant r =
    if not (any (is_own auth.tenant_id id) r.numbers)
    then (failed_with not_found, r)
    else if any (λ a. a == assistant) (assistants_of auth.tenant_id r.assistants)
    then (sent id, record r { numbers = reassigned auth.tenant_id id assistant r.numbers })
    else (failed_with bad_request, r)

-- `PATCH /phone-numbers/:id`; ids are unique, so the update by id is one of the row that was found
unfoldable pub reassign_number : RequestAuth → ℕ → ℕ → Registry → Reply ℕ × Registry
reassign_number auth id assistant = guarded auth (reassign auth id assistant)

abbrev pub delete : RequestAuth → ℕ → Registry → Reply ℕ × Registry
delete auth id r =
    if any (is_own auth.tenant_id id) r.numbers
    then (
      sent id,
      record r {
        numbers = keep (λ n. not (n.id == id)) r.numbers;
        pool = release_by_phone_number id r.pool;
      },
    )
    else (failed_with not_found, r)

-- `DELETE /phone-numbers/:id`
unfoldable pub delete_number : RequestAuth → ℕ → Registry → Reply ℕ × Registry
delete_number auth id = guarded auth (delete auth id)
