-- ===== src/Routing/Bound.antt =====
-- Every phone number (apps/api/src/routes/phone-numbers.ts) leads to an assistant of its tenant.
use ai_phone_plattform.Prelude.{
  ℕ, ◌≡◌, refl, sym, subst, Bool, true, false, Option, none, some, List, [], ◌∷◌, Text, codes, any,
  keep, ◌==◌, All, All-append, Bool-cases, and-eq-true, ==_iff, inl, inr, if◌then◌else◌,
}
use ai_phone_plattform.Access.{
  RequestAuth, require_capability, Reply, sent, failed_with, bad_request, server_error,
}
use ai_phone_plattform.Routing.{
  ResolveResult, resolved, refused, resolve_assistant_for_number-any, pending, active,
  initial_forwarding_status,
}
use ai_phone_plattform.Routing.Pool.{
  RoutingNumber, claim_from_pool, link_routing_number, release_claim,
}
use ai_phone_plattform.Routing.Numbers.{
  AssistantRow, PhoneNumber, Registry, CreateNumber, Outside, assistants_of, is_registered,
  insert_number, new_number, guarded, create, keep_own, purchase, reassign, delete, created_number,
  create_number, acquired, provisioned, acquire_routing_number, kept_number, keep_resolved,
  keep_number, purchased, purchase_number, is_own, reassigned, reassign_number, delete_number,
}

abbrev pub IsOwnAssistant : List AssistantRow → PhoneNumber → Type 0
IsOwnAssistant assistants n =
    any (λ a. a == n.assistant_id) (assistants_of n.tenant_id assistants) ≡ true

abbrev pub IsBound : Registry → Type 0
IsBound r = All (IsOwnAssistant r.assistants) r.numbers

-- A request that is served, by the handler of its route.
pub data IsServed : Registry → Registry → Type 0 where
  creates :
      (auth : RequestAuth) (body : CreateNumber) {r : Registry}
      → IsServed r (create_number auth body r).1
  keeps :
      (o : Outside) (auth : RequestAuth) (display : Text) (assistant : Option ℕ) {r : Registry}
      → IsServed r (keep_number o auth display assistant r).1
  purchases :
      (o : Outside) (auth : RequestAuth) (e164 : Text) (assistant : Option ℕ) {r : Registry}
      → IsServed r (purchase_number o auth e164 assistant r).1
  reassigns :
      (auth : RequestAuth) (id assistant : ℕ) {r : Registry}
      → IsServed r (reassign_number auth id assistant r).1
  deletes : (auth : RequestAuth) (id : ℕ) {r : Registry} → IsServed r (delete_number auth id r).1

reply-IsBound :
    (reply : Reply RequestAuth) (handler : Registry → Reply ℕ × Registry) (r : Registry)
    → IsBound r
    → IsBound (handler r).1
    → IsBound
        (elim reply as (λ _. Reply ℕ × Registry) [
          | failed_with e ↦ (failed_with e, r)
          | sent a ↦ handler r
        ]).1
reply-IsBound (failed_with e) handler r h k = h
reply-IsBound (sent a) handler r h k = k

guarded-IsBound :
    (auth : RequestAuth) (handler : Registry → Reply ℕ × Registry) (r : Registry)
    → IsBound r
    → IsBound (handler r).1
    → IsBound (guarded auth handler r).1
guarded-IsBound auth handler r h k =
    reply-IsBound (require_capability (codes "tenant:write") (some auth)) handler r h k

branch-IsBound :
    (b : Bool) (x y : Reply ℕ × Registry)
    → IsBound x.1
    → IsBound y.1
    → IsBound (if b then x else y).1
branch-IsBound true x y h k = h
branch-IsBound false x y h k = k

insert-IsBound :
    (row : ℕ → PhoneNumber) (r : Registry)
    → IsOwnAssistant r.assistants (row r.next_id)
    → IsBound r
    → IsBound (insert_number row r)
insert-IsBound row r own h = All-append (IsOwnAssistant r.assistants) r.numbers _ h (own, tt)

created-IsBound :
    (auth : RequestAuth) (body : CreateNumber) (res : ResolveResult) (r : Registry)
    → ((a : ℕ)
        → res ≡ resolved a
        → any (λ b. b == a) (assistants_of auth.tenant_id r.assistants) ≡ true)
    → IsBound r
    → IsBound (created_number auth body res r).1
created-IsBound auth body (refused m) r own h = h
created-IsBound auth body (resolved a) r own h =
    insert-IsBound
      (new_number auth.tenant_id a body.e164 body.display_number
        (initial_forwarding_status body.display_number) body.active_number)
      r (own a refl) h

module _ (o : Outside) where
  purchased-IsBound :
      (auth : RequestAuth) (e164 : Text) (res : ResolveResult) (r : Registry)
      → ((a : ℕ)
          → res ≡ resolved a
          → any (λ b. b == a) (assistants_of auth.tenant_id r.assistants) ≡ true)
      → IsBound r
      → IsBound (purchased o auth e164 res r).1
  purchased-IsBound auth e164 (refused m) r own h = h
  purchased-IsBound auth e164 (resolved a) r own h =
      branch-IsBound o.sells
        (sent r.next_id, insert_number (new_number auth.tenant_id a e164 none active true) r)
        (failed_with bad_request, r)
        (insert-IsBound (new_number auth.tenant_id a e164 none active true) r (own a refl) h) h

  abbrev rows_of : Registry → List PhoneNumber × List AssistantRow
  rows_of r = (r.numbers, r.assistants)

  provisioned-rows : (e : Option Text) (r : Registry) → rows_of (provisioned o e r).1 ≡ rows_of r
  provisioned-rows none r = refl
  provisioned-rows (some e) r = refl

  acquired-rows :
      (c : Option ℕ × List RoutingNumber) (r : Registry) → rows_of (acquired o c r).1 ≡ rows_of r
  acquired-rows (some id, rows) r = refl
  acquired-rows (none, rows) r = provisioned-rows (o.provision o.country) _

  kept-IsBound :
      (auth : RequestAuth) (display : Text) (assistant : ℕ) (c : Option (ℕ × Text) × Registry)
      → any (λ b. b == assistant) (assistants_of auth.tenant_id c.1.assistants) ≡ true
      → IsBound c.1
      → IsBound (kept_number o auth display assistant c).1
  kept-IsBound auth display assistant (none, r) own h = h
  kept-IsBound auth display assistant (some (id, e164), r) own h =
      let linked = record r { pool = link_routing_number id auth.tenant_id r.next_id r.pool } in
      let row = new_number auth.tenant_id assistant e164 (some display) pending true in
      branch-IsBound (is_registered e164 r.numbers)
        (failed_with server_error, record r { pool = release_claim id r.pool })
        (sent r.next_id, insert_number row linked) h (insert-IsBound row linked own h)

  abbrev OwnsIn : ℕ → ℕ → List PhoneNumber × List AssistantRow → Type 0
  OwnsIn tenant a t =
      (any (λ b. b == a) (assistants_of tenant t.1) ≡ true) × All (IsOwnAssistant t.1) t.0

  resolved-IsBound :
      (auth : RequestAuth) (display : Text) (res : ResolveResult) (r : Registry)
      → ((a : ℕ)
          → res ≡ resolved a
          → any (λ b. b == a) (assistants_of auth.tenant_id r.assistants) ≡ true)
      → IsBound r
      → IsBound (keep_resolved o auth display res r).1
  unfolding acquire_routing_number
  resolved-IsBound auth display (refused m) r own h = h
  resolved-IsBound auth display (resolved a) r own h =
      let c = acquired o (claim_from_pool 6 o.others (some o.country) r.pool) r in
      let both =
        subst (OwnsIn auth.tenant_id a)
          (sym (acquired-rows (claim_from_pool 6 o.others (some o.country) r.pool) r))
          (own a refl, h) in
      kept-IsBound auth display a c both.0 both.1

reassigned-IsBound :
    (tenant id assistant : ℕ) (assistants : List AssistantRow) (ns : List PhoneNumber)
    → any (λ a. a == assistant) (assistants_of tenant assistants) ≡ true
    → All (IsOwnAssistant assistants) ns
    → All (IsOwnAssistant assistants) (reassigned tenant id assistant ns)
reassigned-IsBound tenant id assistant assistants [] own h = tt
reassigned-IsBound tenant id assistant assistants (n ∷ ns) own h =
    elim (Bool-cases (is_own tenant id n)) [
      | inl this ↦
          let here : n.tenant_id ≡ tenant = (==_iff _ _).0 (and-eq-true _ _ this).1 in
          rw this (
            subst (λ t. any (λ a. a == assistant) (assistants_of t assistants) ≡ true) (sym here)
                own,
            reassigned-IsBound tenant id assistant assistants ns own h.1,
          )
      | inr other ↦ rw other (h.0, reassigned-IsBound tenant id assistant assistants ns own h.1)
    ]

keep-IsBound :
    (assistants : List AssistantRow) (p : PhoneNumber → Bool) (ns : List PhoneNumber)
    → All (IsOwnAssistant assistants) ns
    → All (IsOwnAssistant assistants) (keep p ns)
keep-IsBound assistants p [] h = tt
keep-IsBound assistants p (n ∷ ns) h = elim (Bool-cases (p n)) [
  | inl kept ↦ rw kept (h.0, keep-IsBound assistants p ns h.1)
  | inr gone ↦ rw gone (keep-IsBound assistants p ns h.1)
]

create-IsBound :
    (auth : RequestAuth) (body : CreateNumber) (r : Registry)
    → IsBound r
    → IsBound (create auth body r).1
create-IsBound auth body r h = elim (Bool-cases (is_registered body.e164 r.numbers)) [
  | inl known ↦ rw known h
  | inr new ↦ rw new (
      created-IsBound auth body _ r
        (resolve_assistant_for_number-any (assistants_of auth.tenant_id r.assistants)
          body.assistant_id)
        h)
]

keep_own-IsBound :
    (o : Outside) (auth : RequestAuth) (display : Text) (assistant : Option ℕ) (r : Registry)
    → IsBound r
    → IsBound (keep_own o auth display assistant r).1
keep_own-IsBound o auth display assistant r h =
    resolved-IsBound o auth display _ r
      (resolve_assistant_for_number-any (assistants_of auth.tenant_id r.assistants) assistant) h

purchase-IsBound :
    (o : Outside) (auth : RequestAuth) (e164 : Text) (assistant : Option ℕ) (r : Registry)
    → IsBound r
    → IsBound (purchase o auth e164 assistant r).1
purchase-IsBound o auth e164 assistant r h = elim (Bool-cases (is_registered e164 r.numbers)) [
  | inl known ↦ rw known h
  | inr new ↦ rw new (
      purchased-IsBound o auth e164 _ r
        (resolve_assistant_for_number-any (assistants_of auth.tenant_id r.assistants) assistant) h)
]

reassign-IsBound :
    (auth : RequestAuth) (id assistant : ℕ) (r : Registry)
    → IsBound r
    → IsBound (reassign auth id assistant r).1
reassign-IsBound auth id assistant r h =
    elim (Bool-cases (any (is_own auth.tenant_id id) r.numbers)) [
      | inr unknown ↦ rw unknown h
      | inl known ↦
          elim (Bool-cases
            (any (λ a. a == assistant) (assistants_of auth.tenant_id r.assistants))) [
              | inl own ↦
                  rw (known, own)
                    (reassigned-IsBound auth.tenant_id id assistant r.assistants r.numbers own h)
              | inr foreign ↦ rw (known, foreign) h
            ]
    ]

delete-IsBound :
    (auth : RequestAuth) (id : ℕ) (r : Registry) → IsBound r → IsBound (delete auth id r).1
delete-IsBound auth id r h = elim (Bool-cases (any (is_own auth.tenant_id id) r.numbers)) [
  | inl known ↦ rw known (keep-IsBound r.assistants _ r.numbers h)
  | inr unknown ↦ rw unknown h
]

-- Whatever request is served, every phone number stays bound to an assistant of its own tenant.
pub IsServed-IsBound : {r s : Registry} → IsServed r s → IsBound r → IsBound s
unfolding create_number keep_number purchase_number reassign_number delete_number
IsServed-IsBound (creates auth body {r}) h =
    guarded-IsBound auth (create auth body) r h (create-IsBound auth body r h)
IsServed-IsBound (keeps o auth display assistant {r}) h =
    guarded-IsBound auth (keep_own o auth display assistant) r h
      (keep_own-IsBound o auth display assistant r h)
IsServed-IsBound (purchases o auth e164 assistant {r}) h =
    guarded-IsBound auth (purchase o auth e164 assistant) r h
      (purchase-IsBound o auth e164 assistant r h)
IsServed-IsBound (reassigns auth id assistant {r}) h =
    guarded-IsBound auth (reassign auth id assistant) r h (reassign-IsBound auth id assistant r h)
IsServed-IsBound (deletes auth id {r}) h =
    guarded-IsBound auth (delete auth id) r h (delete-IsBound auth id r h)
