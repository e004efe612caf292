-- ===== src/Routing.antt =====
-- Phone numbers: apps/api/src/lib/phone-routing.ts and lib/routing-pool.ts.
pub mod Pool
pub mod Claims
pub mod Attempts
pub mod Numbers
pub mod Bound
use ai_phone_plattform.Prelude.{
  ℕ, ◌≡◌, ◌↔◌, ◌⊎◌, inl, inr, arith, Bool, true, false, not, Option, none, some, List, [], ◌∷◌,
  String, Text, codes, text_eq, is_empty, any, find, ◌==◌, Option-cases, find-eq-some,
  if◌then◌else◌,
}

pub data ResolveResult : Type 0 where
  resolved : ℕ → ResolveResult
  refused : String → ResolveResult

-- a tenant's assistants by their ids; an id is never falsy
unfoldable pub resolve_assistant_for_number : List ℕ → Option ℕ → ResolveResult
resolve_assistant_for_number assistants (some requested) =
    if any (λ a. a == requested) assistants
    then resolved requested
    else refused "Der ausgewählte Assistent gehört nicht zu diesem Mandanten."
resolve_assistant_for_number [] none = refused "Bitte zuerst einen Assistenten erstellen."
resolve_assistant_for_number (a ∷ []) none = resolved a
resolve_assistant_for_number (a ∷ b ∷ rest) none =
    refused "Bitte einen Assistenten für diese Telefonnummer auswählen."

pub data ForwardingStatus : Type 0 where
  pending active : ForwardingStatus

unfoldable pub initial_forwarding_status : Option Text → ForwardingStatus
initial_forwarding_status none = active
initial_forwarding_status (some number) = if is_empty number then active else pending

pub data InboundReason : Type 0 where
  served not_found inactive no_assistant paused : InboundReason

pub record InboundPhone : Type 0 where
  pub active : Bool
  pub assistant : Option ℕ
  pub tenant_paused : Bool

pub record InboundDecision : Type 0 where
  pub reachable : Bool
  pub reason : InboundReason

abbrev unreachable : InboundReason → InboundDecision
unreachable reason = record { reachable = false; reason = reason }

abbrev classify_assigned : Option ℕ → Bool → InboundDecision
classify_assigned none paused' = unreachable no_assistant
classify_assigned (some a) paused' =
    if paused' then unreachable paused else record { reachable = true; reason = served }

unfoldable pub classify_inbound : Option InboundPhone → InboundDecision
classify_inbound none = unreachable not_found
classify_inbound (some phone) =
    if phone.active
    then classify_assigned phone.assistant phone.tenant_paused
    else unreachable inactive

pub record PoolCandidate : Type 0 where
  pub id : ℕ
  pub country : Text

abbrev first : List PoolCandidate → Option PoolCandidate
first [] = none
first (c ∷ rest) = some c

abbrev by_country : Text → List PoolCandidate → Option PoolCandidate
by_country country available = elim (find (λ n. text_eq n.country country) available) [
  | some n ↦ some n
  | none ↦ first available
]

unfoldable pub choose_routing_number : List PoolCandidate → Option Text → Option PoolCandidate
choose_routing_number available none = first available
choose_routing_number available (some country) =
    if is_empty country then first available else by_country country available

-- A number is bound to an assistant of the tenant only.
pub resolve_assistant_for_number-any :
    (assistants : List ℕ) (requested : Option ℕ) (a : ℕ)
    → resolve_assistant_for_number assistants requested ≡ resolved a
    → any (λ b. b == a) assistants ≡ true
unfolding resolve_assistant_for_number
resolve_assistant_for_number-any assistants requested a e = ground arith

-- An inbound call is served exactly on an active number with an assistant whose tenant is not paused.
pub classify_inbound_iff :
    (p : InboundPhone)
    → ((classify_inbound (some p)).reachable ≡ true)
      ↔ ((p.active ≡ true) × (a : ℕ) × (p.assistant ≡ some a) × (p.tenant_paused ≡ false))
unfolding classify_inbound
classify_inbound_iff p = ground arith
