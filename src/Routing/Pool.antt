-- ===== src/Routing/Pool.antt =====
-- apps/api/src/services/routing-pool.service.ts: the numbers of the platform that tenants share. A
-- query is atomic; between two queries of a request, other requests run.
use ai_phone_plattform.Prelude.{
  ℕ, zero, suc, Bool, true, false, ◌&&◌, Option, none, some, List, [], ◌∷◌, Text, any, take, map,
  ◌==◌, if◌then◌else◌,
}
use ai_phone_plattform.Routing.{PoolCandidate, choose_routing_number}

pub data NumberStatus : Type 0 where
  available assigned : NumberStatus

pub record RoutingNumber : Type 0 where
  pub id : ℕ
  pub country : Text
  pub status : NumberStatus
  pub assigned_tenant : Option ℕ
  pub assigned_phone_number : Option ℕ

abbrev pub is_available : NumberStatus → Bool
is_available available = true
is_available assigned = false

-- `where: { id, status: 'available' }`
abbrev pub is_claimable : ℕ → RoutingNumber → Bool
is_claimable id r = r.id == id && is_available r.status

abbrev pub claimed_row : ℕ → RoutingNumber → RoutingNumber
claimed_row id r = if is_claimable id r then record r { status = assigned } else r

-- the guarded `updateMany` of a claim, and whether it counts a row
unfoldable pub claim : ℕ → List RoutingNumber → Bool × List RoutingNumber
claim id rows = (any (is_claimable id) rows, map (claimed_row id) rows)

abbrev pub linked_row : ℕ → ℕ → ℕ → RoutingNumber → RoutingNumber
linked_row id tenant phone r =
    if r.id == id
    then record r { assigned_tenant = some tenant; assigned_phone_number = some phone }
    else r

unfoldable pub link_routing_number : ℕ → ℕ → ℕ → List RoutingNumber → List RoutingNumber
link_routing_number id tenant phone = map (linked_row id tenant phone)

abbrev freed : RoutingNumber → RoutingNumber
freed r = record r { status = available; assigned_tenant = none }

abbrev is_unlinked : Option ℕ → Bool
is_unlinked none = true
is_unlinked (some p) = false

abbrev pub released_row : ℕ → RoutingNumber → RoutingNumber
released_row id r = if r.id == id && is_unlinked r.assigned_phone_number then freed r else r

unfoldable pub release_claim : ℕ → List RoutingNumber → List RoutingNumber
release_claim id = map (released_row id)

abbrev is_linked_to : ℕ → Option ℕ → Bool
is_linked_to phone none = false
is_linked_to phone (some p) = p == phone

abbrev pub returned_row : ℕ → RoutingNumber → RoutingNumber
returned_row phone r =
    if is_linked_to phone r.assigned_phone_number
    then record (freed r) { assigned_phone_number = none }
    else r

unfoldable pub release_by_phone_number : ℕ → List RoutingNumber → List RoutingNumber
release_by_phone_number phone = map (returned_row phone)

-- the candidates of an attempt: `where: { status: 'available' }`, `take: 20`, the oldest first
abbrev pub candidates : List RoutingNumber → List PoolCandidate
candidates [] = []
candidates (r ∷ rows) =
    let rest = candidates rows in
    if is_available r.status then record { id = r.id; country = r.country } ∷ rest else rest

abbrev pub tried :
    ℕ
    → (List RoutingNumber → Option ℕ × List RoutingNumber)
    → Bool × List RoutingNumber
    → Option ℕ × List RoutingNumber
tried id again (true, rows) = (some id, rows)
tried id again (false, rows) = again rows

abbrev pub attempt :
    (List RoutingNumber → List RoutingNumber)
    → (List RoutingNumber → Option ℕ × List RoutingNumber)
    → Option PoolCandidate
    → List RoutingNumber
    → Option ℕ × List RoutingNumber
attempt others again none rows = (none, rows)
attempt others again (some pick) rows = tried pick.id again (claim pick.id (others rows))

-- `claimFromPool`, with the attempts that are left, and what the other requests do to the rows
-- between the two queries of each attempt
unfoldable pub claim_from_pool :
    ℕ
    → (ℕ → List RoutingNumber → List RoutingNumber)
    → Option Text
    → List RoutingNumber
    → Option ℕ × List RoutingNumber
claim_from_pool zero others country rows = (none, rows)
claim_from_pool (suc n) others country rows =
    attempt (others n) (claim_from_pool n others country)
      (choose_routing_number (take 20 (candidates rows)) country) rows
