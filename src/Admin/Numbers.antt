-- ===== src/Admin/Numbers.antt =====
-- The pool of routing numbers in apps/api/src/routes/admin.ts: numbers are added and removed. The
-- providers of telephony are a parameter, and what other requests do between two queries of a removal too.
use ai_phone_plattform.Prelude.{
  ℕ, suc, ◌≡◌, refl, arith, Bool, true, false, not, ◌&&◌, Option, none, some, List, [], ◌∷◌, ◌++◌,
  Text, codes, text_eq, find, any, keep, map, ◌==◌, if◌then◌else◌, Bool-cases, inl, inr,
}
use ai_phone_plattform.Types.{TelephonyProvider, twilio, telnyx, sip}
use ai_phone_plattform.Routing.Pool.{
  RoutingNumber, available, is_available, claimed_row, is_claimable, claim,
}
use ai_phone_plattform.Access.{
  RequestAuth, bad_request, not_found, conflicting, server_error, Reply, sent, failed_with,
  require_capability, guarded,
}

pub record PoolEntry : Type 0 where
  pub number : RoutingNumber
  pub e164_hash : Text
  pub provider : TelephonyProvider
  pub webhook_configured : Bool

pub record NumberPool : Type 0 where
  pub entries : List PoolEntry
  pub next_id : ℕ
  -- the numbers that were bought
  pub bought : List Text

-- A port of apps/api/src/services/telephony: a call that throws is false.
pub record TelephonyPort : Type 0 where
  pub can_provision : Bool
  pub is_configured : Bool
  pub buys : Text → Bool
  pub sets_webhook : Text → Bool

pub record AddRoutingNumber : Type 0 where
  pub e164 : Text
  pub provider : TelephonyProvider
  pub country : Text
  pub purchase : Bool

abbrev is_twilio : TelephonyProvider → Bool
is_twilio twilio = true
is_twilio telnyx = false
is_twilio sip = false

abbrev pub has_hash : Text → PoolEntry → Bool
has_hash hash e = text_eq e.e164_hash hash

abbrev new_entry : AddRoutingNumber → Text → Bool → ℕ → PoolEntry
new_entry body hash webhook id = record {
  number = record {
    id = id;
    country = body.country;
    status = available;
    assigned_tenant = none;
    assigned_phone_number = none;
  };
  e164_hash = hash;
  provider = body.provider;
  webhook_configured = webhook;
}

abbrev stored : AddRoutingNumber → Text → Bool → NumberPool → Reply (ℕ × Bool) × NumberPool
stored body hash webhook p = (
  sent (p.next_id, webhook),
  record p {
    entries = p.entries ++ new_entry body hash webhook p.next_id ∷ [];
    next_id = suc p.next_id;
  },
)

module _ (blind_hash : Text → Text) (get_telephony : TelephonyProvider → TelephonyPort) where
  abbrev purchased : AddRoutingNumber → NumberPool → Reply (ℕ × Bool) × NumberPool
  purchased body p =
      if not (get_telephony body.provider).can_provision
      then (failed_with bad_request, p)
      else if (get_telephony body.provider).buys body.e164
      then stored body (blind_hash body.e164) true (record p { bought = body.e164 ∷ p.bought })
      else (failed_with server_error, p)

  abbrev is_wired : AddRoutingNumber → Bool
  is_wired body =
      (get_telephony body.provider).sets_webhook body.e164
      && ((get_telephony body.provider).is_configured && is_twilio body.provider)

  abbrev pub added : AddRoutingNumber → NumberPool → Reply (ℕ × Bool) × NumberPool
  added body p =
      if any (has_hash (blind_hash body.e164)) p.entries
      then (failed_with conflicting, p)
      else if body.purchase
      then purchased body p
      else stored body (blind_hash body.e164) (is_wired body) p

  -- `POST /admin/routing-numbers`
  unfoldable pub add_routing_number :
      Option RequestAuth → AddRoutingNumber → NumberPool → Reply (ℕ × Bool) × NumberPool
  add_routing_number auth body p =
      guarded (λ a. added body) (require_capability (codes "platform:providers:write") auth) p

abbrev pub is_entry : ℕ → PoolEntry → Bool
is_entry id e = e.number.id == id

abbrev without : ℕ → NumberPool → NumberPool
without id p = record p { entries = keep (λ e. not (is_entry id e)) p.entries }

abbrev removable :
    (NumberPool → NumberPool) → ℕ → Option PoolEntry → NumberPool → Reply (Unit {0}) × NumberPool
removable others id none p = (failed_with not_found, p)
removable others id (some e) p =
    if is_available e.number.status
    then (sent tt, without id (others p))
    else (failed_with bad_request, p)

abbrev pub removed : (NumberPool → NumberPool) → ℕ → NumberPool → Reply (Unit {0}) × NumberPool
removed others id p = removable others id (find (is_entry id) p.entries) p

-- `DELETE /admin/routing-numbers/:id`: the status is read, and then the row is deleted by its id
unfoldable pub remove_routing_number :
    (NumberPool → NumberPool) → Option RequestAuth → ℕ → NumberPool → Reply (Unit {0}) × NumberPool
remove_routing_number others auth id p =
    guarded (λ a. removed others id) (require_capability (codes "platform:providers:write") auth) p

-- What becomes of the pool, by the reply.
abbrev pub IsAdded :
    (Text → Text) → AddRoutingNumber → NumberPool → Reply (ℕ × Bool) × NumberPool → Type 0
IsAdded blind_hash body p (failed_with e, q) = q ≡ p
IsAdded blind_hash body p (sent (id, webhook), q) =
    (q.entries ≡ p.entries ++ new_entry body (blind_hash body.e164) webhook id ∷ [])
    × (any (has_hash (blind_hash body.e164)) p.entries ≡ false)
    × (q.bought ≡ (if body.purchase then body.e164 ∷ p.bought else p.bought))

module _ (blind_hash : Text → Text) (get_telephony : TelephonyProvider → TelephonyPort) where
  added-IsAdded :
      (body : AddRoutingNumber) (p : NumberPool)
      → IsAdded blind_hash body p (added blind_hash get_telephony body p)
  added-IsAdded body p = elim (Bool-cases (any (has_hash (blind_hash body.e164)) p.entries)) [
    | inl taken ↦ rw taken refl
    | inr free ↦ elim (Bool-cases body.purchase) [
      | inl buy ↦ elim (Bool-cases (get_telephony body.provider).can_provision) [
        | inl can ↦ elim (Bool-cases ((get_telephony body.provider).buys body.e164)) [
          | inl bought ↦ rw (free, buy, can, bought) (refl, free, refl)
          | inr failed ↦ rw (free, buy, can, failed) refl
        ]
        | inr cannot ↦ rw (free, buy, cannot) refl
      ]
      | inr own ↦ rw (free, own) (refl, free, refl)
    ]
  ]

  -- A number that is added was not in the pool by its hash, was bought if it was to be, and is
  -- available; if the reply is an error, the pool is as it was.
  pub add_routing_number-IsAdded :
      (auth : Option RequestAuth) (body : AddRoutingNumber) (p : NumberPool)
      → IsAdded blind_hash body p (add_routing_number blind_hash get_telephony auth body p)
  unfolding add_routing_number
  add_routing_number-IsAdded auth body p =
      guarded_add (require_capability (codes "platform:providers:write") auth)
    where
      guarded_add :
          (r : Reply RequestAuth)
          → IsAdded blind_hash body p (guarded (λ a. added blind_hash get_telephony body) r p)
      guarded_add (failed_with e) = refl
      guarded_add (sent a) = added-IsAdded body p

-- the guarded update by which a request claims a number of the pool
abbrev pub claimed_entry : ℕ → PoolEntry → PoolEntry
claimed_entry id e = record e { number = claimed_row id e.number }

abbrev pub claims_number : ℕ → NumberPool → NumberPool
claims_number id p = record p { entries = map (claimed_entry id) p.entries }

any-without :
    (id : ℕ) (es : List PoolEntry) → any (is_entry id) (keep (λ e. not (is_entry id e)) es) ≡ false
any-without id [] = refl
any-without id (e ∷ es) = ground (arith, any-without id es)

claim-found :
    (id : ℕ) (es : List PoolEntry) {e : PoolEntry}
    → find (is_entry id) es ≡ some e
    → is_available e.number.status ≡ true
    → any (is_claimable id) (map (λ e. e.number) es) ≡ true
claim-found id [] f a = absurd (ground (arith, f))
claim-found id (d ∷ es) {e} f a = elim (Bool-cases (is_entry id d)) [
  | inl here ↦ let same : d ≡ e = ground (arith, rw here at f) in rw (here, same, a) refl
  | inr there ↦ rw there (claim-found id es (rw there at f) a)
]

-- If another request claims an available number between the two queries of its removal, the claim
-- succeeds, and the number that it holds is removed from the pool all the same.
pub remove_routing_number-claimed :
    (a : RequestAuth) (id : ℕ) (p : NumberPool) {e : PoolEntry}
    → require_capability (codes "platform:providers:write") (some a) ≡ sent a
    → find (is_entry id) p.entries ≡ some e
    → is_available e.number.status ≡ true
    → ((claim id (map (λ e. e.number) p.entries)).0 ≡ true)
      × ((remove_routing_number (claims_number id) (some a) id p).0 ≡ sent tt)
      × (any (is_entry id) (remove_routing_number (claims_number id) (some a) id p).1.entries
          ≡ false)
unfolding remove_routing_number claim
remove_routing_number-claimed a id p allowed found free = (
  claim-found id p.entries found free,
  rw (allowed, found, free) refl,
  rw (allowed, found, free) (any-without id (map (claimed_entry id) p.entries)),
)
