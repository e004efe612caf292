-- ===== src/Routing/Attempts.antt =====
-- What `claimFromPool` of apps/api/src/services/routing-pool.service.ts returns.
use ai_phone_plattform.Prelude.{
  ℕ, zero, suc, ◌≡◌, refl, arith, Bool, true, false, Option, none, some, List, Text, take, ap, sym,
}
use ai_phone_plattform.Routing.{PoolCandidate, choose_routing_number}
use ai_phone_plattform.Routing.Pool.{
  RoutingNumber, claim, claim_from_pool, candidates, tried, attempt,
}

-- A claim that counted a row, on the rows as other requests left them.
pub record IsClaim (id : ℕ) (rows : List RoutingNumber) : Type 0 where
  pub before : List RoutingNumber
  pub counted : (claim id before).0 ≡ true
  pub after : (claim id before).1 ≡ rows

abbrev Claims : Option ℕ × List RoutingNumber → Type 0
Claims r = (id : ℕ) → r.0 ≡ some id → IsClaim id r.1

tried-Claims :
    (pick : ℕ) (again : List RoutingNumber → Option ℕ × List RoutingNumber)
    (before : List RoutingNumber) (c : Bool × List RoutingNumber)
    → claim pick before ≡ c
    → ((rows : List RoutingNumber) → Claims (again rows))
    → Claims (tried pick again c)
tried-Claims pick again before (true, rows) e h id f =
    let same : pick ≡ id = ground arith in
    record {
      before = before;
      counted = rw (sym same) (ap (λ c. c.0) e);
      after = rw (sym same) (ap (λ c. c.1) e);
    }
tried-Claims pick again before (false, rows) e h id f = h rows id f

attempt-Claims :
    (others : List RoutingNumber → List RoutingNumber)
    (again : List RoutingNumber → Option ℕ × List RoutingNumber) (pick : Option PoolCandidate)
    (rows : List RoutingNumber)
    → ((rows' : List RoutingNumber) → Claims (again rows'))
    → Claims (attempt others again pick rows)
attempt-Claims others again none rows h id f = absurd (ground arith)
attempt-Claims others again (some pick) rows h id f =
    tried-Claims pick.id again (others rows) (claim pick.id (others rows)) refl h id f

-- A number that the pool gives out was claimed: the guarded update counted its row, and nothing was
-- written after it.
pub claim_from_pool-IsClaim :
    (n : ℕ) (others : ℕ → List RoutingNumber → List RoutingNumber) (country : Option Text)
    (rows : List RoutingNumber) (id : ℕ)
    → (claim_from_pool n others country rows).0 ≡ some id
    → IsClaim id (claim_from_pool n others country rows).1
unfolding claim_from_pool
claim_from_pool-IsClaim zero others country rows id e = absurd (ground arith)
claim_from_pool-IsClaim (suc n) others country rows id e =
    attempt-Claims (others n) (claim_from_pool n others country)
      (choose_routing_number (take 20 (candidates rows)) country) rows
      (λ rows' id' f. claim_from_pool-IsClaim n others country rows' id' f) id e
