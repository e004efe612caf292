-- ===== src/Routing/Claims.antt =====
-- The requests that share the pool of apps/api/src/services/routing-pool.service.ts, interleaved: each
-- step is one query, and a request remembers the number that it claimed until it links or releases it.
use ai_phone_plattform.Prelude.{
  ℕ, ◌≡◌, ◌≢◌, refl, sym, subst, arith, Bool, true, false, not, none, List, [], ◌∷◌, any, keep, map,
  ◌==◌, ==_iff, All, All-map, Bool-cases, inl, inr,
}
use ai_phone_plattform.Routing.Pool.{
  RoutingNumber, available, assigned, is_claimable, claimed_row, claim, linked_row,
  link_routing_number, released_row, release_claim, returned_row, release_by_phone_number,
}

pub record Pool : Type 0 where
  pub rows : List RoutingNumber
  -- the numbers that are claimed, and neither linked nor released
  pub holders : List ℕ

abbrev pub without : ℕ → List ℕ → List ℕ
without id = keep (λ k. not (k == id))

abbrev pub IsMember : ℕ → List ℕ → Type 0
IsMember id ids = any (λ k. k == id) ids ≡ true

pub data Step : Pool → Pool → Type 0 where
  -- the guarded update of `claimFromPool` counts a row, whatever the request has read before
  claims :
      (id : ℕ) {p : Pool}
      → (claim id p.rows).0 ≡ true
      → Step p (record { rows = (claim id p.rows).1; holders = id ∷ p.holders })
  misses :
      (id : ℕ) {p : Pool}
      → (claim id p.rows).0 ≡ false
      → Step p (record p { rows = (claim id p.rows).1 })
  links :
      (id tenant phone : ℕ) {p : Pool}
      → IsMember id p.holders
      → Step p (record {
        rows = link_routing_number id tenant phone p.rows;
        holders = without id p.holders;
      })
  releases :
      (id : ℕ) {p : Pool}
      → IsMember id p.holders
      → Step p (record { rows = release_claim id p.rows; holders = without id p.holders })
  returns :
      (phone : ℕ) {p : Pool} → Step p (record p { rows = release_by_phone_number phone p.rows })

abbrev pub Distinct : List ℕ → Type 0
Distinct [] = Unit
Distinct (x ∷ xs) = All (λ y. y ≢ x) xs × Distinct xs

abbrev pub ids : List RoutingNumber → List ℕ
ids [] = []
ids (r ∷ rows) = r.id ∷ ids rows

abbrev pub IsHeld : ℕ → RoutingNumber → Type 0
IsHeld id r = r.id ≡ id → (r.status ≡ assigned) × (r.assigned_phone_number ≡ none)

abbrev pub IsFreeSound : RoutingNumber → Type 0
IsFreeSound r = r.status ≡ available → r.assigned_phone_number ≡ none

-- No two requests hold the same number, a held number is assigned and not linked, and an available one is not linked.
pub record IsSound (p : Pool) : Type 0 where
  pub keys : Distinct (ids p.rows)
  pub free : All IsFreeSound p.rows
  pub held : All (λ id. All (IsHeld id) p.rows) p.holders
  pub single : Distinct p.holders

All-rows :
    (P Q : RoutingNumber → Type 0) (f : RoutingNumber → RoutingNumber) (rows : List RoutingNumber)
    → ((r : RoutingNumber) → P r → Q (f r))
    → All P rows
    → All Q (map f rows)
All-rows P Q f [] k h = tt
All-rows P Q f (r ∷ rows) k h = (k r h.0, All-rows P Q f rows k h.1)

ids-map :
    (f : RoutingNumber → RoutingNumber) (rows : List RoutingNumber)
    → ((r : RoutingNumber) → (f r).id ≡ r.id)
    → ids (map f rows) ≡ ids rows
ids-map f [] h = refl
ids-map f (r ∷ rows) h = rw (h r, ids-map f rows h)

All-keep : (P : ℕ → Type 0) (p : ℕ → Bool) (xs : List ℕ) → All P xs → All P (keep p xs)
All-keep P p [] h = tt
All-keep P p (x ∷ xs) h = elim (Bool-cases (p x)) [
  | inl kept ↦ rw kept (h.0, All-keep P p xs h.1)
  | inr gone ↦ rw gone (All-keep P p xs h.1)
]

Distinct-keep : (p : ℕ → Bool) (xs : List ℕ) → Distinct xs → Distinct (keep p xs)
Distinct-keep p [] h = tt
Distinct-keep p (x ∷ xs) h = elim (Bool-cases (p x)) [
  | inl kept ↦ rw kept (All-keep (λ y. y ≢ x) p xs h.0, Distinct-keep p xs h.1)
  | inr gone ↦ rw gone (Distinct-keep p xs h.1)
]

without-other : (id : ℕ) (xs : List ℕ) → All (λ k. k ≢ id) (without id xs)
without-other id [] = tt
without-other id (x ∷ xs) = elim (Bool-cases (x == id)) [
  | inl same ↦ rw same (without-other id xs)
  | inr other ↦ rw other (ground arith, without-other id xs)
]

-- a held number cannot be claimed
held-unclaimed :
    (k id : ℕ) (rows : List RoutingNumber)
    → All (IsHeld k) rows
    → any (is_claimable id) rows ≡ true
    → k ≢ id
held-unclaimed k id [] h c = ground arith
held-unclaimed k id (r ∷ rows) h c = elim (Bool-cases (is_claimable id r)) [
  | inl here ↦ λ same. let key : r.id ≡ k = ground arith in absurd (ground (arith, (h.0 key).0))
  | inr other ↦ held-unclaimed k id rows h.1 (rw other at c)
]

absent-unclaimed :
    (id : ℕ) (rows : List RoutingNumber)
    → All (λ y. y ≢ id) (ids rows)
    → any (is_claimable id) rows ≡ false
absent-unclaimed id [] h = refl
absent-unclaimed id (r ∷ rows) h = ground (arith, absent-unclaimed id rows h.1)

absent-IsHeld :
    (id : ℕ) (rows : List RoutingNumber)
    → All (λ y. y ≢ id) (ids rows)
    → All (IsHeld id) (map (claimed_row id) rows)
absent-IsHeld id [] h = tt
absent-IsHeld id (r ∷ rows) h = (λ e. absurd (ground arith), absent-IsHeld id rows h.1)

claimed-IsHeld :
    (id : ℕ) (rows : List RoutingNumber)
    → Distinct (ids rows)
    → All IsFreeSound rows
    → any (is_claimable id) rows ≡ true
    → All (IsHeld id) (map (claimed_row id) rows)
claimed-IsHeld id [] d f c = tt
claimed-IsHeld id (r ∷ rows) d f c = elim (Bool-cases (is_claimable id r)) [
  | inl here ↦
      let key : r.id ≡ id = ground arith in
      let none' : r.assigned_phone_number ≡ none = f.0 (ground arith) in
      rw here (
        λ e. (refl, none'),
        absent-IsHeld id rows (subst (λ k. All (λ y. y ≢ k) (ids rows)) key d.0),
      )
  | inr other ↦ rw other (
    λ e. absurd (
        ground (
          arith,
          absent-unclaimed id rows (subst (λ k. All (λ y. y ≢ k) (ids rows)) e d.0),
          rw other at c,
        )),
    claimed-IsHeld id rows d.1 f.1 (rw other at c),
  )
]

claimed-keeps : (k id : ℕ) (r : RoutingNumber) → IsHeld k r → IsHeld k (claimed_row id r)
claimed-keeps k id r h e = ground arith

claimed-free : (id : ℕ) (r : RoutingNumber) → IsFreeSound r → IsFreeSound (claimed_row id r)
claimed-free id r h e = ground arith

linked-keeps :
    (k id t p : ℕ) (r : RoutingNumber) → k ≢ id → IsHeld k r → IsHeld k (linked_row id t p r)
linked-keeps k id t p r n h e = elim (Bool-cases (r.id == id)) [
  | inl same ↦ absurd (ground (arith, n))
  | inr other ↦ ground arith
]

released-keeps : (k id : ℕ) (r : RoutingNumber) → k ≢ id → IsHeld k r → IsHeld k (released_row id r)
released-keeps k id r n h e = elim (Bool-cases (r.id == id)) [
  | inl same ↦ absurd (ground (arith, n))
  | inr other ↦ ground arith
]

released-free : (id : ℕ) (r : RoutingNumber) → IsFreeSound r → IsFreeSound (released_row id r)
released-free id r h e = ground arith

returned-keeps : (k p : ℕ) (r : RoutingNumber) → IsHeld k r → IsHeld k (returned_row p r)
returned-keeps k p r h e = ground arith

returned-free : (p : ℕ) (r : RoutingNumber) → IsFreeSound r → IsFreeSound (returned_row p r)
returned-free p r h e = ground arith

linked-free :
    (id t p : ℕ) (r : RoutingNumber)
    → IsHeld id r
    → IsFreeSound r
    → IsFreeSound (linked_row id t p r)
linked-free id t p r h f e = elim (Bool-cases (r.id == id)) [
  | inl same ↦ let held = h ((==_iff _ _).0 same) in absurd (ground (arith, held.0))
  | inr other ↦ ground arith
]

All-both :
    (P Q R : RoutingNumber → Type 0) (f : RoutingNumber → RoutingNumber) (rows : List RoutingNumber)
    → ((r : RoutingNumber) → P r → Q r → R (f r))
    → All P rows
    → All Q rows
    → All R (map f rows)
All-both P Q R f [] k h l = tt
All-both P Q R f (r ∷ rows) k h l = (k r h.0 l.0, All-both P Q R f rows k h.1 l.1)

All-member : (P : ℕ → Type 0) (id : ℕ) (xs : List ℕ) → All P xs → IsMember id xs → P id
All-member P id [] h m = absurd (ground arith)
All-member P id (x ∷ xs) h m = elim (Bool-cases (x == id)) [
  | inl same ↦ subst P ((==_iff x id).0 same) h.0
  | inr other ↦ All-member P id xs h.1 (rw other at m)
]

-- the held numbers other than `id`, after an update that keeps what they are
others-IsHeld :
    (id : ℕ) (f : RoutingNumber → RoutingNumber) (rows : List RoutingNumber) (holders : List ℕ)
    → ((k : ℕ) (r : RoutingNumber) → k ≢ id → IsHeld k r → IsHeld k (f r))
    → All (λ k. k ≢ id) holders
    → All (λ k. All (IsHeld k) rows) holders
    → All (λ k. All (IsHeld k) (map f rows)) holders
others-IsHeld id f rows [] keep' n h = tt
others-IsHeld id f rows (k ∷ holders) keep' n h = (
  All-rows (IsHeld k) (IsHeld k) f rows (λ r. keep' k r n.0) h.0,
  others-IsHeld id f rows holders keep' n.1 h.1,
)

abbrev HeldIn : List RoutingNumber → ℕ → Type 0
HeldIn rows k = All (IsHeld k) rows

-- Every step of every request keeps the pool sound: no number is claimed by two requests at once, and
-- a claimed number is not one that a tenant uses.
pub Step-IsSound : {p q : Pool} → Step p q → IsSound p → IsSound q
unfolding claim link_routing_number release_claim release_by_phone_number
Step-IsSound (claims id {p} c) s =
    let fresh =
      All-map (HeldIn p.rows) (λ k. k ≢ id) p.holders (λ k h. held-unclaimed k id p.rows h c)
        s.held in
    record {
      keys = subst Distinct (sym (ids-map (claimed_row id) p.rows (λ r. ground arith))) s.keys;
      free = All-rows _ _ (claimed_row id) p.rows (claimed-free id) s.free;
      held = (
        claimed-IsHeld id p.rows s.keys s.free c,
        others-IsHeld id (claimed_row id) p.rows p.holders (λ k r n. claimed-keeps k id r) fresh
            s.held,
      );
      single = (fresh, s.single);
    }
Step-IsSound (misses id {p} c) s = record {
  keys = subst Distinct (sym (ids-map (claimed_row id) p.rows (λ r. ground arith))) s.keys;
  free = All-rows _ _ (claimed_row id) p.rows (claimed-free id) s.free;
  held =
      All-map _ _ p.holders
        (λ k h. All-rows (IsHeld k) (IsHeld k) (claimed_row id) p.rows (claimed-keeps k id) h)
        s.held;
  single = s.single;
}
Step-IsSound (links id t ph {p} m) s = record {
  keys = subst Distinct (sym (ids-map (linked_row id t ph) p.rows (λ r. ground arith))) s.keys;
  free =
      All-both (IsHeld id) IsFreeSound _ (linked_row id t ph) p.rows (linked-free id t ph)
        (All-member (HeldIn p.rows) id p.holders s.held m) s.free;
  held =
      others-IsHeld id (linked_row id t ph) p.rows (without id p.holders)
        (λ k r n. linked-keeps k id t ph r n) (without-other id p.holders)
        (All-keep (HeldIn p.rows) _ p.holders s.held);
  single = Distinct-keep _ p.holders s.single;
}
Step-IsSound (releases id {p} m) s = record {
  keys = subst Distinct (sym (ids-map (released_row id) p.rows (λ r. ground arith))) s.keys;
  free = All-rows _ _ (released_row id) p.rows (released-free id) s.free;
  held =
      others-IsHeld id (released_row id) p.rows (without id p.holders)
        (λ k r n. released-keeps k id r n) (without-other id p.holders)
        (All-keep (HeldIn p.rows) _ p.holders s.held);
  single = Distinct-keep _ p.holders s.single;
}
Step-IsSound (returns ph {p}) s = record {
  keys = subst Distinct (sym (ids-map (returned_row ph) p.rows (λ r. ground arith))) s.keys;
  free = All-rows _ _ (returned_row ph) p.rows (returned-free ph) s.free;
  held =
      All-map _ _ p.holders
        (λ k h. All-rows (IsHeld k) (IsHeld k) (returned_row ph) p.rows (returned-keeps k ph) h)
        s.held;
  single = s.single;
}
