-- ===== src/Admin/Charts.antt =====
-- The figures of apps/api/src/services/platform.service.ts that are computed from rows: the monthly
-- revenue, and the series of the charts. `localeCompare` of two days is a parameter.
-- Amounts are whole numbers of the smallest unit that the database stores; the rounding of their sums is
-- not modelled.
use ai_phone_plattform.Prelude.{
  ℕ, ◌+◌, ◌*◌, ◌≡◌, refl, arith, Bool, false, List, [], ◌∷◌, Text, text_eq, text_eq_iff,
  if◌then◌else◌, Bool-cases, inl, inr, All,
}
use ai_phone_plattform.Admin.Tenants.{Plan, starter, business, enterprise, TenantRow}

-- `PLAN_PRICING`
abbrev pub plan_pricing : Plan → ℕ
plan_pricing starter = 49
plan_pricing business = 149
plan_pricing enterprise = 499

-- `mrr` of the tenants that are not paused, and `arr`
unfoldable pub mrr : {N : Type 0} → List (TenantRow N) → ℕ
mrr [] = 0
mrr (t ∷ ts) = (if t.paused then 0 else plan_pricing t.plan) + mrr ts

unfoldable pub arr : {N : Type 0} → List (TenantRow N) → ℕ
arr ts = mrr ts * 12

abbrev pub Series : Type 0
Series = List (Text × ℕ)

-- `m.set(k, (m.get(k) ?? 0) + v)` of a `Map`, which keeps the order of insertion
unfoldable pub add_to : Text → ℕ → Series → Series
add_to k v [] = (k, v) ∷ []
add_to k v ((j, w) ∷ m) =
    let rest = add_to k v m in if text_eq j k then (j, w + v) ∷ m else (j, w) ∷ rest

-- the loop of `bucketSum`, and `bucket`, which counts
unfoldable pub bucket_sum_onto : Series → List (Text × ℕ) → Series
bucket_sum_onto m [] = m
bucket_sum_onto m ((k, v) ∷ pairs) = bucket_sum_onto (add_to k v m) pairs

unfoldable pub bucket_sum : List (Text × ℕ) → Series
bucket_sum pairs = bucket_sum_onto [] pairs

abbrev counted : List Text → List (Text × ℕ)
counted [] = []
counted (k ∷ keys) = (k, 1) ∷ counted keys

unfoldable pub bucket : List Text → Series
bucket keys = bucket_sum (counted keys)

module _ (le : Text → Text → Bool) where
  unfoldable pub insert_day : Text × ℕ → Series → Series
  insert_day e [] = e ∷ []
  insert_day (k, v) ((j, w) ∷ m) =
      let rest = insert_day (k, v) m in if le k j then (k, v) ∷ (j, w) ∷ m else (j, w) ∷ rest

  -- `seriesFrom`
  unfoldable pub series_from : Series → Series
  series_from [] = []
  series_from (e ∷ m) = insert_day e (series_from m)

abbrev pub total : Series → ℕ
total [] = 0
total ((k, v) ∷ m) = v + total m

-- What a day adds up to in a list of pairs.
abbrev pub sum_of : Text → List (Text × ℕ) → ℕ
sum_of day [] = 0
sum_of day ((k, v) ∷ pairs) = (if text_eq k day then v else 0) + sum_of day pairs

abbrev IsMissing : Text → Series → Type 0
IsMissing day m = All (λ e. text_eq e.0 day ≡ false) m

-- No day stands twice in a series.
abbrev pub IsDistinct : Series → Type 0
IsDistinct [] = Unit
IsDistinct ((k, v) ∷ m) = IsMissing k m × IsDistinct m

sum_of-add_to :
    (day k : Text) (v : ℕ) (m : Series)
    → sum_of day (add_to k v m) ≡ (if text_eq k day then v else 0) + sum_of day m
unfolding add_to
sum_of-add_to day k v [] = refl
sum_of-add_to day k v ((j, w) ∷ m) = elim (Bool-cases (text_eq j k)) [
  | inl same ↦ rw (same, (text_eq_iff j k).0 same) (ground arith)
  | inr other ↦ rw other (omega (arith, sum_of-add_to day k v m))
]

IsMissing-add_to :
    (day k : Text) (v : ℕ) (m : Series)
    → text_eq k day ≡ false
    → IsMissing day m
    → IsMissing day (add_to k v m)
unfolding add_to
IsMissing-add_to day k v [] h i = (h, tt)
IsMissing-add_to day k v ((j, w) ∷ m) h i = elim (Bool-cases (text_eq j k)) [
  | inl same ↦ rw same i
  | inr other ↦ rw other (i.0, IsMissing-add_to day k v m h i.1)
]

text_eq_sym : (s t : Text) → text_eq s t ≡ false → text_eq t s ≡ false
text_eq_sym s t h = ground (arith, text_eq_iff s t, text_eq_iff t s)

add_to-IsDistinct : (k : Text) (v : ℕ) (m : Series) → IsDistinct m → IsDistinct (add_to k v m)
unfolding add_to
add_to-IsDistinct k v [] d = (tt, tt)
add_to-IsDistinct k v ((j, w) ∷ m) d = elim (Bool-cases (text_eq j k)) [
  | inl same ↦ rw same d
  | inr other ↦
      rw other (IsMissing-add_to j k v m (text_eq_sym j k other) d.0, add_to-IsDistinct k v m d.1)
]

sum_of-onto :
    (day : Text) (m : Series) (pairs : List (Text × ℕ))
    → sum_of day (bucket_sum_onto m pairs) ≡ sum_of day m + sum_of day pairs
unfolding bucket_sum_onto
sum_of-onto day m [] = omega arith
sum_of-onto day m ((k, v) ∷ pairs) =
    omega (arith, sum_of-onto day (add_to k v m) pairs, sum_of-add_to day k v m)

onto-IsDistinct :
    (m : Series) (pairs : List (Text × ℕ)) → IsDistinct m → IsDistinct (bucket_sum_onto m pairs)
unfolding bucket_sum_onto
onto-IsDistinct m [] d = d
onto-IsDistinct m ((k, v) ∷ pairs) d =
    onto-IsDistinct (add_to k v m) pairs (add_to-IsDistinct k v m d)

module _ (le : Text → Text → Bool) where
  sum_of-insert_day :
      (day k : Text) (v : ℕ) (m : Series)
      → sum_of day (insert_day le (k, v) m) ≡ (if text_eq k day then v else 0) + sum_of day m
  unfolding insert_day
  sum_of-insert_day day k v [] = refl
  sum_of-insert_day day k v ((j, w) ∷ m) = elim (Bool-cases (le k j)) [
    | inl here ↦ rw here refl
    | inr later ↦ rw later (omega (arith, sum_of-insert_day day k v m))
  ]

  IsMissing-insert_day :
      (day k : Text) (v : ℕ) (m : Series)
      → text_eq k day ≡ false
      → IsMissing day m
      → IsMissing day (insert_day le (k, v) m)
  unfolding insert_day
  IsMissing-insert_day day k v [] h i = (h, tt)
  IsMissing-insert_day day k v ((j, w) ∷ m) h i = elim (Bool-cases (le k j)) [
    | inl here ↦ rw here (h, i)
    | inr later ↦ rw later (i.0, IsMissing-insert_day day k v m h i.1)
  ]

  insert_day-IsDistinct :
      (k : Text) (v : ℕ) (m : Series)
      → IsMissing k m
      → IsDistinct m
      → IsDistinct (insert_day le (k, v) m)
  unfolding insert_day
  insert_day-IsDistinct k v [] i d = (tt, tt)
  insert_day-IsDistinct k v ((j, w) ∷ m) i d = elim (Bool-cases (le k j)) [
    | inl here ↦ rw here (i, d)
    | inr later ↦ rw later (
      IsMissing-insert_day j k v m (text_eq_sym j k i.0) d.0,
      insert_day-IsDistinct k v m i.1 d.1,
    )
  ]

  sum_of-series_from : (day : Text) (m : Series) → sum_of day (series_from le m) ≡ sum_of day m
  unfolding series_from
  sum_of-series_from day [] = refl
  sum_of-series_from day ((k, v) ∷ m) =
      omega (arith, sum_of-insert_day day k v (series_from le m), sum_of-series_from day m)

  IsMissing-series_from :
      (day : Text) (m : Series) → IsMissing day m → IsMissing day (series_from le m)
  unfolding series_from
  IsMissing-series_from day [] i = tt
  IsMissing-series_from day ((k, v) ∷ m) i =
      IsMissing-insert_day day k v (series_from le m) i.0 (IsMissing-series_from day m i.1)

  series_from-IsDistinct : (m : Series) → IsDistinct m → IsDistinct (series_from le m)
  unfolding series_from
  series_from-IsDistinct [] d = tt
  series_from-IsDistinct ((k, v) ∷ m) d =
      insert_day-IsDistinct k v (series_from le m) (IsMissing-series_from k m d.0)
        (series_from-IsDistinct m d.1)

  -- A chart shows no day twice, and for each day the sum of what the rows of that day add, whatever the
  -- order that days are sorted by.
  pub series_from-bucket_sum :
      (pairs : List (Text × ℕ))
      → IsDistinct (series_from le (bucket_sum pairs))
        × ((day : Text) → sum_of day (series_from le (bucket_sum pairs)) ≡ sum_of day pairs)
  unfolding bucket_sum
  series_from-bucket_sum pairs = (
    series_from-IsDistinct (bucket_sum_onto [] pairs) (onto-IsDistinct [] pairs tt),
    λ day.
        omega (arith, sum_of-series_from day (bucket_sum_onto [] pairs), sum_of-onto day [] pairs),
  )
