-- ===== src/Calls/Pages.antt =====
-- The pages of `GET /calls` (apps/api/src/routes/calls.ts), followed by their cursors.
use ai_phone_plattform.Prelude.{
  ℕ, zero, suc, ◌≤◌, ◌<◌, ◌≡◌, refl, sym, ap, ◌∙◌, arith, Bool, true, false, Option, none, some,
  List, [], ◌∷◌, ◌++◌, keep, take, drop, length, length-drop, All-keep, append_assoc, subst, ltb,
  ◌==◌, Bool-cases, inl, inr, All,
}
use ai_phone_plattform.Types.{LeadCategory}
use ai_phone_plattform.Calls.{
  StoredCall, CallStore, listed, after_cursor, from_cursor, last_id, list_calls,
}
use ai_phone_plattform.Calls.Erasure.{IsUnique}

abbrev and_then : List StoredCall → Option ℕ → List StoredCall → List StoredCall
and_then items none rest = items
and_then items (some id) rest = items ++ rest

-- What a client gets that follows the cursors, with the requests that it has left.
module _ (tenant : ℕ) (category : Option LeadCategory) (limit : ℕ) (s : CallStore) where
  unfoldable pub follow : ℕ → Option ℕ → List StoredCall
  follow zero cursor = []
  follow (suc n) cursor =
      let page = list_calls tenant category limit cursor s in
      and_then page.items page.next_cursor (follow n page.next_cursor)

take-drop : (n : ℕ) (xs : List StoredCall) → take n xs ++ drop n xs ≡ xs
take-drop zero xs = refl
take-drop (suc n) [] = refl
take-drop (suc n) (x ∷ xs) = ap (λ l. x ∷ l) (take-drop n xs)

take-take : (n : ℕ) (xs : List StoredCall) → take n (take (suc n) xs) ≡ take n xs
take-take zero xs = refl
take-take (suc n) [] = refl
take-take (suc n) (x ∷ xs) = ap (λ l. x ∷ l) (take-take n xs)

-- One row more than the limit is read exactly if there are more rows than the limit.
more-rows : (n : ℕ) (xs : List StoredCall) → ltb n (length (take (suc n) xs)) ≡ ltb n (length xs)
more-rows zero [] = refl
more-rows zero (x ∷ xs) = ground arith
more-rows (suc n) [] = refl
more-rows (suc n) (x ∷ xs) = ground (arith, more-rows n xs)

all-taken : (n : ℕ) (xs : List StoredCall) → ltb n (length xs) ≡ false → take n xs ≡ xs
all-taken zero [] h = refl
all-taken zero (x ∷ xs) h = absurd (ground arith)
all-taken (suc n) [] h = refl
all-taken (suc n) (x ∷ xs) h = ap (λ l. x ∷ l) (all-taken n xs (ground arith))

-- A page that is followed by more has a last row, behind which the rest is.
record Split (n : ℕ) (xs : List StoredCall) : Type 0 where
  front : List StoredCall
  last : StoredCall
  taken : take n xs ≡ front ++ last ∷ []
  id : last_id (take n xs) ≡ some last.id

split : (n : ℕ) (xs : List StoredCall) → 1 ≤ n → ltb n (length xs) ≡ true → Split n xs
split zero xs h k = absurd (omega arith)
split (suc n) [] h k = absurd (ground arith)
split (suc zero) (x ∷ xs) h k = record { front = []; last = x; taken = refl; id = refl }
split (suc (suc n)) (x ∷ []) h k = absurd (ground arith)
split (suc (suc n)) (x ∷ y ∷ xs) h k =
    let s = split (suc n) (y ∷ xs) (omega arith) (ground arith) in
    record { front = x ∷ s.front; last = s.last; taken = ap (λ l. x ∷ l) s.taken; id = s.id }

-- Behind the id of a row stands what follows it, where no two rows have one id.
after-append :
    (pre : List StoredCall) (x : StoredCall) (post : List StoredCall)
    → IsUnique (pre ++ x ∷ post)
    → after_cursor x.id (pre ++ x ∷ post) ≡ post
unfolding after_cursor
after-append [] x post u = ground arith
after-append (y ∷ pre) x post u = rw (missed pre u.0) (after-append pre x post u.1)
  where
    missed :
        (pre : List StoredCall)
        → All (λ d. (d.id == y.id) ≡ false) (pre ++ x ∷ post)
        → (y.id == x.id) ≡ false
    missed [] h = ground (arith, h.0)
    missed (z ∷ pre) h = missed pre h.1

longer : (n : ℕ) (xs : List StoredCall) → ltb n (length xs) ≡ true → n < length xs
longer n xs h = ground arith

length-keep-le : (p : StoredCall → Bool) (xs : List StoredCall) → length (keep p xs) ≤ length xs
length-keep-le p [] = omega arith
length-keep-le p (x ∷ xs) = ground (arith, length-keep-le p xs)

keep-IsUnique :
    (p : StoredCall → Bool) (rows : List StoredCall) → IsUnique rows → IsUnique (keep p rows)
keep-IsUnique p [] u = tt
keep-IsUnique p (c ∷ rows) u = elim (Bool-cases (p c)) [
  | inl kept ↦ rw kept (All-keep (λ d. (d.id == c.id) ≡ false) p rows u.0, keep-IsUnique p rows u.1)
  | inr out ↦ rw out (keep-IsUnique p rows u.1)
]

module _ (tenant : ℕ) (category : Option LeadCategory) (limit : ℕ) (s : CallStore)
    (some_rows : 1 ≤ limit) (unique : IsUnique s.rows) where
  abbrev rows : List StoredCall
  rows = keep (listed tenant category) s.rows

  follow-from :
      (n : ℕ) (cursor : Option ℕ) (pre rest : List StoredCall)
      → from_cursor cursor rows ≡ rest
      → rows ≡ pre ++ rest
      → length rest < n
      → follow tenant category limit s n cursor ≡ rest
  unfolding follow list_calls
  follow-from zero cursor pre rest e f h = absurd (omega arith)
  follow-from (suc n) cursor pre rest e f h = elim (Bool-cases (ltb limit (length rest))) [
    | inl more ↦
        let p = split limit rest some_rows more in
        let parts : rest ≡ p.front ++ p.last ∷ drop limit rest =
          sym (take-drop limit rest)
          ∙ ap (λ l. l ++ drop limit rest) p.taken
          ∙ append_assoc p.front (p.last ∷ []) (drop limit rest) in
        let whole : rows ≡ (pre ++ p.front) ++ p.last ∷ drop limit rest =
          f
          ∙ ap (λ l. pre ++ l) parts
          ∙ sym (append_assoc pre p.front (p.last ∷ drop limit rest)) in
        let behind : after_cursor p.last.id rows ≡ drop limit rest =
          ap (after_cursor p.last.id) whole
          ∙ after-append (pre ++ p.front) p.last (drop limit rest)
              (subst IsUnique whole (keep-IsUnique (listed tenant category) s.rows unique)) in
        let shorter : length (drop limit rest) < n =
          omega (arith, length-drop {0} limit rest, longer limit rest more) in
        rw (e, take-take limit rest, more-rows limit rest, more, p.id)
          (ap (λ l. take limit rest ++ l)
              (follow-from n (some p.last.id) (pre ++ take limit rest) (drop limit rest) behind
                (f
                  ∙ ap (λ l. pre ++ l) (sym (take-drop limit rest))
                  ∙ sym (append_assoc pre (take limit rest) (drop limit rest)))
                shorter)
            ∙ take-drop limit rest)
    | inr last ↦
        rw (e, take-take limit rest, more-rows limit rest, last) (all-taken limit rest last)
  ]

  -- A client that follows the cursors gets every call of the tenant and category once, in order.
  pub follow-eq-keep : (n : ℕ) → length s.rows < n → follow tenant category limit s n none ≡ rows
  follow-eq-keep n h =
      follow-from n none [] rows refl refl
        (omega (arith, length-keep-le (listed tenant category) s.rows))
