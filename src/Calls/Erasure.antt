-- ===== src/Calls/Erasure.antt =====
-- What a data subject gets of apps/api/src/routes/gdpr.ts.
use ai_phone_plattform.Prelude.{
  ℕ, ◌≡◌, refl, ap, ◌∙◌, arith, Bool, true, false, not, ◌&&◌, Option, none, some, List, [], ◌∷◌,
  Text, codes, text_eq, keep, any, length, ◌==◌, Bool-cases, Option-cases, inl, inr, All, All-map,
  All-zip, keep-keep, keep-eq, is_some,
}
use ai_phone_plattform.Crypto.{Primitives, decrypt, blind_hash}
use ai_phone_plattform.Crypto.Laws.{Laws, decrypt_short}
use ai_phone_plattform.Access.{RequestAuth, server_error, sent, failed_with, require_capability}
use ai_phone_plattform.Calls.{
  StoredCall, CallStore, own, is_row, anonymize_row, anonymize_call, matched, with_number, has_id,
  gdpr_erase, gdpr_export,
}

-- No two rows have one id.
abbrev pub IsUnique : List StoredCall → Type 0
IsUnique [] = Unit
IsUnique (c ∷ rows) = All (λ d. (d.id == c.id) ≡ false) rows × IsUnique rows

module _ (c : Primitives) where
  -- the calls of a tenant whose number has a hash, where every number is read
  abbrev pub IsRead : (StoredCall → Text) → List StoredCall → Type 0
  IsRead number rows = All (λ r. decrypt c r.from_number_enc ≡ some (number r)) rows

  abbrev pub is_hit : (StoredCall → Text) → Text → StoredCall → Bool
  is_hit number target r = text_eq (blind_hash c (number r)) target

  matched-eq-keep :
      (number : StoredCall → Text) (target : Text) (rows : List StoredCall)
      → IsRead number rows
      → matched c target rows ≡ some (keep (is_hit number target) rows)
  unfolding matched
  matched-eq-keep number target [] h = refl
  matched-eq-keep number target (r ∷ rows) h = elim (Bool-cases (is_hit number target r)) [
    | inl hit ↦ rw (h.0, matched-eq-keep number target rows h.1, hit) refl
    | inr miss ↦ rw (h.0, matched-eq-keep number target rows h.1, miss) refl
  ]

  has_id-missed :
      (p : StoredCall → Bool) (rows : List StoredCall) (id : ℕ)
      → All (λ d. (d.id == id) ≡ false) rows
      → has_id c (keep p rows) id ≡ false
  has_id-missed p [] id h = refl
  has_id-missed p (r ∷ rows) id h = ground (arith, has_id-missed p rows id h.1)

  -- Among rows of different ids, the id of a row is among the kept ones if the row is kept.
  has_id-keep :
      (p : StoredCall → Bool) (rows : List StoredCall)
      → IsUnique rows
      → All (λ r. has_id c (keep p rows) r.id ≡ p r) rows
  has_id-keep p [] u = tt
  has_id-keep p (x ∷ rows) u = (
    ground (arith, has_id-missed p rows x.id u.0),
    All-zip (λ d. (d.id == x.id) ≡ false) (λ r. has_id c (keep p rows) r.id ≡ p r)
        (λ r. has_id c (keep p (x ∷ rows)) r.id ≡ p r) rows
        (λ r other own. ground (arith, other, own)) u.0 (has_id-keep p rows u.1),
  )

module _ (c : Primitives) (a : RequestAuth) (phone : Text) (s : CallStore)
    (allowed : require_capability (codes "calls:delete") (some a) ≡ sent a) where
  -- If every number of the tenant is read, an erasure removes exactly the calls of the tenant whose
  -- number has the hash of the phone, and reports how many they are.
  pub gdpr_erase-eq-keep :
      (number : StoredCall → Text)
      → IsUnique s.rows
      → IsRead c number (keep (own a.tenant_id) s.rows)
      → ((gdpr_erase c (some a) phone s).1.rows
          ≡ keep (λ r. not (own a.tenant_id r && is_hit c number (blind_hash c phone) r)) s.rows)
        × ((gdpr_erase c (some a) phone s).0
            ≡ sent (
                length
                  (keep (λ r. own a.tenant_id r && is_hit c number (blind_hash c phone) r) s.rows)))
  unfolding gdpr_erase
  gdpr_erase-eq-keep number u h =
      let p = is_hit c number (blind_hash c phone) in
      let hits : matched c (blind_hash c phone) (keep (own a.tenant_id) s.rows)
          ≡ some (keep (λ r. own a.tenant_id r && p r) s.rows) =
        matched-eq-keep c number (blind_hash c phone) (keep (own a.tenant_id) s.rows) h
        ∙ ap some (keep-keep p (own a.tenant_id) s.rows) in
      (
        rw (allowed, hits)
            (keep-eq _ _ s.rows (
              All-map _ _ s.rows (λ r e. ground (arith, e))
                (has_id-keep c (λ r. own a.tenant_id r && p r) s.rows u))),
        rw (allowed, hits) refl,
      )

module _ (c : Primitives) where
  abbrev is_unread : ℕ → StoredCall → Bool
  is_unread tenant r = own tenant r && not (is_some (decrypt c r.from_number_enc))

  with_number-none :
      (target : Text) (r : StoredCall) (o : Option Text) → with_number c target r o none ≡ none
  with_number-none target r none = refl
  with_number-none target r (some number) = refl

  -- One number that is not read makes the search fail.
  matched-unread :
      (tenant : ℕ) (target : Text) (rows : List StoredCall)
      → any (is_unread tenant) rows ≡ true
      → matched c target (keep (own tenant) rows) ≡ none
  unfolding matched
  matched-unread tenant target [] h = cc
  matched-unread tenant target (r ∷ rows) h = elim (Bool-cases (own tenant r)) [
    | inl mine ↦ elim (Option-cases (decrypt c r.from_number_enc)) [
      | inl unread ↦ rw (mine, unread) refl
      | inr (number, read) ↦
          rw (mine, matched-unread tenant target rows (rw (mine, read) at h))
            (with_number-none target r (decrypt c r.from_number_enc))
    ]
    | inr other ↦ rw other (matched-unread tenant target rows (rw other at h))
  ]

  anonymize_row-unread :
      (laws : Laws c) (tenant id : ℕ) (rows : List StoredCall)
      → any (is_row tenant id) rows ≡ true
      → any (is_unread tenant) (anonymize_row id rows) ≡ true
  unfolding anonymize_row
  anonymize_row-unread laws tenant id [] h = cc
  anonymize_row-unread laws tenant id (r ∷ rows) h = elim (Bool-cases (r.id == id)) [
    | inl here ↦ elim (Bool-cases (own tenant r)) [
      | inl mine ↦ rw (here, mine, decrypt_short c laws (codes "anonymized") (omega arith)) refl
      | inr other ↦
          rw (here, other) (anonymize_row-unread laws tenant id rows (rw (here, other) at h))
    ]
    | inr there ↦ ground (arith, there, anonymize_row-unread laws tenant id rows (rw there at h))
  ]

  any-row :
      (tenant id : ℕ) (rows : List StoredCall)
      → any (is_row tenant id) rows ≡ true
      → any (λ r. r.id == id) rows ≡ true
  any-row tenant id [] h = cc
  any-row tenant id (r ∷ rows) h = ground (arith, h, any-row tenant id rows)

  -- Once an operator has anonymized one call of a tenant, every erasure and every export of that
  -- tenant fails with an error, for every phone number, and no call is erased.
  pub gdpr-anonymized :
      (laws : Laws c) (admin a : RequestAuth) (id : ℕ) (phone : Text) (s : CallStore)
      → require_capability (codes "platform:gdpr") (some admin) ≡ sent admin
      → require_capability (codes "calls:delete") (some a) ≡ sent a
      → any (is_row a.tenant_id id) s.rows ≡ true
      → (gdpr_erase c (some a) phone (anonymize_call (some admin) id s).1
          ≡ (failed_with server_error, (anonymize_call (some admin) id s).1))
        × ((gdpr_export c (some a) phone (anonymize_call (some admin) id s).1).0
            ≡ failed_with server_error)
  unfolding gdpr_erase gdpr_export anonymize_call
  gdpr-anonymized laws admin a id phone s operator allowed row =
      let found = any-row a.tenant_id id s.rows row in
      let unread =
        matched-unread a.tenant_id (blind_hash c phone) (anonymize_row id s.rows)
          (anonymize_row-unread laws a.tenant_id id s.rows row) in
      (rw (operator, found, allowed, unread) refl, rw (operator, found, allowed, unread) refl)
