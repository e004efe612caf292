-- ===== src/Calendar/Connections/Kept.antt =====
-- What every change of calendar connections keeps (apps/api/src/services/calendar.service.ts).
use ai_phone_plattform.Prelude.{
  ℕ, ◌≡◌, refl, ap, arith, Bool, true, false, Option, none, some, List, [], ◌∷◌, ◌++◌, Text, ◌==◌,
  text_eq_iff, any, keep, length, is_some, Bool-cases, inl, inr, All, All-append, All-keep,
}
use ai_phone_plattform.Crypto.{Primitives, Bytes, iv_len, encrypt, decrypt}
use ai_phone_plattform.Crypto.Laws.{Laws, decrypt-encrypt}
use ai_phone_plattform.Calendar.Connections.{
  OauthTokens, Connection, ConnectionStore, CalendarPort, Ivs, is_connection, update_where, sealed,
  resealed, reconnected, upsert_connection, refreshed_row, renewed, unsealed, wrapped, renewing,
  valid_access_token, is_fresh,
}

-- No tenant has two connections of one provider.
abbrev pub IsUnique : List Connection → Type 0
IsUnique [] = Unit
IsUnique (r ∷ rows) = All (λ q. is_connection r.tenant_id r.provider q ≡ false) rows × IsUnique rows

abbrev pub SameKey : (Connection → Connection) → Type 0
SameKey f = (r : Connection) → ((f r).tenant_id ≡ r.tenant_id) × ((f r).provider ≡ r.provider)

update_where-All :
    (Q : Connection → Type 0) (p : Connection → Bool) (f : Connection → Connection)
    (rows : List Connection)
    → ((r : Connection) → Q r → Q (f r))
    → All Q rows
    → All Q (update_where p f rows)
unfolding update_where
update_where-All Q p f [] k h = tt
update_where-All Q p f (r ∷ rows) k h = elim (Bool-cases (p r)) [
  | inl hit ↦ rw hit (k r h.0, update_where-All Q p f rows k h.1)
  | inr miss ↦ rw miss (h.0, update_where-All Q p f rows k h.1)
]

keys-kept :
    (tenant provider : Text) (f : Connection → Connection) (r : Connection)
    → SameKey f
    → is_connection tenant provider r ≡ false
    → is_connection tenant provider (f r) ≡ false
keys-kept tenant provider f r same h = rw ((same r).0, (same r).1) h

update_where-IsUnique :
    (p : Connection → Bool) (f : Connection → Connection) (rows : List Connection)
    → SameKey f
    → IsUnique rows
    → IsUnique (update_where p f rows)
unfolding update_where
update_where-IsUnique p f [] same u = tt
update_where-IsUnique p f (r ∷ rows) same u =
    let others =
      update_where-All (λ q. is_connection r.tenant_id r.provider q ≡ false) p f rows
        (λ q h. keys-kept r.tenant_id r.provider f q same h) u.0 in
    elim (Bool-cases (p r)) [
      | inl hit ↦ rw (hit, (same r).0, (same r).1) (others, update_where-IsUnique p f rows same u.1)
      | inr miss ↦ rw miss (others, update_where-IsUnique p f rows same u.1)
    ]

-- The key of a row is symmetric.
is_connection-sym :
    (r q : Connection)
    → is_connection q.tenant_id q.provider r ≡ false
    → is_connection r.tenant_id r.provider q ≡ false
is_connection-sym r q h = ground (
  arith,
  text_eq_iff r.tenant_id q.tenant_id,
  text_eq_iff q.tenant_id r.tenant_id,
  text_eq_iff r.provider q.provider,
  text_eq_iff q.provider r.provider,
)

append-IsUnique :
    (rows : List Connection) (new : Connection)
    → any (is_connection new.tenant_id new.provider) rows ≡ false
    → IsUnique rows
    → IsUnique (rows ++ new ∷ [])
append-IsUnique [] new h u = (tt, tt)
append-IsUnique (r ∷ rows) new h u = (
  All-append (λ q. is_connection r.tenant_id r.provider q ≡ false) rows (new ∷ []) u.0
      (is_connection-sym r new (ground arith), tt),
  append-IsUnique rows new (ground arith) u.1,
)

pub keep-IsUnique :
    (p : Connection → Bool) (rows : List Connection) → IsUnique rows → IsUnique (keep p rows)
keep-IsUnique p [] u = tt
keep-IsUnique p (r ∷ rows) u = elim (Bool-cases (p r)) [
  | inl kept ↦ rw kept (
    All-keep (λ q. is_connection r.tenant_id r.provider q ≡ false) p rows u.0,
    keep-IsUnique p rows u.1,
  )
  | inr out ↦ rw out (keep-IsUnique p rows u.1)
]

module _ (c : Primitives) where
  -- Both tokens of a row are decrypted.
  abbrev pub IsReadable : Connection → Type 0
  IsReadable r =
      (is_some (decrypt c r.access_token_enc) ≡ true)
      × (is_some (unsealed c r.refresh_token_enc) ≡ true)

  -- No tenant has two connections of one provider, and the stored tokens can be decrypted.
  pub record IsSound (s : ConnectionStore) : Type 0 where
    pub unique : IsUnique s.rows
    pub readable : All IsReadable s.rows

  pub updated-IsSound :
      (p : Connection → Bool) (f : Connection → Connection) (s : ConnectionStore)
      → SameKey f
      → ((r : Connection) → IsReadable r → IsReadable (f r))
      → IsSound s
      → IsSound (record s { rows = update_where p f s.rows })
  updated-IsSound p f s same k h = record {
    unique = update_where-IsUnique p f s.rows same h.unique;
    readable = update_where-All IsReadable p f s.rows k h.readable;
  }

module _ (c : Primitives) (laws : Laws c) (ivs : Ivs) (access : length ivs.access ≡ iv_len)
    (refresh : length ivs.refresh ≡ iv_len) where
  encrypt-read :
      (iv : Bytes) (s : Text) → length iv ≡ iv_len → is_some (decrypt c (encrypt c iv s)) ≡ true
  encrypt-read iv s h = rw (decrypt-encrypt c laws iv s h) refl

  sealed-read : (o : Option Text) → is_some (unsealed c (sealed c ivs.refresh o)) ≡ true
  sealed-read none = refl
  sealed-read (some s) =
      ap (λ o. is_some (wrapped c o)) (decrypt-encrypt c laws ivs.refresh s refresh)

  resealed-read :
      (o old : Option Text)
      → is_some (unsealed c old) ≡ true
      → is_some (unsealed c (resealed c ivs.refresh o old)) ≡ true
  resealed-read none old h = h
  resealed-read (some []) old h = h
  resealed-read (some (d ∷ s)) old h =
      ap (λ o. is_some (wrapped c o)) (decrypt-encrypt c laws ivs.refresh (d ∷ s) refresh)

  pub upsert_connection-IsSound :
      (tenant provider : Text) (tokens : OauthTokens) (s : ConnectionStore)
      → IsSound c s
      → IsSound c (upsert_connection c ivs tenant provider tokens s)
  unfolding upsert_connection
  upsert_connection-IsSound tenant provider tokens s h =
      elim (Bool-cases (any (is_connection tenant provider) s.rows)) [
        | inl known ↦ rw known (
            updated-IsSound c (is_connection tenant provider) (reconnected c ivs tokens) s
              (λ r. (refl, refl))
              (λ r k. (
                encrypt-read ivs.access tokens.access_token access,
                resealed-read tokens.refresh_token r.refresh_token_enc k.1,
              ))
              h)
        | inr new ↦ rw new (record {
          unique = append-IsUnique s.rows _ new h.unique;
          readable = All-append (IsReadable c) s.rows _ h.readable (
            (encrypt-read ivs.access tokens.access_token access, sealed-read tokens.refresh_token),
            tt,
          );
        })
      ]

  -- A renewal that is stored can be decrypted.
  renewed-IsSound :
      (row : Connection) (tokens : Option OauthTokens) (s : ConnectionStore)
      → IsSound c s
      → IsSound c (renewed c ivs row tokens s).1
  renewed-IsSound row none s h = h
  renewed-IsSound row (some tokens) s h =
      updated-IsSound c (λ r. r.id == row.id) (refreshed_row c ivs tokens) s (λ r. (refl, refl))
        (λ r k. (
          encrypt-read ivs.access tokens.access_token access,
          resealed-read tokens.refresh_token r.refresh_token_enc k.1,
        ))
        h

  renewing-IsSound :
      (port : CalendarPort) (row : Connection) (token : Option (Option Text)) (s : ConnectionStore)
      → IsSound c s
      → IsSound c (renewing c port ivs row token s).1
  renewing-IsSound port row none s h = h
  renewing-IsSound port row (some none) s h = h
  renewing-IsSound port row (some (some [])) s h = h
  renewing-IsSound port row (some (some (d ∷ t))) s h =
      renewed-IsSound row (port.refresh (d ∷ t)) s h

  pub valid_access_token-IsSound :
      (port : CalendarPort) (now : ℕ) (row : Connection) (s : ConnectionStore)
      → IsSound c s
      → IsSound c (valid_access_token c port ivs now row s).1
  unfolding valid_access_token
  valid_access_token-IsSound port now row s h = elim (Bool-cases (is_fresh c now row.expires_at)) [
    | inl fresh ↦ rw fresh h
    | inr stale ↦ rw stale (renewing-IsSound port row (unsealed c row.refresh_token_enc) s h)
  ]
