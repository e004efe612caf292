-- ===== src/Calendar/Connections/Served.antt =====
-- The requests on calendar connections, and whose connections they change
-- (apps/api/src/services/calendar.service.ts).
use ai_phone_plattform.Prelude.{
  ℕ, ◌≡◌, refl, ap, true, not, Option, none, some, List, [], ◌∷◌, ◌++◌, Text, text_eq, text_eq_refl,
  find, any, keep, length, Bool-cases, Option-cases, inl, inr, All-keep,
}
use ai_phone_plattform.Exec.{Outcome, ok, threw}
use ai_phone_plattform.Crypto.{Primitives, iv_len}
use ai_phone_plattform.Crypto.Laws.{Laws}
use ai_phone_plattform.Access.Tokens
use ai_phone_plattform.Access.Tokens.{
  Jwt, CalendarState, calendar_payload, verify_calendar_state, IsSigned, tokens-IsSigned,
}
use ai_phone_plattform.Calendar.Connections.{
  OauthTokens, Connection, ConnectionStore, CalendarPort, Ivs, is_connection, update_where,
  reconnected, upsert_connection, stated, complete_oauth, valid_access_token, tested, probed,
  test_connection, set_default_calendar, disconnect_calendar,
}
use ai_phone_plattform.Calendar.Connections.Kept.{
  IsReadable, IsSound, keep-IsUnique, updated-IsSound, upsert_connection-IsSound,
  valid_access_token-IsSound,
}

module _ (c : Primitives) (laws : Laws c) where
  -- The iv of each encryption has the length that the code asks for.
  abbrev pub AreIvs : Ivs → Type 0
  AreIvs ivs = (length ivs.access ≡ iv_len) × (length ivs.refresh ≡ iv_len)

  -- One request.
  pub data IsServed (s : ConnectionStore) : ConnectionStore → Type 0 where
    completes :
        (jwt : Jwt) (port : Text → CalendarPort) (ivs : Ivs) (now : ℕ) (token code : Text)
        → AreIvs ivs
        → IsServed s (complete_oauth c jwt port ivs now token code s).1
    tests :
        (port : Text → CalendarPort) (ivs : Ivs) (now : ℕ) (tenant provider : Text)
        → AreIvs ivs
        → IsServed s (test_connection c port ivs now tenant provider s).1
    renews :
        (port : CalendarPort) (ivs : Ivs) (now : ℕ) (row : Connection)
        → AreIvs ivs
        → IsServed s (valid_access_token c port ivs now row s).1
    chooses :
        (tenant provider calendar : Text)
        → IsServed s (set_default_calendar tenant provider calendar s)
    disconnects : (tenant provider : Text) → IsServed s (disconnect_calendar tenant provider s)

  stated-IsSound :
      (port : Text → CalendarPort) (ivs : Ivs) (code : Text) (state : Option CalendarState)
      (s : ConnectionStore)
      → AreIvs ivs
      → IsSound c s
      → IsSound c (stated c port ivs code state s).1
  stated-IsSound port ivs code none s i h = h
  stated-IsSound port ivs code (some state) s i h = elim (Option-cases state.provider) [
    | inl none_given ↦ rw none_given h
    | inr (provider, given) ↦ elim (Option-cases ((port provider).exchange_code code)) [
      | inl failed ↦ rw (given, failed) h
      | inr (tokens, exchanged) ↦
          rw (given, exchanged)
            (upsert_connection-IsSound c laws ivs i.0 i.1 state.tenant_id provider tokens s h)
    ]
  ]

  marked-IsSound :
      (port : CalendarPort) (id : ℕ) (x : Outcome Text × ConnectionStore)
      → IsSound c x.1
      → IsSound c (tested c port id x).1
  marked-IsSound port id (threw, s) h = updated-IsSound c _ _ s (λ r. (refl, refl)) (λ r k. k) h
  marked-IsSound port id (ok token, s) h = elim (Bool-cases (port.lists_calendars token)) [
    | inl works ↦ rw works (updated-IsSound c _ _ s (λ r. (refl, refl)) (λ r k. k) h)
    | inr fails ↦ rw fails (updated-IsSound c _ _ s (λ r. (refl, refl)) (λ r k. k) h)
  ]

  probed-IsSound :
      (port : CalendarPort) (ivs : Ivs) (now : ℕ) (row : Option Connection) (s : ConnectionStore)
      → AreIvs ivs
      → IsSound c s
      → IsSound c (probed c port ivs now row s).1
  probed-IsSound port ivs now none s i h = h
  probed-IsSound port ivs now (some row) s i h =
      marked-IsSound port row.id (valid_access_token c port ivs now row s)
        (valid_access_token-IsSound c laws ivs i.0 i.1 port now row s h)

  -- Whatever request on calendar connections is served, no tenant has two connections of one provider,
  -- and every stored token can be decrypted.
  pub connections-IsSound : {s t : ConnectionStore} → IsServed s t → IsSound c s → IsSound c t
  unfolding complete_oauth test_connection set_default_calendar disconnect_calendar
  connections-IsSound {s} (completes jwt port ivs now token code i) h =
      stated-IsSound port ivs code (verify_calendar_state jwt now token) s i h
  connections-IsSound {s} (tests port ivs now tenant provider i) h =
      probed-IsSound (port provider) ivs now (find (is_connection tenant provider) s.rows) s i h
  connections-IsSound {s} (renews port ivs now row i) h =
      valid_access_token-IsSound c laws ivs i.0 i.1 port now row s h
  connections-IsSound {s} (chooses tenant provider calendar) h =
      updated-IsSound c _ _ s (λ r. (refl, refl)) (λ r k. k) h
  connections-IsSound {s} (disconnects tenant provider) h = record {
    unique = keep-IsUnique _ s.rows h.unique;
    readable = All-keep (IsReadable c) _ s.rows h.readable;
  }

-- The connections of all other tenants.
abbrev pub elsewhere : Text → List Connection → List Connection
elsewhere tenant rows = keep (λ r. not (text_eq r.tenant_id tenant)) rows

elsewhere-update :
    (tenant provider : Text) (f : Connection → Connection) (rows : List Connection)
    → ((r : Connection) → (f r).tenant_id ≡ r.tenant_id)
    → elsewhere tenant (update_where (is_connection tenant provider) f rows) ≡ elsewhere tenant rows
unfolding update_where
elsewhere-update tenant provider f [] same = refl
elsewhere-update tenant provider f (r ∷ rows) same =
    elim (Bool-cases (text_eq r.tenant_id tenant)) [
      | inl own ↦ elim (Bool-cases (text_eq r.provider provider)) [
        | inl this ↦
            rw (own, this) (rw (same r, own) (elsewhere-update tenant provider f rows same))
        | inr other ↦ rw (own, other, own) (elsewhere-update tenant provider f rows same)
      ]
      | inr other ↦
          rw (other, other) (ap (λ l. r ∷ l) (elsewhere-update tenant provider f rows same))
    ]

elsewhere-append :
    (tenant : Text) (rows : List Connection) (new : Connection)
    → text_eq new.tenant_id tenant ≡ true
    → elsewhere tenant (rows ++ new ∷ []) ≡ elsewhere tenant rows
elsewhere-append tenant [] new h = rw h refl
elsewhere-append tenant (r ∷ rows) new h = elim (Bool-cases (text_eq r.tenant_id tenant)) [
  | inl own ↦ rw own (elsewhere-append tenant rows new h)
  | inr other ↦ rw other (ap (λ l. r ∷ l) (elsewhere-append tenant rows new h))
]

module _ (c : Primitives) where
  upsert_connection-elsewhere :
      (ivs : Ivs) (tenant provider : Text) (tokens : OauthTokens) (s : ConnectionStore)
      → elsewhere tenant (upsert_connection c ivs tenant provider tokens s).rows
        ≡ elsewhere tenant s.rows
  unfolding upsert_connection
  upsert_connection-elsewhere ivs tenant provider tokens s =
      elim (Bool-cases (any (is_connection tenant provider) s.rows)) [
        | inl known ↦
            rw known
              (elsewhere-update tenant provider (reconnected c ivs tokens) s.rows (λ r. refl))
        | inr new ↦ rw new (elsewhere-append tenant s.rows _ (text_eq_refl tenant))
      ]

  -- How a consent ends: with an error, and no change; or for a tenant that signed the state, with no
  -- change for any other tenant.
  abbrev pub IsCompleted :
      Jwt → ℕ → Text → ConnectionStore → Outcome Text × ConnectionStore → Type 0
  IsCompleted jwt now token s (threw, t) = t ≡ s
  IsCompleted jwt now token s (ok provider, t) =
      (state : CalendarState) × IsSigned jwt now token (calendar_payload state)
      × (state.provider ≡ some provider)
      × (elsewhere state.tenant_id t.rows ≡ elsewhere state.tenant_id s.rows)

  stated-IsCompleted :
      (jwt : Jwt) (now : ℕ) (token : Text) (port : Text → CalendarPort) (ivs : Ivs) (code : Text)
      (o : Option CalendarState) (s : ConnectionStore)
      → ((state : CalendarState) → o ≡ some state → IsSigned jwt now token (calendar_payload state))
      → IsCompleted jwt now token s (stated c port ivs code o s)
  stated-IsCompleted jwt now token port ivs code none s h = refl
  stated-IsCompleted jwt now token port ivs code (some state) s h =
      elim (Option-cases state.provider) [
        | inl none_given ↦ rw none_given refl
        | inr (provider, given) ↦ elim (Option-cases ((port provider).exchange_code code)) [
          | inl failed ↦ rw (given, failed) refl
          | inr (tokens, exchanged) ↦
              rw (given, exchanged)
                (
                  state,
                  h state refl,
                  given,
                  upsert_connection-elsewhere ivs state.tenant_id provider tokens s,
                )
        ]
      ]

  -- If signatures are genuine, a calendar consent that is completed was started by a tenant that signed
  -- its state for that provider, and leaves the connections of all other tenants alone; one that fails
  -- changes nothing.
  pub complete_oauth-IsCompleted :
      (jwt : Jwt) (laws : Tokens.Laws jwt) (port : Text → CalendarPort) (ivs : Ivs) (now : ℕ)
      (token code : Text) (s : ConnectionStore)
      → IsCompleted jwt now token s (complete_oauth c jwt port ivs now token code s)
  unfolding complete_oauth
  complete_oauth-IsCompleted jwt laws port ivs now token code s =
      stated-IsCompleted jwt now token port ivs code (verify_calendar_state jwt now token) s
        ((tokens-IsSigned jwt laws now token).2)
