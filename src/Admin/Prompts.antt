-- ===== src/Admin/Prompts.antt =====
-- The versions of the platform's prompt in apps/api/src/routes/admin.ts. Each transaction is one step.
use ai_phone_plattform.Prelude.{
  ℕ, suc, ◌+◌, ◌≡◌, ◌≤◌, ◌<◌, refl, arith, Bool, true, false, Option, List, [], ◌∷◌, ◌++◌, Text,
  codes, any, ◌==◌, if◌then◌else◌, Bool-cases, inl, inr, All, All-map, All-append,
}
use ai_phone_plattform.Access.{
  RequestAuth, not_found, Reply, sent, failed_with, require_capability, guarded, guarded-keeps,
}

pub record PromptVersion : Type 0 where
  pub id : ℕ
  pub content : Text
  pub active : Bool

pub record PromptStore : Type 0 where
  pub versions : List PromptVersion
  pub next_id : ℕ

-- `promptVersionSchema`, parsed
pub record PromptBody : Type 0 where
  pub content : Text
  pub activate : Bool

-- `updateMany({ data: { active: false }, where: { active: true } })`
unfoldable pub deactivate : List PromptVersion → List PromptVersion
deactivate [] = []
deactivate (p ∷ ps) = record p { active = false } ∷ deactivate ps

unfoldable pub set_active : ℕ → List PromptVersion → List PromptVersion
set_active id [] = []
set_active id (p ∷ ps) =
    let rest = set_active id ps in
    if p.id == id then record p { active = true } ∷ rest else p ∷ rest

abbrev created : PromptBody → PromptStore → Reply ℕ × PromptStore
created body s = (
  sent s.next_id,
  record {
    versions =
        (if body.activate then deactivate s.versions else s.versions)
        ++ record { id = s.next_id; content = body.content; active = body.activate } ∷ [];
    next_id = suc s.next_id;
  },
)

-- `POST /admin/ai/prompts`
unfoldable pub create_prompt : Option RequestAuth → PromptBody → PromptStore → Reply ℕ × PromptStore
create_prompt auth body s =
    guarded (λ a. created body) (require_capability (codes "platform:ai:write") auth) s

abbrev activated : ℕ → PromptStore → Reply (Unit {0}) × PromptStore
activated id s =
    if any (λ p. p.id == id) s.versions
    then (sent tt, record s { versions = set_active id (deactivate s.versions) })
    else (failed_with not_found, s)

-- `POST /admin/ai/prompts/:id/activate`
unfoldable pub activate_prompt :
    Option RequestAuth → ℕ → PromptStore → Reply (Unit {0}) × PromptStore
activate_prompt auth id s =
    guarded (λ a. activated id) (require_capability (codes "platform:ai:write") auth) s

-- how many versions are active
abbrev pub active_count : List PromptVersion → ℕ
active_count [] = 0
active_count (p ∷ ps) = (if p.active then 1 else 0) + active_count ps

-- how many versions have an id
abbrev pub id_count : ℕ → List PromptVersion → ℕ
id_count id [] = 0
id_count id (p ∷ ps) = (if p.id == id then 1 else 0) + id_count id ps

-- At most one version is active, no two have one id, and no id is to be given out again.
pub record IsSingle (s : PromptStore) : Type 0 where
  pub one_active : active_count s.versions ≤ 1
  pub distinct : (id : ℕ) → id_count id s.versions ≤ 1
  pub below : All (λ p. p.id < s.next_id) s.versions

active_count-deactivate : (ps : List PromptVersion) → active_count (deactivate ps) ≡ 0
unfolding deactivate
active_count-deactivate [] = refl
active_count-deactivate (p ∷ ps) = omega (arith, active_count-deactivate ps)

id_count-deactivate :
    (id : ℕ) (ps : List PromptVersion) → id_count id (deactivate ps) ≡ id_count id ps
unfolding deactivate
id_count-deactivate id [] = refl
id_count-deactivate id (p ∷ ps) = ground (arith, id_count-deactivate id ps)

id_count-set_active :
    (k id : ℕ) (ps : List PromptVersion) → id_count k (set_active id ps) ≡ id_count k ps
unfolding set_active
id_count-set_active k id [] = refl
id_count-set_active k id (p ∷ ps) = ground (arith, id_count-set_active k id ps)

-- Activating an id after all are off makes as many active as have the id.
active_count-set_active :
    (id : ℕ) (ps : List PromptVersion)
    → active_count (set_active id (deactivate ps)) ≡ id_count id ps
unfolding set_active deactivate
active_count-set_active id [] = refl
active_count-set_active id (p ∷ ps) = ground (arith, active_count-set_active id ps)

active_count-append :
    (ps : List PromptVersion) (p : PromptVersion)
    → active_count (ps ++ p ∷ []) ≡ active_count ps + (if p.active then 1 else 0)
active_count-append [] p = omega arith
active_count-append (q ∷ ps) p = omega (arith, active_count-append ps p)

id_count-append :
    (id : ℕ) (ps : List PromptVersion) (p : PromptVersion)
    → id_count id (ps ++ p ∷ []) ≡ id_count id ps + (if p.id == id then 1 else 0)
id_count-append id [] p = omega arith
id_count-append id (q ∷ ps) p = omega (arith, id_count-append id ps p)

id_count-new : (id : ℕ) (ps : List PromptVersion) → All (λ p. p.id < id) ps → id_count id ps ≡ 0
id_count-new id [] h = refl
id_count-new id (p ∷ ps) h = ground (arith, id_count-new id ps h.1)

below-deactivate :
    (n : ℕ) (ps : List PromptVersion) → All (λ p. p.id < n) ps → All (λ p. p.id < n) (deactivate ps)
unfolding deactivate
below-deactivate n [] h = tt
below-deactivate n (p ∷ ps) h = (h.0, below-deactivate n ps h.1)

below-set_active :
    (n id : ℕ) (ps : List PromptVersion)
    → All (λ p. p.id < n) ps
    → All (λ p. p.id < n) (set_active id ps)
unfolding set_active
below-set_active n id [] h = tt
below-set_active n id (p ∷ ps) h = elim (Bool-cases (p.id == id)) [
  | inl here ↦ rw here (h.0, below-set_active n id ps h.1)
  | inr there ↦ rw there (h.0, below-set_active n id ps h.1)
]

module _ (s : PromptStore) (h : IsSingle s) where
  -- The versions before a new one: as they are, or all off.
  appended-IsSingle :
      (ps : List PromptVersion) (body : PromptBody)
      → active_count ps + (if body.activate then 1 else 0) ≤ 1
      → ((id : ℕ) → id_count id ps ≡ id_count id s.versions)
      → All (λ p. p.id < s.next_id) ps
      → IsSingle (record {
        versions =
            ps ++ record { id = s.next_id; content = body.content; active = body.activate } ∷ [];
        next_id = suc s.next_id;
      })
  appended-IsSingle ps body one same below = record {
    one_active = omega (arith, active_count-append ps _);
    distinct = λ id. elim (Bool-cases (s.next_id == id)) [
      | inl new ↦
          let none_yet : id_count id ps ≡ 0 =
            id_count-new id ps
              (All-map (λ p. p.id < s.next_id) _ ps (λ p b. ground (arith, b, new)) below) in
          rw (id_count-append id ps _, none_yet, new) (omega arith)
      | inr old ↦ rw (id_count-append id ps _, old) (omega (arith, same id, h.distinct id))
    ];
    below =
        All-append (λ p. p.id < suc s.next_id) ps _
          (All-map (λ p. p.id < s.next_id) _ ps (λ p b. omega arith) below) (omega arith, tt);
  }

  created-IsSingle : (body : PromptBody) → IsSingle (created body s).1
  created-IsSingle body = elim (Bool-cases body.activate) [
    | inl on ↦ rw on (
        appended-IsSingle (deactivate s.versions) (record body { activate = true })
          (omega (arith, active_count-deactivate s.versions))
          (λ id. id_count-deactivate id s.versions) (below-deactivate s.next_id s.versions h.below))
    | inr off ↦ rw off (
        appended-IsSingle s.versions (record body { activate = false })
          (omega (arith, h.one_active)) (λ id. refl) h.below)
  ]

  activated-IsSingle : (id : ℕ) → IsSingle (activated id s).1
  activated-IsSingle id = elim (Bool-cases (any (λ p. p.id == id) s.versions)) [
    | inl found ↦ rw found (record {
      one_active = rw (active_count-set_active id s.versions) (h.distinct id);
      distinct = λ k.
          rw (id_count-set_active k id (deactivate s.versions), id_count-deactivate k s.versions)
            (h.distinct k);
      below =
          below-set_active s.next_id id (deactivate s.versions)
            (below-deactivate s.next_id s.versions h.below);
    })
    | inr missing ↦ rw missing h
  ]

-- One request on the versions.
pub data IsServed (s : PromptStore) : PromptStore → Type 0 where
  creates :
      (auth : Option RequestAuth) (body : PromptBody) → IsServed s (create_prompt auth body s).1
  activates : (auth : Option RequestAuth) (id : ℕ) → IsServed s (activate_prompt auth id s).1

-- Whatever request on the prompts is served, at most one version is active, and no two have one id.
pub IsServed-IsSingle : {s t : PromptStore} → IsServed s t → IsSingle s → IsSingle t
unfolding create_prompt activate_prompt
IsServed-IsSingle {s} (creates auth body) h =
    guarded-keeps IsSingle (λ a. created body) (require_capability (codes "platform:ai:write") auth)
      s h (λ a. created-IsSingle s h body)
IsServed-IsSingle {s} (activates auth id) h =
    guarded-keeps IsSingle (λ a. activated id) (require_capability (codes "platform:ai:write") auth)
      s h (λ a. activated-IsSingle s h id)
