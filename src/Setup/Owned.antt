-- ===== src/Setup/Owned.antt =====
-- What the routes of questionnaires and assistants keep.
pub mod Served
use ai_phone_plattform.Prelude.{
  ℕ, suc, ◌≡◌, ◌<◌, refl, sym, ap, subst, arith, Bool, true, false, not, Option, none, some,
  or_else, List, [], ◌∷◌, ◌++◌, Text, codes, any, Bool-cases, Option-cases, inl, inr, All, All-map,
  All-append, ◌==◌, ==_iff, and-eq-true,
}
use ai_phone_plattform.Js.{Js}
use ai_phone_plattform.Schemas.{valid_questionnaire}
use ai_phone_plattform.Access.{RequestAuth, Reply, sent, failed_with, require_capability}
use ai_phone_plattform.Setup.{
  QuestionnaireRow, AssistantRow, Setup, QuestionnaireBody, AssistantBody, AssistantPatch,
  is_own_questionnaire, owns, create_questionnaire, replace_questions, update_questionnaire,
  is_own_assistant, patched, create_assistant, patch_assistants, update_assistant,
}
use ai_phone_plattform.Setup.Starter.{create_starter_content, starter_questions-valid}

module _ (js : Js) where
  open js use {Num}

  -- An assistant has no questionnaire, or one of its own tenant.
  abbrev pub Links : List (QuestionnaireRow Num) → ℕ → Option ℕ → Type 0
  Links qs tenant none = Unit
  Links qs tenant (some id) = any (is_own_questionnaire js tenant id) qs ≡ true

  abbrev pub IsOwn : List (QuestionnaireRow Num) → AssistantRow → Type 0
  IsOwn qs a = Links qs a.tenant_id a.questionnaire_id

  abbrev pub IsAccepted : QuestionnaireRow Num → Type 0
  IsAccepted q = valid_questionnaire js q.name q.questions ≡ true

  abbrev pub IsDistinct : List AssistantRow → Type 0
  IsDistinct [] = Unit
  IsDistinct (a ∷ rows) = All (λ b. (b.id == a.id) ≡ false) rows × IsDistinct rows

  -- Every stored questionnaire is one that the schema accepts, and every assistant has a questionnaire of
  -- its own tenant or none; no two assistants have one id, and no id is to be given out again.
  pub record IsSound (s : Setup Num) : Type 0 where
    pub accepted : All IsAccepted s.questionnaires
    pub owned : All (IsOwn s.questionnaires) s.assistants
    pub distinct : IsDistinct s.assistants
    pub below : All (λ a. a.id < s.next_id) s.assistants

  any-replace :
      (tenant k id : ℕ) (body : QuestionnaireBody Num) (qs : List (QuestionnaireRow Num))
      → any (is_own_questionnaire js tenant k) (replace_questions js id body qs)
        ≡ any (is_own_questionnaire js tenant k) qs
  unfolding replace_questions
  any-replace tenant k id body [] = refl
  any-replace tenant k id body (q ∷ qs) = elim (Bool-cases (q.id == id)) [
    | inl here ↦ rw (here, any-replace tenant k id body qs) refl
    | inr there ↦ rw (there, any-replace tenant k id body qs) refl
  ]

  IsOwn-move :
      (qs rs : List (QuestionnaireRow Num)) (a : AssistantRow)
      → ((tenant k : ℕ)
          → any (is_own_questionnaire js tenant k) qs ≡ true
          → any (is_own_questionnaire js tenant k) rs ≡ true)
      → IsOwn qs a
      → IsOwn rs a
  IsOwn-move qs rs a f h = elim (Option-cases a.questionnaire_id) [
    | inl e ↦ rw e tt
    | inr (k, e) ↦ rw e (f a.tenant_id k (rw e at h))
  ]

  replace-accepted :
      (id : ℕ) (body : QuestionnaireBody Num) (qs : List (QuestionnaireRow Num))
      → valid_questionnaire js body.name body.questions ≡ true
      → All IsAccepted qs
      → All IsAccepted (replace_questions js id body qs)
  unfolding replace_questions
  replace-accepted id body [] v h = tt
  replace-accepted id body (q ∷ qs) v h = elim (Bool-cases (q.id == id)) [
    | inl here ↦ rw here (v, replace-accepted id body qs v h.1)
    | inr there ↦ rw there (h.0, replace-accepted id body qs v h.1)
  ]

  no_other :
      (tenant id : ℕ) (rows : List AssistantRow)
      → All (λ b. (b.id == id) ≡ false) rows
      → any (is_own_assistant js tenant id) rows ≡ false
  no_other tenant id [] h = refl
  no_other tenant id (b ∷ rows) h = ground (arith, h.0, no_other tenant id rows h.1)

  owner-of :
      (tenant id : ℕ) (rows : List AssistantRow)
      → IsDistinct rows
      → any (is_own_assistant js tenant id) rows ≡ true
      → All (λ a. (a.id == id) ≡ true → a.tenant_id ≡ tenant) rows
  owner-of tenant id [] d h = tt
  owner-of tenant id (a ∷ rows) d h = elim (Bool-cases (a.id == id)) [
    | inl here ↦ elim (Bool-cases (a.tenant_id == tenant)) [
      | inl mine ↦ (
        λ e. (==_iff a.tenant_id tenant).0 mine,
        All-map (λ b. (b.id == a.id) ≡ false) (λ b. (b.id == id) ≡ true → b.tenant_id ≡ tenant) rows
            (λ b other e. absurd (ground (arith, other, e, here))) d.0,
      )
      | inr other ↦
          let same : a.id ≡ id = (==_iff a.id id).0 here in
          absurd (
            ground (
              arith,
              rw (here, other) at h,
              no_other tenant id rows (subst (λ k. All (λ b. (b.id == k) ≡ false) rows) same d.0),
            ))
    ]
    | inr there ↦ (
      λ e. absurd (ground (arith, e, there)),
      owner-of tenant id rows d.1 (ground (arith, there, h)),
    )
  ]

  patch-IsOwn :
      (tenant id : ℕ) (p : AssistantPatch) (s : Setup Num) (a : AssistantRow)
      → owns js s tenant (or_else p.questionnaire_id none) ≡ true
      → a.tenant_id ≡ tenant
      → IsOwn s.questionnaires a
      → IsOwn s.questionnaires (patched js p a)
  patch-IsOwn tenant id p s a o e h = elim (Option-cases p.questionnaire_id) [
    | inl kept ↦ rw kept h
    | inr (q, given) ↦ elim (Option-cases q) [
      | inl cleared ↦ rw (given, cleared) tt
      | inr (k, linked) ↦ rw (given, linked, e) (rw (given, linked) at o)
    ]
  ]

  patch-All :
      (tenant id : ℕ) (p : AssistantPatch) (s : Setup Num) (rows : List AssistantRow)
      → owns js s tenant (or_else p.questionnaire_id none) ≡ true
      → All (λ a. (a.id == id) ≡ true → a.tenant_id ≡ tenant) rows
      → All (IsOwn s.questionnaires) rows
      → All (IsOwn s.questionnaires) (patch_assistants js id p rows)
  unfolding patch_assistants
  patch-All tenant id p s [] o t h = tt
  patch-All tenant id p s (a ∷ rows) o t h = elim (Bool-cases (a.id == id)) [
    | inl here ↦
        rw here
          (patch-IsOwn tenant id p s a o (t.0 here) h.0, patch-All tenant id p s rows o t.1 h.1)
    | inr there ↦ rw there (h.0, patch-All tenant id p s rows o t.1 h.1)
  ]

  -- A patch keeps the ids.
  patch-ids :
      (Q : ℕ → Type 0) (id : ℕ) (p : AssistantPatch) (rows : List AssistantRow)
      → All (λ a. Q a.id) rows
      → All (λ a. Q a.id) (patch_assistants js id p rows)
  unfolding patch_assistants
  patch-ids Q id p [] h = tt
  patch-ids Q id p (a ∷ rows) h = elim (Bool-cases (a.id == id)) [
    | inl here ↦ rw here (h.0, patch-ids Q id p rows h.1)
    | inr there ↦ rw there (h.0, patch-ids Q id p rows h.1)
  ]

  patch-IsDistinct :
      (id : ℕ) (p : AssistantPatch) (rows : List AssistantRow)
      → IsDistinct rows
      → IsDistinct (patch_assistants js id p rows)
  unfolding patch_assistants
  patch-IsDistinct id p [] h = tt
  patch-IsDistinct id p (a ∷ rows) h = elim (Bool-cases (a.id == id)) [
    | inl here ↦
        rw here (patch-ids (λ k. (k == a.id) ≡ false) id p rows h.0, patch-IsDistinct id p rows h.1)
    | inr there ↦
        rw there
          (patch-ids (λ k. (k == a.id) ≡ false) id p rows h.0, patch-IsDistinct id p rows h.1)
  ]

  -- A row with a new id stays distinct at the end.
  append-IsDistinct :
      (rows : List AssistantRow) (a : AssistantRow)
      → All (λ b. b.id < a.id) rows
      → IsDistinct rows
      → IsDistinct (rows ++ a ∷ [])
  append-IsDistinct [] a h d = (tt, tt)
  append-IsDistinct (b ∷ rows) a h d = (
    All-append (λ c. (c.id == b.id) ≡ false) rows (a ∷ []) d.0 (ground (arith, h.0), tt),
    append-IsDistinct rows a h.1 d.1,
  )
