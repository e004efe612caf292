-- ===== src/Setup/Owned/Served.antt =====
-- The requests on questionnaires and assistants, and the invariant that they keep.
use ai_phone_plattform.Prelude.{
  ℕ, suc, ◌≡◌, ◌<◌, ◌∙◌, String, arith, true, not, Option, none, some, or_else, List, Text, codes,
  any, All-map, All-append, any-append, any-last,
}
use ai_phone_plattform.Js.{Js}
use ai_phone_plattform.Schemas.{valid_questionnaire}
use ai_phone_plattform.Access.{RequestAuth, require_capability, guarded-keeps, branch-keeps}
use ai_phone_plattform.Setup.{
  Setup, QuestionnaireBody, AssistantBody, AssistantPatch, is_own_questionnaire, is_own_assistant,
  owns, added_questionnaire, added_assistant, create_questionnaire, created_questionnaire,
  replace_questions, update_questionnaire, updated_questionnaire, create_assistant,
  created_assistant, patch_assistants, update_assistant, updated_assistant, valid_settings,
}
use ai_phone_plattform.Setup.Starter.{
  create_starter_content, starter_body, starter_assistant, starter_questions-valid,
}
use ai_phone_plattform.Setup.Owned.{
  Links, IsOwn, IsAccepted, IsSound, any-replace, IsOwn-move, replace-accepted, owner-of, patch-All,
  patch-ids, patch-IsDistinct, append-IsDistinct,
}

module _ (js : Js) where
  open js use {Num}

  added_questionnaire-IsSound :
      (tenant : ℕ) (body : QuestionnaireBody Num) (s : Setup Num)
      → valid_questionnaire js body.name body.questions ≡ true
      → IsSound js s
      → IsSound js (added_questionnaire js tenant body s).1
  added_questionnaire-IsSound tenant body s v h = record {
    accepted = All-append (IsAccepted js) s.questionnaires _ h.accepted (v, tt);
    owned =
        All-map (IsOwn js s.questionnaires) _ s.assistants
          (λ a o.
            IsOwn-move js s.questionnaires _ a
              (λ t k e. any-append (is_own_questionnaire js t k) s.questionnaires _ e) o)
          h.owned;
    distinct = h.distinct;
    below = All-map (λ a. a.id < s.next_id) _ s.assistants (λ a o. omega arith) h.below;
  }

  added_assistant-IsSound :
      (tenant : ℕ) (body : AssistantBody) (s : Setup Num)
      → owns js s tenant body.questionnaire_id ≡ true
      → IsSound js s
      → IsSound js (added_assistant js tenant body s).1
  added_assistant-IsSound tenant body s o h = record {
    accepted = h.accepted;
    owned =
        All-append (IsOwn js s.questionnaires) s.assistants _ h.owned
          (linked body.questionnaire_id o, tt);
    distinct = append-IsDistinct js s.assistants _ h.below h.distinct;
    below =
        All-append (λ a. a.id < suc s.next_id) s.assistants _
          (All-map (λ a. a.id < s.next_id) _ s.assistants (λ a b. omega arith) h.below)
          (omega arith, tt);
  }
    where
      linked : (q : Option ℕ) → owns js s tenant q ≡ true → Links js s.questionnaires tenant q
      linked none e = tt
      linked (some id) e = e

  module _ (s : Setup Num) (h : IsSound js s) where
    replaced-IsSound :
        (id : ℕ) (body : QuestionnaireBody Num)
        → valid_questionnaire js body.name body.questions ≡ true
        → IsSound js (record s { questionnaires = replace_questions js id body s.questionnaires })
    replaced-IsSound id body v = record {
      accepted = replace-accepted js id body s.questionnaires v h.accepted;
      owned =
          All-map (IsOwn js s.questionnaires) _ s.assistants
            (λ a o.
              IsOwn-move js s.questionnaires _ a
                (λ t k e. any-replace js t k id body s.questionnaires ∙ e) o)
            h.owned;
      distinct = h.distinct;
      below = h.below;
    }

    patched-IsSound :
        (tenant id : ℕ) (p : AssistantPatch)
        → any (is_own_assistant js tenant id) s.assistants ≡ true
        → owns js s tenant (or_else p.questionnaire_id none) ≡ true
        → IsSound js (record s { assistants = patch_assistants js id p s.assistants })
    patched-IsSound tenant id p own o = record {
      accepted = h.accepted;
      owned =
          patch-All js tenant id p s s.assistants o
            (owner-of js tenant id s.assistants h.distinct own) h.owned;
      distinct = patch-IsDistinct js id p s.assistants h.distinct;
      below = patch-ids js (λ k. k < s.next_id) id p s.assistants h.below;
    }

    -- Audits are no part of the invariant.
    unchanged :
        (t : Setup Num) → IsSound js t → (a : List String) → IsSound js (record t { audits = a })
    unchanged t k a = record {
      accepted = k.accepted;
      owned = k.owned;
      distinct = k.distinct;
      below = k.below;
    }

  -- One request, or the start of a new tenant.
  pub data IsServed (s : Setup Num) : Setup Num → Type 0 where
    creates_questionnaire :
        (auth : Option RequestAuth) (body : QuestionnaireBody Num)
        → IsServed s (create_questionnaire js auth body s).1
    updates_questionnaire :
        (auth : Option RequestAuth) (id : ℕ) (body : QuestionnaireBody Num)
        → IsServed s (update_questionnaire js auth id body s).1
    creates_assistant :
        (auth : Option RequestAuth) (body : AssistantBody)
        → IsServed s (create_assistant js auth body s).1
    updates_assistant :
        (auth : Option RequestAuth) (id : ℕ) (patch : AssistantPatch)
        → IsServed s (update_assistant js auth id patch s).1
    starts :
        (system_prompt : Text) (tenant : ℕ)
        → IsServed s (create_starter_content js system_prompt tenant s).1

  pub starts-IsSound :
      (system_prompt : Text) (tenant : ℕ) (s : Setup Num)
      → IsSound js s
      → IsSound js (create_starter_content js system_prompt tenant s).1
  unfolding create_starter_content
  starts-IsSound system_prompt tenant s h =
      let s' = (added_questionnaire js tenant (starter_body js system_prompt) s).1 in
      added_assistant-IsSound tenant (starter_assistant js system_prompt s.next_id) s'
        (any-last (is_own_questionnaire js tenant s.next_id) s.questionnaires _ (ground arith))
        (added_questionnaire-IsSound tenant (starter_body js system_prompt) s
          (starter_questions-valid js system_prompt) h)

  -- Whatever request on questionnaires and assistants is served, every stored questionnaire is one that
  -- the schema accepts, and every assistant has a questionnaire of its own tenant or none.
  pub IsServed-IsSound : {s t : Setup Num} → IsServed s t → IsSound js s → IsSound js t
  unfolding create_questionnaire update_questionnaire create_assistant update_assistant
      create_starter_content
  IsServed-IsSound {s} (creates_questionnaire auth body) h =
      guarded-keeps (IsSound js) (created_questionnaire js body)
        (require_capability (codes "questionnaire:write") auth) s h
        λ a.
          branch-keeps (IsSound js) (valid_questionnaire js body.name body.questions) _ _
            (λ v. unchanged s h _ (added_questionnaire-IsSound a.tenant_id body s v h) _) (λ v. h)
  IsServed-IsSound {s} (updates_questionnaire auth id body) h =
      guarded-keeps (IsSound js) (updated_questionnaire js id body)
        (require_capability (codes "questionnaire:write") auth) s h
        λ a.
          branch-keeps (IsSound js) (not (valid_questionnaire js body.name body.questions)) _ _
            (λ v. h)
            (λ v.
              branch-keeps (IsSound js)
                (any (is_own_questionnaire js a.tenant_id id) s.questionnaires) _ _
                (λ o. unchanged s h _ (replaced-IsSound s h id body (ground arith)) _) (λ o. h))
  IsServed-IsSound {s} (creates_assistant auth body) h =
      guarded-keeps (IsSound js) (created_assistant js body)
        (require_capability (codes "tenant:write") auth) s h
        λ a.
          branch-keeps (IsSound js) (not (valid_settings js body.settings)) _ _ (λ v. h)
            (λ v.
              branch-keeps (IsSound js) (owns js s a.tenant_id body.questionnaire_id) _ _
                (λ o. unchanged s h _ (added_assistant-IsSound a.tenant_id body s o h) _) (λ o. h))
  IsServed-IsSound {s} (updates_assistant auth id patch) h =
      guarded-keeps (IsSound js) (updated_assistant js id patch)
        (require_capability (codes "tenant:write") auth) s h
        λ a.
          branch-keeps (IsSound js) (not (any (is_own_assistant js a.tenant_id id) s.assistants)) _
            _ (λ v. h)
            (λ v.
              branch-keeps (IsSound js)
                (owns js s a.tenant_id (or_else patch.questionnaire_id none)) _ _
                (λ o. unchanged s h _ (patched-IsSound s h a.tenant_id id patch (ground arith) o) _)
                (λ o. h))
  IsServed-IsSound {s} (starts system_prompt tenant) h = starts-IsSound system_prompt tenant s h
