-- ===== src/Questionnaire/Next.antt =====
-- What `nextQuestion` and `isComplete` of packages/shared/src/questionnaire-engine.ts decide.
use mathlib.Core.List.{Memᴰ}
use ai_phone_plattform.Prelude.{
  ◌≤◌, ◌≡◌, Bool, true, false, ◌&&◌, none, some, List, [], ◌∷◌, arith, Bool-cases, Option-cases,
  All-zip, inl, inr, All, find, find-eq-some, find-eq-none, find-All, all, keep, refl, ◌↔◌, All-map,
  All-own, subst,
}
use ai_phone_plattform.Js.{Js}
use ai_phone_plattform.Types.{Question}
use ai_phone_plattform.Questionnaire.{
  AnswerMap, own_answer, is_inherited, is_answered, is_question_active, is_open, next_question,
  is_complete, sort_by_order,
}
use ai_phone_plattform.Questionnaire.Order.{IsOrdered, sort-IsOrdered, All-sort, All-sort_back}

-- `q` is a question of the list that has no entry in the answers and is active, and no such question
-- comes before it in the order.
pub record IsNext (js : Js) (qs : List (Question js.Num)) (answers : AnswerMap js.Num)
    (q : Question js.Num) : Type 0 where
  pub listed : Memᴰ q qs
  pub unanswered : own_answer answers q.key ≡ none
  pub active : is_question_active js q answers ≡ true
  pub first :
      All
        (λ r.
          own_answer answers r.key ≡ none
          → is_question_active js r answers ≡ true
          → q.order ≤ r.order)
        qs

module _ (js : Js) where
  open js use {Num}

  find-first :
      (p : Question Num → Bool) (qs : List (Question Num)) {q : Question Num}
      → IsOrdered qs
      → find p qs ≡ some q
      → All (λ r. p r ≡ true → q.order ≤ r.order) qs
  find-first p [] h e = tt
  find-first p (r ∷ qs) {q} h e = elim (Bool-cases (p r)) [
    | inl here ↦
        let same : r ≡ q = ground arith in
        subst (λ s. All (λ r. p r ≡ true → s.order ≤ r.order) (r ∷ qs)) same
          ((λ _. omega arith), All-map _ _ qs (λ s below _. below) h.0)
    | inr other ↦ ((λ yes'. cc), find-first p qs h.1 (rw other at e))
  ]

  -- An open question has no entry.
  open-unanswered :
      (answers : AnswerMap Num) (q : Question Num)
      → is_answered answers q ≡ false
      → own_answer answers q.key ≡ none
  open-unanswered answers q h = elim (Option-cases (own_answer answers q.key)) [
    | inl none' ↦ none'
    | inr (a, found) ↦ absurd (ground (arith, rw found at h))
  ]

  -- A question without an entry is not answered, unless its key is inherited.
  unanswered-open :
      (answers : AnswerMap Num) (q : Question Num)
      → is_inherited q.key ≡ false
      → own_answer answers q.key ≡ none
      → is_answered answers q ≡ false
  unanswered-open answers q i h = rw (h, i) refl

  -- If no question and no answer has the name of an inherited property for its key, the question that
  -- is asked next is listed, unanswered and active, and is first in the order among the questions that are unanswered
  -- and active. Unanswered means that the answers have no entry of the question's key.
  pub next_question-IsNext :
      (qs : List (Question Num)) (answers : AnswerMap Num) (q : Question Num)
      → All (λ r. is_inherited r.key ≡ false) qs
      → All (λ e. is_inherited e.0 ≡ false) answers
      → next_question js qs answers ≡ some q
      → IsNext js qs answers q
  unfolding next_question
  next_question-IsNext qs answers q plain own e =
      let open' = find-eq-some (is_open js answers) (sort_by_order qs) e in
      record {
        listed =
            find-All (is_open js answers) (λ r. Memᴰ r qs) (sort_by_order qs)
              (All-sort (λ r. Memᴰ r qs) qs (All-own qs)) e;
        unanswered = open-unanswered answers q (ground arith);
        active = ground arith;
        first =
            All-zip _ _ _ qs
              (λ r key least none' active'.
                least (ground (arith, active', unanswered-open answers r key none')))
              plain
              (All-sort_back _ qs
                (find-first (is_open js answers) (sort_by_order qs) (sort-IsOrdered qs) e));
      }

  answered_of_closed :
      (qs : List (Question Num)) (answers : AnswerMap Num)
      → All (λ q. is_open js answers q ≡ false) qs
      → all (is_answered answers) (keep (λ q. q.required && is_question_active js q answers) qs)
        ≡ true
  answered_of_closed [] answers h = refl
  answered_of_closed (q ∷ qs) answers h = ground (arith, answered_of_closed qs answers h.1)

  find-none :
      (p : Question Num → Bool) (qs : List (Question Num))
      → All (λ q. p q ≡ false) qs
      → find p qs ≡ none
  find-none p [] h = refl
  find-none p (q ∷ qs) h = rw h.0 (find-none p qs h.1)

  -- No question is left exactly when each one is answered or inactive.
  next_question-eq-none_iff :
      (qs : List (Question Num)) (answers : AnswerMap Num)
      → (next_question js qs answers ≡ none) ↔ All (λ q. is_open js answers q ≡ false) qs
  unfolding next_question
  next_question-eq-none_iff qs answers = (
    λ e. All-sort_back _ qs (find-eq-none (is_open js answers) (sort_by_order qs) e),
    λ h. find-none (is_open js answers) (sort_by_order qs) (All-sort _ qs h),
  )

  -- When no question is left, every active required question is answered.
  pub next_question-is_complete :
      (qs : List (Question Num)) (answers : AnswerMap Num)
      → next_question js qs answers ≡ none
      → is_complete js qs answers ≡ true
  unfolding is_complete
  next_question-is_complete qs answers e =
      answered_of_closed qs answers ((next_question-eq-none_iff qs answers).0 e)
