-- ===== src/Questionnaire/Order.antt =====
-- `sort_by_order` sorts, and keeps the questions.
use ai_phone_plattform.Prelude.{◌≤◌, List, [], ◌∷◌, arith, leb, Bool-cases, inl, inr, All}
use ai_phone_plattform.Types.{Question}
use ai_phone_plattform.Questionnaire.{insert_by_order, sort_by_order}

module _ {N : Type 0} where
  -- Each question comes no later than those behind it.
  abbrev pub IsOrdered : List (Question N) → Type 0
  IsOrdered [] = Unit
  IsOrdered (q ∷ qs) = All (λ r. q.order ≤ r.order) qs × IsOrdered qs

module _ {N : Type 0} (P : Question N → Type 0) where
  All-insert :
      (q : Question N) (qs : List (Question N)) → P q → All P qs → All P (insert_by_order q qs)
  unfolding insert_by_order
  All-insert q [] p h = (p, tt)
  All-insert q (r ∷ rs) p h = elim (Bool-cases (leb q.order r.order)) [
    | inl e ↦ rw e (p, h)
    | inr e ↦ rw e (h.0, All-insert q rs p h.1)
  ]

  pub All-sort : (qs : List (Question N)) → All P qs → All P (sort_by_order qs)
  unfolding sort_by_order
  All-sort [] h = tt
  All-sort (q ∷ qs) h = All-insert q (sort_by_order qs) h.0 (All-sort qs h.1)

  All-insert_back :
      (q : Question N) (qs : List (Question N)) → All P (insert_by_order q qs) → P q × All P qs
  unfolding insert_by_order
  All-insert_back q [] h = h
  All-insert_back q (r ∷ rs) h = elim (Bool-cases (leb q.order r.order)) [
    | inl e ↦ rw e at h
    | inr e ↦ let k = rw e at h in let (p, rest) = All-insert_back q rs k.1 in (p, (k.0, rest))
  ]

  pub All-sort_back : (qs : List (Question N)) → All P (sort_by_order qs) → All P qs
  unfolding sort_by_order
  All-sort_back [] h = tt
  All-sort_back (q ∷ qs) h =
      let (p, rest) = All-insert_back q (sort_by_order qs) h in (p, All-sort_back qs rest)

module _ {N : Type 0} where
  All-le_trans :
      (q r : Question N) (qs : List (Question N))
      → q.order ≤ r.order
      → All (λ s. r.order ≤ s.order) qs
      → All (λ s. q.order ≤ s.order) qs
  All-le_trans q r [] h k = tt
  All-le_trans q r (s ∷ qs) h k = (omega arith, All-le_trans q r qs h k.1)

  insert-IsOrdered :
      (q : Question N) (qs : List (Question N)) → IsOrdered qs → IsOrdered (insert_by_order q qs)
  unfolding insert_by_order
  insert-IsOrdered q [] h = (tt, tt)
  insert-IsOrdered q (r ∷ rs) h = elim (Bool-cases (leb q.order r.order)) [
    | inl e ↦ rw e (
        let below : q.order ≤ r.order = ground arith in ((below, All-le_trans q r rs below h.0), h))
    | inr e ↦ rw e (
        let below : r.order ≤ q.order = ground arith in
        (All-insert (λ s. r.order ≤ s.order) q rs below h.0, insert-IsOrdered q rs h.1))
  ]

  pub sort-IsOrdered : (qs : List (Question N)) → IsOrdered (sort_by_order qs)
  unfolding sort_by_order
  sort-IsOrdered [] = tt
  sort-IsOrdered (q ∷ qs) = insert-IsOrdered q (sort_by_order qs) (sort-IsOrdered qs)
