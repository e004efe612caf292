-- ===== src/Lead.antt =====
-- packages/shared/src/lead-scoring.ts. The score is a natural number: the weights are, and so is the
-- `Math.round` of the urgency's share.
pub mod Laws
use ai_phone_plattform.Prelude.{
  ℕ, ◌+◌, ◌*◌, Bool, true, false, ◌&&◌, ◌||◌, Option, none, some, List, [], ◌∷◌, ◌++◌, String, leb,
  ltb, or_else, if◌then◌else◌,
}
use ai_phone_plattform.Js
use ai_phone_plattform.Js.{Js}
use ai_phone_plattform.Types.{LeadCategory, lead_a, lead_b, lead_c, Say, lit, txt}

pub record LeadSignals (N : Type 0) : Type 0 where
  pub has_email : Bool
  pub has_phone : Bool
  pub has_name : Bool
  pub urgency : Option N
  pub wants_callback : Bool
  pub has_budget : Bool
  pub has_concrete_need : Bool

pub record LeadScore : Type 0 where
  pub category : LeadCategory
  pub score : ℕ
  pub reasons : List Say

-- `add` of `scoreLead`, under the test in front of it
unfoldable pub add_if : Bool → ℕ → Say → ℕ × List Say → ℕ × List Say
add_if test points reason (score, reasons) =
    if test then (score + points, reasons ++ reason ∷ []) else (score, reasons)

module _ (js : Js) where
  open js use {Num, of_nat, tenths, le, mul, round, to_nat, to_fixed}

  -- `signals.urgency !== null && signals.urgency > 0`
  abbrev pub is_urgent : Option Num → Bool
  is_urgent none = false
  is_urgent (some u) = Js.lt js (of_nat 0) u

  -- the points that a positive urgency brings
  unfoldable pub urgency_points : Option Num → ℕ
  urgency_points none = 0
  urgency_points (some u) =
      to_nat (round (mul (of_nat 25) (Js.min js (of_nat 1) (Js.max js (of_nat 0) u))))

  abbrev pub urgency_reason : Option Num → Say
  urgency_reason none = []
  urgency_reason (some u) = lit "urgency " ∷ txt (to_fixed 0 (mul u (of_nat 100))) ∷ lit "%" ∷ []

  -- `(signals.urgency ?? 0) >= 0.6`
  abbrev pub high_urgency : Option Num → Bool
  high_urgency urgency = le (tenths 6) (or_else urgency (of_nat 0))

  abbrev pub contact_complete : LeadSignals Num → Bool
  contact_complete s = s.has_phone && (s.has_email || s.has_name)

  -- the calls of `add`, in order
  unfoldable pub score_points : LeadSignals Num → ℕ × List Say
  score_points s =
      let pts = urgency_points s.urgency in
      add_if (is_urgent s.urgency && ltb 0 pts) pts (urgency_reason s.urgency) (
        add_if s.has_budget 10 (lit "budget indicated" ∷ []) (
          add_if s.wants_callback 15 (lit "callback/appointment requested" ∷ []) (
            add_if s.has_name 10 (lit "name provided" ∷ []) (
              add_if s.has_phone 15 (lit "phone available" ∷ []) (
                add_if s.has_email 15 (lit "email provided" ∷ [])
                  (add_if s.has_concrete_need 20 (lit "concrete need captured" ∷ []) (0, [])))))))

  abbrev pub categorize : LeadSignals Num → ℕ → LeadCategory
  categorize s score =
      if s.has_concrete_need && (contact_complete s && (high_urgency s.urgency || s.wants_callback))
      then lead_a
      else if s.has_concrete_need || contact_complete s && leb 30 score
      then lead_b
      else lead_c

  unfoldable pub score_lead : LeadSignals Num → LeadScore
  unfolding score_points
  score_lead s =
      let (score, reasons) = score_points s in
      record { category = categorize s score; score = score; reasons = reasons }

  -- `urgency !== null && urgency >= 0.8`
  abbrev is_immediate : Option Num → Bool
  is_immediate none = false
  is_immediate (some u) = le (tenths 8) u

  unfoldable pub recommend_next_action : LeadScore → Option Num → String
  recommend_next_action score urgency = elim score.category [
    | lead_a ↦
        if is_immediate urgency
        then "Sofort zurückrufen (heute, hohe Dringlichkeit)."
        else "Innerhalb von 24 Stunden zurückrufen und Angebot vorbereiten."
    | lead_b ↦ "In den nächsten 2-3 Werktagen kontaktieren, Bedarf qualifizieren."
    | lead_c ↦ "Niedrige Priorität: bei Kapazität nachfassen oder Infomaterial senden."
  ]
