-- ===== src/Questionnaire/Normalize/Words.antt =====
-- How packages/shared/src/questionnaire-engine.ts reads a negated phrase.
use ai_phone_plattform.Prelude.{
  ◌≡◌, ◌⊎◌, inl, inr, true, some, Text, arith, codes, includes, includes-append, Bool-cases,
}
use ai_phone_plattform.Js.{Js, bool}
use ai_phone_plattform.Questionnaire.Normalize.{
  mentions, yes_words, urgency_now, urgency_high, accepted, normalize_yes_no, parse_urgency,
}

korrekt-mentions : (s : Text) → includes (codes "korrekt") s ≡ true → mentions yes_words s ≡ true
unfolding mentions
korrekt-mentions s h = ground arith

dringend-mentions :
    (s : Text) → includes (codes "dringend") s ≡ true → mentions urgency_high s ≡ true
unfolding mentions
dringend-mentions s h = ground arith

module _ (js : Js) where
  open js use {of_nat, tenths}

  -- Any answer that contains "nicht korrekt" is stored as a yes.
  pub negated_yes :
      (s : Text)
      → includes (codes "nicht korrekt") s ≡ true
      → normalize_yes_no js s ≡ accepted (bool true)
  unfolding normalize_yes_no
  negated_yes s h = rw (korrekt-mentions s (includes-append (codes "nicht ") (codes "korrekt") s h))

  -- Any text that contains "nicht dringend" scores as very urgent or urgent.
  pub negated_urgency :
      (s : Text)
      → includes (codes "nicht dringend") s ≡ true
      → (parse_urgency js s ≡ some (of_nat 1)) ⊎ (parse_urgency js s ≡ some (tenths 8))
  unfolding parse_urgency
  negated_urgency s h = elim (Bool-cases (mentions urgency_now s)) [
    | inl now ↦ inl (rw now)
    | inr later ↦
        inr (
          rw (later, dringend-mentions s (includes-append (codes "nicht ") (codes "dringend") s h)))
  ]
