-- ===== src/Prelude/Matches.antt =====
-- What the matchers of `Patterns` find.
use ai_phone_plattform.Prelude.Tests.{◌==◌, Bool-cases, Option-cases}
use ai_phone_plattform.Prelude.Lists.{keep, all}
use ai_phone_plattform.Prelude.Texts.{Text, starts_with, includes}
use ai_phone_plattform.Prelude.Patterns.{
  span, is_mail_char, is_domain, mail_domain, mail_user, mail_at, find_mail, is_mail,
}
use Prim.Native.Nat.{ℕ}
use mathlib.Core.Bool.{Bool, true, false}
use mathlib.Core.List.{[], ◌∷◌, ◌++◌}
use mathlib.Core.Logic.{inl, inr}
use mathlib.Core.Option.{some}
use mathlib.Core.Path.{◌≡◌, refl, subst}
use native.Mathlib.Omega.{arith}

module _ (p : ℕ → Bool) where
  -- The run that `span` takes passes the test.
  span-all : (s : Text) → all p (span p s).0 ≡ true
  span-all [] = refl
  span-all (c ∷ s) = ground (arith, span-all s)

  -- `span` takes a run that passes the test, up to a character that does not.
  span-append :
      (run : Text) (c : ℕ) (rest : Text)
      → all p run ≡ true
      → p c ≡ false
      → span p (run ++ c ∷ rest) ≡ (run, c ∷ rest)
  span-append [] c rest h k = rw k
  span-append (d ∷ run) c rest h k = ground (arith, span-append run c rest)

  span-whole : (run : Text) → all p run ≡ true → span p run ≡ (run, [])
  span-whole [] h = refl
  span-whole (d ∷ run) h = ground (arith, span-whole run)

  pub all-keep : (s : Text) → all p (keep p s) ≡ true
  all-keep [] = refl
  all-keep (c ∷ s) = ground (arith, all-keep s)

mail-whole :
    (c : ℕ) (user domain : Text)
    → all is_mail_char (c ∷ user) ≡ true
    → all is_mail_char domain ≡ true
    → is_domain domain ≡ true
    → is_mail (c ∷ user ++ b'@' ∷ domain) ≡ true
unfolding is_mail
mail-whole c user domain h k d =
    rw (span-append is_mail_char (c ∷ user) b'@' domain h refl, mail_user)
      (rw (span-whole is_mail_char domain k, mail_domain) (rw d))

mail_domain-is_mail :
    (c : ℕ) (user : Text) (d : Text × Text) {m r : Text}
    → all is_mail_char (c ∷ user) ≡ true
    → all is_mail_char d.0 ≡ true
    → mail_domain (c ∷ user) d ≡ some (m, r)
    → is_mail m ≡ true
mail_domain-is_mail c user (domain, rest) {m} h k e = elim (Bool-cases (is_domain domain)) [
  | inl d ↦
      let same : c ∷ user ++ b'@' ∷ domain ≡ m = ground (arith, d, e) in
      subst (λ t. is_mail t ≡ true) same (mail-whole c user domain h k d)
  | inr d ↦ ground arith
]

mail_user-is_mail :
    (s : Text × Text) {m r : Text}
    → all is_mail_char s.0 ≡ true
    → mail_user s ≡ some (m, r)
    → is_mail m ≡ true
mail_user-is_mail ([], rest) h e = cc
mail_user-is_mail (c ∷ user, []) h e = cc
mail_user-is_mail (c ∷ user, at ∷ rest) h e = elim (Bool-cases (at == b'@')) [
  | inl d ↦
      mail_domain-is_mail c user (span is_mail_char rest) h (span-all is_mail_char rest) (rw d at e)
  | inr d ↦ ground arith
]

mail_at-is_mail : (s : Text) {m r : Text} → mail_at s ≡ some (m, r) → is_mail m ≡ true
unfolding mail_at
mail_at-is_mail s e = mail_user-is_mail (span is_mail_char s) (span-all is_mail_char s) e

-- What the search for a mail address finds is one.
pub find_mail-is_mail : (s : Text) {m : Text} → find_mail s ≡ some m → is_mail m ≡ true
unfolding find_mail
find_mail-is_mail [] e = cc
find_mail-is_mail (c ∷ s) {m} e = elim (Option-cases (mail_at (c ∷ s))) [
  | inl missed ↦ find_mail-is_mail s (ground arith)
  | inr ((found, rest), here) ↦
      let same : found ≡ m = ground arith in
      subst (λ t. is_mail t ≡ true) same (mail_at-is_mail (c ∷ s) here)
]

starts_with-append : (u w s : Text) → starts_with (u ++ w) s ≡ true → includes w s ≡ true
starts_with-append [] [] [] h = refl
starts_with-append [] (b ∷ w) [] h = cc
starts_with-append [] w (c ∷ s) h = rw h
starts_with-append (a ∷ u) w [] h = cc
starts_with-append (a ∷ u) w (c ∷ s) h = ground (arith, starts_with-append u w s)

-- A text that includes a phrase includes what the phrase ends in.
pub includes-append : (u w s : Text) → includes (u ++ w) s ≡ true → includes w s ≡ true
includes-append u w [] h = starts_with-append u w [] h
includes-append u w (c ∷ s) h = elim (Bool-cases (starts_with (u ++ w) (c ∷ s))) [
  | inl here ↦ starts_with-append u w (c ∷ s) here
  | inr later ↦ ground (arith, includes-append u w s (rw later at h))
]
