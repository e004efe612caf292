-- ===== src/Exec.antt =====
-- Asynchronous functions that read and write the rows of a call and may throw. What was written
-- before an error stays written, so the world comes back beside the error too.
pub mod Fixes
use ai_phone_plattform.Prelude.{ℕ, Bool, true, false, List, [], ◌∷◌, if◌then◌else◌}
use ai_phone_plattform.World.{World, Call}

pub data Outcome {ℓ} (A : Type ℓ) : Type ℓ where
  ok : A → Outcome A
  threw : Outcome A

abbrev pub Exec : Type 0 → Type 0 → Type 0
Exec N A = World N → Outcome A × World N

module _ {N : Type 0} where
  abbrev pub continue : {A B : Type 0} → Outcome A × World N → (A → Exec N B) → Outcome B × World N
  continue (ok a, w) f = f a w
  continue (threw, w) f = (threw, w)

  infixl 5 ◌>>=◌ ◌>>◌
  abbrev pub ◌>>=◌ : {A B : Type 0} → Exec N A → (A → Exec N B) → Exec N B
  ◌>>=◌ m f w = continue (m w) f

  abbrev pub ◌>>◌ : {B : Type 0} → Exec N (Unit {0}) → Exec N B → Exec N B
  m >> k = m >>= λ _. k

  abbrev pub pure : {A : Type 0} → A → Exec N A
  pure a w = (ok a, w)

  abbrev pub raise : {A : Type 0} → Exec N A
  raise w = (threw, w)

  abbrev pub modify : (World N → World N) → Exec N (Unit {0})
  modify f w = (ok tt, f w)

  -- `prisma.call.update`
  abbrev pub update_call : (Call N → Call N) → Exec N (Unit {0})
  update_call f = modify (λ w. record w { call = f w.call })

  abbrev pub gets : {A : Type 0} → (World N → A) → Exec N A
  gets f w = (ok (f w), w)

  abbrev pub when : Bool → Exec N (Unit {0}) → Exec N (Unit {0})
  when b m w = if b then m w else (ok tt, w)

  -- a call that cannot throw, and its result
  abbrev pub lift : {A : Type 0} → (World N → A × World N) → Exec N A
  lift f w = let (a, w') = f w in (ok a, w')
