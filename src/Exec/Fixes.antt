-- ===== src/Exec/Fixes.antt =====
-- A view of the world that an action leaves alone, whether it returns or throws.
use ai_phone_plattform.Prelude.{◌≡◌, refl, ◌∙◌, Bool, true, false}
use ai_phone_plattform.World.{World}
use ai_phone_plattform.Exec.{
  Exec, Outcome, ok, threw, continue, ◌>>=◌, pure, raise, gets, when, modify,
}

pub record Fixes {N X A : Type 0} (view : World N → X) (m : Exec N A) : Type 0 where
  pub at : (w : World N) → view (m w).1 ≡ view w

module _ {N X : Type 0} (view : World N → X) where
  continue-Fixes :
      {A B : Type 0} (r : Outcome A × World N) (k : A → Exec N B)
      → ((a : A) → Fixes view (k a))
      → view (continue r k).1 ≡ view r.1
  continue-Fixes (ok a, w) k h = (h a).at w
  continue-Fixes (threw, w) k h = refl

  pub Fixes-bind :
      {A B : Type 0} (m : Exec N A) (k : A → Exec N B)
      → Fixes view m
      → ((a : A) → Fixes view (k a))
      → Fixes view (m >>= k)
  Fixes-bind m k h l = record { at = λ w. continue-Fixes (m w) k l ∙ h.at w }

  pub Fixes-pure : {A : Type 0} (a : A) → Fixes {A = A} view (pure a)
  Fixes-pure a = record { at = λ w. refl }

  pub Fixes-raise : {A : Type 0} → Fixes {A = A} view raise
  Fixes-raise = record { at = λ w. refl }

  pub Fixes-gets : {A : Type 0} (f : World N → A) → Fixes view (gets f)
  Fixes-gets f = record { at = λ w. refl }

  pub Fixes-modify :
      (f : World N → World N) → ((w : World N) → view (f w) ≡ view w) → Fixes view (modify f)
  Fixes-modify f h = record { at = h }

  pub Fixes-when : (b : Bool) (m : Exec N (Unit {0})) → Fixes view m → Fixes view (when b m)
  Fixes-when true m h = record { at = h.at }
  Fixes-when false m h = record { at = λ w. refl }
