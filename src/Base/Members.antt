-- ===== src/Base/Members.antt =====
-- Membership in a list, as a test.
use mathlib.Core.Path.{◌≡◌, refl}
use mathlib.Core.Bool.{Bool, false, ◌||◌}
use mathlib.Core.List.{List, [], ◌∷◌, ◌++◌}
use native.Mathlib.Omega.{arith}
use cloud_agent_platform.Base.Equality.{Comparable, ◌==◌}

module _ {ℓ} {A : Type ℓ} ⦃eq : Comparable A⦄ where
  unfoldable pub contains : A → List A → Bool
  contains e [] = false
  contains e (x ∷ xs) = x == e || contains e xs

  pub contains-append :
      (e : A) (xs ys : List A) → contains e (xs ++ ys) ≡ (contains e xs || contains e ys)
  unfolding contains
  contains-append e [] ys = refl
  contains-append e (x ∷ xs) ys = ground (arith, contains-append e xs ys)

  -- No element stands twice.
  abbrev pub IsDistinct : List A → Type 0
  IsDistinct [] = Unit
  IsDistinct (x ∷ xs) = (contains x xs ≡ false) × IsDistinct xs

  pub IsDistinct-snoc :
      (xs : List A) (e : A) → IsDistinct xs → contains e xs ≡ false → IsDistinct (xs ++ e ∷ [])
  unfolding contains
  IsDistinct-snoc [] e d h = (refl, tt)
  IsDistinct-snoc (x ∷ xs) e d h = (
    ground (arith, contains-append x xs (e ∷ []), eq.same_iff x e, eq.same_iff e x),
    IsDistinct-snoc xs e d.1 (ground arith),
  )
