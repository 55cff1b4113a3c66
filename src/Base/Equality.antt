-- ===== src/Base/Equality.antt =====
-- Equality of comparable Go types, as an interface.
use text.Mathlib.Text.{◌==◌ as str_eq}
use text.Mathlib.TextEquality.{eq_iff}
use Prim.Native.Nat.{ℕ}
use Prim.Native.String.{String}
use mathlib.Core.Bool.{Bool, true}
use mathlib.Core.Logic.{◌↔◌}
use mathlib.Core.Path.{◌≡◌, refl}
use cloud_agent_platform.Base.Tests.{nat_beq, nat_beq_iff}

-- Go's constraint `comparable`: the test, and that it decides equality.
pub record Comparable {ℓ} (C : Type ℓ) : Type ℓ where
  pub same : C → C → Bool
  pub same_iff : (x y : C) → (same x y ≡ true) ↔ (x ≡ y)

instance abbrev pub string_comparable : Comparable String
string_comparable = record { same_iff = eq_iff; same = str_eq }

instance abbrev pub nat_comparable : Comparable ℕ
nat_comparable = record { same_iff = nat_beq_iff; same = nat_beq }

module _ {ℓ} {C : Type ℓ} ⦃c : Comparable C⦄ where
  infix 45 ◌==◌
  abbrev pub ◌==◌ : C → C → Bool
  x == y = c.same x y

  -- The test at a value and itself.
  pub same_self : (x : C) → c.same x x ≡ true
  same_self x = (c.same_iff x x).1 refl
