-- ===== src/Base/Maps.antt =====
-- Go maps as functions, and integers that count.
use Prim.Native.Nat.{ℕ, zero, suc}
use mathlib.Core.Bool.{Bool, true, false}
use cloud_agent_platform.Base.Tests.{if◌then◌else◌}
use cloud_agent_platform.Base.Equality.{Comparable, ◌==◌}

-- `m[k] = v`
abbrev pub update {ℓ κ} : {K : Type ℓ} {V : Type κ} ⦃c : Comparable K⦄ → (K → V) → K → V → K → V
update m k v x = if k == x then v else m x

-- `negsuc n` is -(n + 1).
pub data ℤ : Type 0 where
  pos : ℕ → ℤ
  negsuc : ℕ → ℤ

-- `n++`
abbrev pub up : ℤ → ℤ
up (pos n) = pos (suc n)
up (negsuc zero) = pos 0
up (negsuc (suc n)) = negsuc n

-- `n--`
abbrev pub down : ℤ → ℤ
down (pos zero) = negsuc 0
down (pos (suc n)) = pos n
down (negsuc n) = negsuc (suc n)

-- `n == 0`
abbrev pub is_zero : ℤ → Bool
is_zero (pos zero) = true
is_zero (pos (suc n)) = false
is_zero (negsuc n) = false
