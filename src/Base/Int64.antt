-- ===== src/Base/Int64.antt =====
-- An int64 is kept as its bit pattern, a number below 2 ^ 64.
use Prim.Native.Nat.{ℕ, ◌+◌, ◌-◌, ◌*◌, ◌%◌, ◌<◌}
use mathlib.Core.Path.{◌≡◌}
use mathlib.Core.Bool.{Bool}
use native.Mathlib.Omega.{arith}
use cloud_agent_platform.Base.Tests.{ltb, leb}

abbrev pub modulus : ℕ
modulus = 18446744073709551616

abbrev pub sign_bit : ℕ
sign_bit = 9223372036854775808

-- `x++`
abbrev pub inc : ℕ → ℕ
inc n = (n + 1) % modulus

-- Signed `a < b`.
abbrev pub slt : ℕ → ℕ → Bool
slt a b = ltb ((a + sign_bit) % modulus) ((b + sign_bit) % modulus)

-- Signed `a <= b`.
abbrev pub sle : ℕ → ℕ → Bool
sle a b = leb ((a + sign_bit) % modulus) ((b + sign_bit) % modulus)

-- `a - b` and `a * b`
abbrev pub sub : ℕ → ℕ → ℕ
sub a b = (a + modulus - b) % modulus

abbrev pub mul : ℕ → ℕ → ℕ
mul a b = a * b % modulus

-- A pattern that stands for a number at least 0.
abbrev pub IsNonneg : ℕ → Type 0
IsNonneg n = n < sign_bit

pub slt_small : (a b : ℕ) → IsNonneg a → IsNonneg b → slt a b ≡ ltb a b
slt_small a b h k = ground arith

pub sle_small : (a b : ℕ) → IsNonneg a → IsNonneg b → sle a b ≡ leb a b
sle_small a b h k = ground arith

-- What grind needs to read signed tests of numbers below the sign bit.
pub ruleset int64_laws = (arith, slt_small, sle_small)
