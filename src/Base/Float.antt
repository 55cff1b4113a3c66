-- ===== src/Base/Float.antt =====
-- float64 values and the operations on them that the code uses. What they compute is not modelled:
-- a development that uses them holds for any such operations.
use cloud_agent_platform.Base.Tests.{leb, ltb, nat_beq, if◌then◌else◌}
use Prim.Native.Nat.{ℕ, ◌+◌, ◌-◌, ◌*◌, ◌/◌}
use mathlib.Core.Bool.{Bool}

pub record Float : Type 1 where
  pub F : Type 0
  -- `float64(n)` of an int64.
  pub of_int : ℕ → F
  -- A float64 by its bit pattern.
  pub of_bits : ℕ → F
  -- `int(x)` of a value that is not negative.
  pub truncate : F → ℕ
  pub add : F → F → F
  pub subtract : F → F → F
  pub multiply : F → F → F
  pub divide : F → F → F
  pub maximum : F → F → F
  -- `a <= b`, `a > b` and `a == b`
  pub at_most : F → F → Bool
  pub greater : F → F → Bool
  pub equal : F → F → Bool

-- Whole hundredths, rounded down: a value to run the code with.
abbrev pub hundredths : Float
hundredths = record {
  F = ℕ;
  of_int = λ n. n * 100;
  of_bits = λ n. n;
  truncate = λ n. n / 100;
  add = λ a b. a + b;
  subtract = λ a b. a - b;
  multiply = λ a b. a * b / 100;
  divide = λ a b. a * 100 / b;
  maximum = λ a b. if ltb a b then b else a;
  at_most = leb;
  greater = λ a b. ltb b a;
  equal = nat_beq;
}
