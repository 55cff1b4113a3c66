-- ===== src/Retry/Examples.antt =====
-- The theorems of the retry loop at concrete calls.
use cloud_agent_platform.Base.{ℕ, zero, suc, ◌+◌, ◌<◌, ◌≡◌, refl, String, arith}
use cloud_agent_platform.Retry.{RetryConfig, Round, succeeded, do_with_retry}
use cloud_agent_platform.Retry.Loop.{failing, succeeding, do_with_retry-succeeds}

abbrev three_attempts : RetryConfig
three_attempts = record {
  max_attempts = 3;
  initial_delay_ms = 100;
  max_delay_ms = 1000;
  multiplier = 4611686018427387904;
  jitter_percent = 0;
}

-- Two overloads, and then an answer.
abbrev recovers : ℕ → Round
recovers zero = failing "overloaded" 0
recovers (suc zero) = failing "overloaded" 100
recovers (suc (suc _)) = succeeding

abbrev overloaded : ℕ → Round
overloaded i = failing "overloaded" i

abbrev message : ℕ → String
message _ = "overloaded"

abbrev wait : ℕ → ℕ
wait zero = 0
wait (suc _) = 100

abbrev same : ℕ → ℕ
same i = i

first_two : (i : ℕ) → i < 2 → recovers i ≡ failing (message i) (wait i)
first_two zero h = refl
first_two (suc zero) h = refl
first_two (suc (suc i)) h = absurd (omega arith)

all_fail : (i : ℕ) → i < 2 + 1 → overloaded i ≡ failing (message i) (same i)
all_fail i h = refl

do_with_retry-succeeds_example : do_with_retry three_attempts recovers ≡ (succeeded, 2 + 1)
do_with_retry-succeeds_example =
    do_with_retry-succeeds 2 three_attempts recovers message wait (omega arith) (omega arith)
      first_two refl

-- Without attempts the function is not called, and the loop reports a success.
never_called :
    do_with_retry (record three_attempts { max_attempts = 0 }) overloaded ≡ (succeeded, 0)
unfolding do_with_retry
never_called = refl
