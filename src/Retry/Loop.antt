-- ===== src/Retry/Loop.antt =====
-- How often `DoWithRetry` calls the function, and what it returns.
use mathlib.Core.Path.{subst}
use cloud_agent_platform.Base.{
  ℕ, zero, suc, ◌+◌, ◌≤◌, ◌<◌, ◌≡◌, refl, ap, ◌∙◌, inl, inr, String, true, false, Option, none,
  some, arith, if◌then◌else◌, Option-cases,
}
use cloud_agent_platform.Base.Int64.{int64_laws, IsNonneg, slt}
use cloud_agent_platform.Retry.{
  RetryConfig, CallError, retryable_error, is_retryable, should_retry, Round, succeeded, gave_up,
  retry_from, do_with_retry,
}

calls-retry_from :
    (c : RetryConfig) (at : ℕ → Round) (left attempt : ℕ) (last : Option CallError)
    → (retry_from c at left attempt last).1 ≤ left
unfolding retry_from
calls-retry_from c at zero attempt last = omega arith
calls-retry_from c at (suc left) attempt last = elim (Option-cases (at attempt).returned) [
  | inl e ↦ rw (e, retry_from) (ground arith)
  | inr (err, e) ↦
      rw (e, retry_from) (ground (arith, calls-retry_from c at left (attempt + 1) (some err)))
]

-- Whatever the function and the context answer, the function is called at most `MaxAttempts` times.
calls-do_with_retry :
    (c : RetryConfig) (at : ℕ → Round)
    → IsNonneg c.max_attempts
    → (do_with_retry c at).1 ≤ c.max_attempts
unfolding do_with_retry
calls-do_with_retry c at n =
    ground
      (arith, calls-retry_from c at (if slt 0 c.max_attempts then c.max_attempts else 0) 0 none)

-- An attempt that ends with a retryable error while the context goes on.
abbrev pub failing : String → ℕ → Round
failing message delay = record {
  done_before = false;
  returned = some (retryable_error true message);
  delay = delay;
  done_during = false;
}

abbrev pub succeeding : Round
succeeding = record { done_before = false; returned = none; delay = 0; done_during = false }

step-failing :
    (c : RetryConfig) (at : ℕ → Round) (left attempt delay : ℕ) (message : String)
    (last : Option CallError)
    → IsNonneg c.max_attempts
    → attempt + 1 < c.max_attempts
    → at attempt ≡ failing message delay
    → retry_from c at (suc left) attempt last ≡ (
      (retry_from c at left (attempt + 1) (some (retryable_error true message))).0,
      (retry_from c at left (attempt + 1) (some (retryable_error true message))).1 + 1,
    )
unfolding retry_from should_retry is_retryable
step-failing c at left attempt delay message last n l e = rw (e, retry_from) (ground arith)

step-last :
    (c : RetryConfig) (at : ℕ → Round) (left attempt delay : ℕ) (message : String)
    (last : Option CallError)
    → IsNonneg c.max_attempts
    → attempt + 1 ≡ c.max_attempts
    → at attempt ≡ failing message delay
    → retry_from c at (suc left) attempt last ≡ (gave_up (retryable_error true message), 1)
unfolding retry_from should_retry is_retryable
step-last c at left attempt delay message last n l e = rw (e, retry_from) (ground arith)

step-succeeding :
    (c : RetryConfig) (at : ℕ → Round) (left attempt : ℕ) (last : Option CallError)
    → at attempt ≡ succeeding
    → retry_from c at (suc left) attempt last ≡ (succeeded, 1)
unfolding retry_from
step-succeeding c at left attempt last e = rw (e, retry_from) refl

one_more : (k : ℕ) → k + 1 + 1 ≡ suc k + 1
one_more k = omega arith

until_success :
    (k stop : ℕ) (c : RetryConfig) (at : ℕ → Round) (left attempt : ℕ) (last : Option CallError)
    (messages : ℕ → String) (delays : ℕ → ℕ)
    → IsNonneg c.max_attempts
    → attempt + k ≡ stop
    → stop < c.max_attempts
    → k < left
    → ((i : ℕ) → i < stop → at i ≡ failing (messages i) (delays i))
    → at stop ≡ succeeding
    → retry_from c at left attempt last ≡ (succeeded, k + 1)
until_success k stop c at zero attempt last messages delays n e l r f s = absurd (omega arith)
until_success zero stop c at (suc left) attempt last messages delays n e l r f s =
    let here : stop ≡ attempt = omega arith in
    step-succeeding c at left attempt last (subst (λ i. at i ≡ succeeding) here s)
until_success (suc k) stop c at (suc left) attempt last messages delays n e l r f s =
    let err = retryable_error true (messages attempt) in
    let later =
      until_success k stop c at left (attempt + 1) (some err) messages delays n (omega arith) l
        (omega arith) f s in
    step-failing c at left attempt (delays attempt) (messages attempt) last n (omega arith)
      (f attempt (omega arith))
    ∙ ap (λ p. (p.0, p.1 + 1)) later
    ∙ ap (λ m. (succeeded, m)) (one_more k)

until_last :
    (k stop : ℕ) (c : RetryConfig) (at : ℕ → Round) (left attempt : ℕ) (last : Option CallError)
    (messages : ℕ → String) (delays : ℕ → ℕ)
    → IsNonneg c.max_attempts
    → attempt + k ≡ stop
    → stop + 1 ≡ c.max_attempts
    → k < left
    → ((i : ℕ) → i < stop + 1 → at i ≡ failing (messages i) (delays i))
    → retry_from c at left attempt last ≡ (gave_up (retryable_error true (messages stop)), k + 1)
until_last k stop c at zero attempt last messages delays n e l r f = absurd (omega arith)
until_last zero stop c at (suc left) attempt last messages delays n e l r f =
    let here : attempt ≡ stop = omega arith in
    step-last c at left attempt (delays attempt) (messages attempt) last n (omega arith)
      (f attempt (omega arith))
    ∙ ap (λ i. (gave_up (retryable_error true (messages i)), 1)) here
until_last (suc k) stop c at (suc left) attempt last messages delays n e l r f =
    let err = retryable_error true (messages attempt) in
    let later =
      until_last k stop c at left (attempt + 1) (some err) messages delays n (omega arith) l
        (omega arith) f in
    step-failing c at left attempt (delays attempt) (messages attempt) last n (omega arith)
      (f attempt (omega arith))
    ∙ ap (λ p. (p.0, p.1 + 1)) later
    ∙ ap (λ m. (gave_up (retryable_error true (messages stop)), m)) (one_more k)

all_rounds :
    (c : RetryConfig)
    → IsNonneg c.max_attempts
    → (if slt 0 c.max_attempts then c.max_attempts else 0) ≡ c.max_attempts
all_rounds c n = grind int64_laws

-- If the attempts before `stop` end with retryable errors, the one at `stop`, below the maximum,
-- succeeds, and the context goes on, then `DoWithRetry` succeeds after `stop + 1` calls.
pub do_with_retry-succeeds :
    (stop : ℕ) (c : RetryConfig) (at : ℕ → Round) (messages : ℕ → String) (delays : ℕ → ℕ)
    → IsNonneg c.max_attempts
    → stop < c.max_attempts
    → ((i : ℕ) → i < stop → at i ≡ failing (messages i) (delays i))
    → at stop ≡ succeeding
    → do_with_retry c at ≡ (succeeded, stop + 1)
unfolding do_with_retry
do_with_retry-succeeds stop c at messages delays n l f s =
    ap (λ m. retry_from c at m 0 none) (all_rounds c n)
    ∙ until_success stop stop c at c.max_attempts 0 none messages delays n (omega arith) l l f s

-- If every attempt ends with a retryable error while the context goes on, `DoWithRetry` calls the
-- function `MaxAttempts` times and returns the error of the last attempt; the maximum is `stop + 1`.
do_with_retry-exhausted :
    (stop : ℕ) (c : RetryConfig) (at : ℕ → Round) (messages : ℕ → String) (delays : ℕ → ℕ)
    → IsNonneg c.max_attempts
    → stop + 1 ≡ c.max_attempts
    → ((i : ℕ) → i < stop + 1 → at i ≡ failing (messages i) (delays i))
    → do_with_retry c at ≡ (gave_up (retryable_error true (messages stop)), stop + 1)
unfolding do_with_retry
do_with_retry-exhausted stop c at messages delays n l f =
    ap (λ m. retry_from c at m 0 none) (all_rounds c n)
    ∙ until_last stop stop c at c.max_attempts 0 none messages delays n (omega arith) l
        (omega arith) f
