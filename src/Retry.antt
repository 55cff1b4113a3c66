-- ===== src/Retry.antt =====
-- plugins/llmrouter/retry.go: the loop that calls a function again after errors that allow it.
-- The called function, the context and the computed delays are arguments, by what they answer at
-- each attempt. The delays are float64 arithmetic with a random part, and are not modelled further.
pub mod Loop
mod Examples
use cloud_agent_platform.Base.{
  ℕ, zero, suc, ◌+◌, String, Bool, true, false, not, ◌&&◌, Option, none, some, if◌then◌else◌,
}
use cloud_agent_platform.Base.Int64.{inc, slt, sle}

-- The settings that the loop reads; the others go into the delay.
pub record RetryConfig : Type 0 where
  pub max_attempts : ℕ
  pub initial_delay_ms : ℕ
  pub max_delay_ms : ℕ
  pub multiplier : ℕ  -- float64
  pub jitter_percent : ℕ

-- An error is a `*RetryableError` with its flag, or something else.
pub data CallError : Type 0 where
  retryable_error : (retryable : Bool) (err : String) → CallError
  other_error : (err : String) → CallError

unfoldable pub is_retryable : CallError → Bool
is_retryable (retryable_error retryable err) = retryable
is_retryable (other_error err) = false

unfoldable pub is_non_retryable : CallError → Bool
unfolding is_retryable
is_non_retryable err = not (is_retryable err)

unfoldable pub should_retry : RetryConfig → ℕ → CallError → Bool
unfolding is_retryable
should_retry c attempt err = if sle c.max_attempts attempt then false else is_retryable err

-- What happens at one attempt: is the context done before it, what does the function return, how
-- long is the delay after it, and is the context done during the delay?
pub record Round : Type 0 where
  pub done_before : Bool
  pub returned : Option CallError
  pub delay : ℕ
  pub done_during : Bool

pub data RetryResult : Type 0 where
  succeeded context_error : RetryResult
  gave_up : CallError → RetryResult

abbrev pub last_result : Option CallError → RetryResult
last_result none = succeeded
last_result (some err) = gave_up err

-- `NextDelay`: none before the second attempt.
abbrev pub next_delay : ℕ → Round → ℕ
next_delay attempt r = if sle attempt 0 then 0 else r.delay

-- The loop, over the attempts that are left; the result, and how often the function was called.
unfoldable pub retry_from :
    RetryConfig → (ℕ → Round) → (left attempt : ℕ) → Option CallError → RetryResult × ℕ
unfolding should_retry
retry_from c at zero attempt last_err = (last_result last_err, 0)
retry_from c at (suc left) attempt last_err =
    let r = at attempt in
    let after : RetryResult × ℕ = elim r.returned [
      | none ↦ (succeeded, 1)
      | some err ↦
          let (result, calls) = retry_from c at left (attempt + 1) (some err) in
          if not (should_retry c (attempt + 1) err)
          then (gave_up err, 1)
          else if slt 0 (next_delay attempt r) && r.done_during
          then (context_error, 1)
          else (result, calls + 1)
    ] in
    if r.done_before then (context_error, 0) else after

unfoldable pub do_with_retry : RetryConfig → (ℕ → Round) → RetryResult × ℕ
unfolding retry_from
do_with_retry c at = retry_from c at (if slt 0 c.max_attempts then c.max_attempts else 0) 0 none
