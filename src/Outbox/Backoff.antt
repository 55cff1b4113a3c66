-- ===== src/Outbox/Backoff.antt =====
-- The delays of internal/infra/outbox/outbox.go, in int64 nanoseconds.
use Prim.Native.Nat.{min}
use cloud_agent_platform.Base.{
  ℕ, zero, suc, ◌*◌, ◌^◌, ◌%◌, ◌<◌, ◌≡◌, refl, ◌⊎◌, inl, inr, Bool, true, ◌&&◌, arith, ltb, nat_beq,
  if◌then◌else◌,
}
use cloud_agent_platform.Base.Int64.{slt, mul, modulus}

-- `1 << uint(n)` as an int64.
unfoldable pub shifted : ℕ → ℕ
shifted n = if ltb n 64 then 2 ^ n % modulus else 0

unfoldable pub capped_delay : ℕ → ℕ → ℕ → ℕ
unfolding shifted
capped_delay base_delay max_delay retry_count =
    let delay = mul base_delay (shifted retry_count) in
    if slt max_delay delay then max_delay else delay

unfoldable pub retry_backoff : ℕ → ℕ
unfolding capped_delay
retry_backoff n = capped_delay 1_000_000_000 300_000_000_000 n

unfoldable pub poller_retry_backoff : ℕ → ℕ
unfolding capped_delay
poller_retry_backoff n = capped_delay 100_000_000 30_000_000_000 n

-- A test on the numbers below a bound, which evaluates.
every_below : (ℕ → Bool) → ℕ → Bool
every_below p zero = true
every_below p (suc k) = p k && every_below p k

lt_or_same : (n k : ℕ) → n < suc k → (n < k) ⊎ (n ≡ k)
lt_or_same n k l = omega arith

every_below-at : (p : ℕ → Bool) (k n : ℕ) → every_below p k ≡ true → n < k → p n ≡ true
unfolding every_below
every_below-at p zero n h l = ground arith
every_below-at p (suc k) n h l = elim (lt_or_same n k l) [
  | inl below ↦ every_below-at p k n (ground arith) below
  | inr same ↦ rw same (ground arith)
]

abbrev as_documented : ℕ → Bool
as_documented n =
    nat_beq (retry_backoff n) (min (1_000_000_000 * 2 ^ n) 300_000_000_000)
    && nat_beq (poller_retry_backoff n) (min (100_000_000 * 2 ^ n) 30_000_000_000)

documented_below : every_below as_documented 34 ≡ true
unfolding every_below retry_backoff poller_retry_backoff
documented_below = refl

-- For fewer than 34 retries both delays are what their comments say: the base delay doubled for each
-- retry, and at most five minutes or thirty seconds.
backoff_lem :
    (n : ℕ)
    → n < 34
    → (retry_backoff n ≡ min (1_000_000_000 * 2 ^ n) 300_000_000_000)
      × (poller_retry_backoff n ≡ min (100_000_000 * 2 ^ n) 30_000_000_000)
backoff_lem n h = let e = every_below-at as_documented 34 n documented_below h in ground (arith, e)

-- The next delay is negative as an int64, which is no delay at all.
negative_delay : slt (retry_backoff 34) 0 ≡ true
unfolding retry_backoff
negative_delay = refl
