-- ===== src/RateLimit/Retry.antt =====
-- The delay that a refused caller is told, and the pause after a failure of Redis.
-- internal/app/server/auth_rate_limit.go.
use magpie_backend.Prelude.{
  ℕ, ◌+◌, ◌*◌, ◌/◌, ◌%◌, ◌≤◌, ◌<◌, ◌==◌, ◌≡◌, Bool, true, false, none, some, Bool-cases, inl, inr,
  arith,
}
use magpie_backend.RateLimit.{
  RetryAt, second, mark_auth_redis_failure, redis_client, retry_after_header, FixedWindowLimiter,
  Clock, ScriptReply, allow,
}

-- `setRetryAfterHeader` sets the header exactly for a positive delay, to the least number of whole
-- seconds that is not below the delay; this is at least one second.
pub retry_after_header-CoversDelay :
    (delay : ℕ)
    → 0 < delay
    → (s : ℕ) × (retry_after_header delay ≡ some s)
      × (1 ≤ s)
      × (delay ≤ s * second)
      × (s * second < delay + second)
unfolding retry_after_header
retry_after_header-CoversDelay delay h = elim (Bool-cases (delay % second == 0)) [
  | inl e ↦ (delay / second, ground arith, ground arith, ground arith, ground arith)
  | inr e ↦ (delay / second + 1, ground arith, ground arith, ground arith, ground arith)
]

-- After a failure of Redis that was marked at `t`, `redisClient` asks for no client until five seconds
-- have passed, whatever its state, and keeps the mark; afterwards it asks again, and a client clears the mark.
pub redis_client-BacksOff :
    (t now : ℕ) (r : RetryAt) (connected : Bool)
    → (now ≤ t + 5 * second
        → redis_client now (mark_auth_redis_failure t r) connected
          ≡ (mark_auth_redis_failure t r, false))
      × (t + 5 * second < now → redis_client now (mark_auth_redis_failure t r) true ≡ (none, true))
      × (t + 5 * second < now
          → redis_client now (mark_auth_redis_failure t r) false
            ≡ (mark_auth_redis_failure now none, false))
unfolding redis_client
redis_client-BacksOff t now r connected = (λ h. ground arith, λ h. ground arith, λ h. ground arith)

-- Every request that `allow` refuses is told a delay that is positive, and a request that it lets
-- through is told none, whether Redis counted or the local counters did.
pub allow-delay :
    {K : Type 0} (dec : Discrete K) (c : Clock) (connected : Bool) (reply : ScriptReply) (key : K)
    (l : FixedWindowLimiter K) (r : RetryAt)
    → let (s, allowed, delay) = allow dec c connected reply key (l, r) in
      (allowed ≡ true → delay ≡ 0) × (allowed ≡ false → 0 < delay)
unfolding allow
allow-delay dec c connected reply key l r = (λ h. ground arith, λ h. ground arith)
