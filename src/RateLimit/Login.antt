-- ===== src/RateLimit/Login.antt =====
-- Failed logins, counted by address and by e-mail: `current`, `reset`, `loginFailureLimiter` and the
-- limits by identifier of internal/app/server/auth_rate_limit.go. A key stands for the text that
-- `key`, `normalizeRateLimitIP` or `hashIdentifier` makes of an address or an e-mail.
use magpie_backend.Prelude.{
  ℕ, ◌<◌, leb, if◌then◌else◌, ◌≡◌, ◌≢◌, Bool, true, false, not, ◌&&◌, ◌||◌, Option, none, some,
  find-remove, arith,
}
use magpie_backend.RateLimit.{
  FixedWindowLimiter, RetryAt, Clock, ScriptReply, redis_client, mark_auth_redis_failure,
  mark_auth_redis_success, increment, current_local, reset_local, auth_redis_attempt_allowed,
}
use magpie_backend.RateLimit.Heap.{IsConsistent}
use magpie_backend.RateLimit.Window.{live_count, increment_local-live_count}

-- What `GET` and `PTTL` return: no such key, an error of either, or the count and the time to live.
pub data ReadReply : Type 0 where
  missing get_failed ttl_failed : ReadReply
  present : ℕ → ℕ → ReadReply

unfoldable pub current_redis : ℕ → Bool → ReadReply → RetryAt → RetryAt × Option (ℕ × ℕ)
unfolding redis_client
current_redis now connected reply r =
    let (r', has_client) = redis_client now r connected in
    if not has_client then (r', none) else elim reply [
      | missing ↦ (mark_auth_redis_success r', some (0, 0))
      | get_failed ↦ (mark_auth_redis_failure now r', none)
      | ttl_failed ↦ (mark_auth_redis_failure now r', none)
      | present count ttl ↦ (mark_auth_redis_success r', some (count, ttl))
    ]

-- The reply has a count, or says that there is none.
abbrev pub is_read : ReadReply → Bool
is_read missing = true
is_read get_failed = false
is_read ttl_failed = false
is_read (present count ttl) = true

pub record Login (K : Type 0) : Type 0 where
  pub per_ip : FixedWindowLimiter K
  pub per_email : FixedWindowLimiter K
  pub retry_at : RetryAt

module _ {K : Type 0} (dec : Discrete K) where
  unfoldable pub current :
      Clock
      → Bool
      → ReadReply
      → K
      → FixedWindowLimiter K × RetryAt
      → (FixedWindowLimiter K × RetryAt) × ℕ × ℕ
  unfolding current_redis
  current c connected reply key (l, r) =
      let (r', answer) = current_redis c.now connected reply r in
      elim answer [
        | some (count, ttl) ↦ ((l, r'), count, ttl)
        | none ↦
            let (l', count, ttl) = current_local dec c.now c.until key l in ((l', r'), count, ttl)
      ]

  -- `reset`; the last Boolean says whether `DEL` succeeds.
  unfoldable pub reset :
      ℕ → Bool → Bool → K → FixedWindowLimiter K × RetryAt → FixedWindowLimiter K × RetryAt
  unfolding redis_client
  reset now connected deleted key (l, r) =
      let (r', has_client) = redis_client now r connected in
      (
        reset_local dec key l,
        if has_client
            then (if deleted then mark_auth_redis_success r' else mark_auth_redis_failure now r')
            else r',
      )

  unfoldable pub current_identifier :
      Clock
      → Bool
      → ReadReply
      → K
      → FixedWindowLimiter K × RetryAt
      → (FixedWindowLimiter K × RetryAt) × Bool × ℕ
  unfolding current
  current_identifier c connected reply key (l, r) =
      let (s, count, ttl) = current c connected reply key (l, r) in
      if leb l.limit count then (s, true, ttl) else (s, false, 0)

  unfoldable pub increment_identifier :
      Clock
      → Bool
      → ScriptReply
      → K
      → FixedWindowLimiter K × RetryAt
      → FixedWindowLimiter K × RetryAt
  unfolding increment
  increment_identifier c connected reply key s = (increment dec c connected reply key s).0

  -- `isBlocked`, with the clock of each of its reads: the address first, and the e-mail only if the address is not blocked.
  unfoldable pub is_blocked :
      Clock → Clock → Bool → ReadReply → ReadReply → K → K → Login K → Login K × Bool × ℕ
  unfolding current
  is_blocked c d connected ip_reply email_reply ip email s =
      let (si, ip_count, ip_ttl) = current c connected ip_reply ip (s.per_ip, s.retry_at) in
      let (se, email_count, email_ttl) =
        current d connected email_reply email (s.per_email, si.1) in
      let after_ip : Login K = record s { per_ip = si.0; retry_at = si.1 } in
      let after : Login K = record { per_ip = si.0; per_email = se.0; retry_at = se.1 } in
      if leb s.per_ip.limit ip_count
      then (after_ip, true, ip_ttl)
      else if leb s.per_email.limit email_count
      then (after, true, email_ttl)
      else (after, false, 0)

  unfoldable pub record_failure :
      Clock → Clock → Bool → ScriptReply → ScriptReply → K → K → Login K → Login K
  unfolding increment
  record_failure c d connected ip_reply email_reply ip email s =
      let si = (increment dec c connected ip_reply ip (s.per_ip, s.retry_at)).0 in
      let se = (increment dec d connected email_reply email (s.per_email, si.1)).0 in
      record { per_ip = si.0; per_email = se.0; retry_at = se.1 }

  unfoldable pub record_success : ℕ → Bool → Bool → K → K → Login K → Login K
  unfolding reset
  record_success now connected deleted ip email s =
      let si = reset now connected deleted ip (s.per_ip, s.retry_at) in
      let se = reset now connected deleted email (s.per_email, si.1) in
      record { per_ip = si.0; per_email = se.0; retry_at = se.1 }

  current-local_count :
      (c : Clock) (connected : Bool) (reply : ReadReply) (key : K) (l : FixedWindowLimiter K)
      (r : RetryAt)
      → (connected && is_read reply) ≡ false
      → (current c connected reply key (l, r)).1 ≡ (current_local dec c.now c.until key l).1
  unfolding current current_redis redis_client auth_redis_attempt_allowed
  current-local_count c connected reply key l none h = ground arith
  current-local_count c connected reply key l (some t) h = ground arith

  current_local-live :
      (c : Clock) (key : K) (l : FixedWindowLimiter K)
      → IsConsistent dec l
      → 0 < l.window
      → (current_local dec c.now c.until key l).1 ≡ live_count dec c.now key l
  current_local-live c key l h w = (increment_local-live_count dec c.now c.until key l h w).2

  -- While Redis tells no count, since there is no client or its commands fail, `isBlocked` refuses a
  -- login exactly if the address or the e-mail has as many failures in its open window as its limit, for
  -- consistent limiters with a window.
  pub is_blocked-live_count :
      (c d : Clock) (connected : Bool) (ip_reply email_reply : ReadReply) (ip email : K)
      (s : Login K)
      → (connected && is_read ip_reply) ≡ false
      → (connected && is_read email_reply) ≡ false
      → IsConsistent dec s.per_ip
      → IsConsistent dec s.per_email
      → 0 < s.per_ip.window
      → 0 < s.per_email.window
      → (is_blocked c d connected ip_reply email_reply ip email s).1 ≡ (
          leb s.per_ip.limit (live_count dec c.now ip s.per_ip)
          || leb s.per_email.limit (live_count dec d.now email s.per_email))
  unfolding is_blocked
  is_blocked-live_count c d connected ip_reply email_reply ip email s no_ip no_email hi he wi we =
      let si = (current c connected ip_reply ip (s.per_ip, s.retry_at)).0 in
      ground (
        arith,
        current-local_count c connected ip_reply ip s.per_ip s.retry_at no_ip,
        current-local_count d connected email_reply email s.per_email si.1 no_email,
        current_local-live c ip s.per_ip hi wi,
        current_local-live d email s.per_email he we,
      )

  -- A successful login forgets the failures of its address and of its e-mail in the local counters,
  -- and those of no other: each limiter counts 0 for its key then, and as before for any other key.
  pub record_success-live_count :
      (now : ℕ) (connected deleted : Bool) (ip email : K) (s : Login K)
      → let s' = record_success now connected deleted ip email s in
        (live_count dec now ip s'.per_ip ≡ 0)
        × (live_count dec now email s'.per_email ≡ 0)
        × ((k : K) → k ≢ ip → live_count dec now k s'.per_ip ≡ live_count dec now k s.per_ip)
        × ((k : K)
            → k ≢ email
            → live_count dec now k s'.per_email ≡ live_count dec now k s.per_email)
  unfolding record_success reset_local
  record_success-live_count now connected deleted ip email s = (
    ground (arith, find-remove dec ip ip s.per_ip.counters),
    ground (arith, find-remove dec email email s.per_email.counters),
    (λ k h. ground (arith, find-remove dec ip k s.per_ip.counters)),
    (λ k h. ground (arith, find-remove dec email k s.per_email.counters)),
  )
