-- ===== src/RateLimit.antt =====
-- The authentication rate limits: internal/app/server/auth_rate_limit.go. Instants and durations are
-- numbers of nanoseconds; a negative duration is 0, which every reader treats alike. The limit and
-- the window come from `resolvePositiveEnvInt`, so 0 stands for every value that is not positive.
-- The binary heap of `container/heap` is the list of its items in the order in which `heap.Pop`
-- takes them, equal deadlines in the order of insertion. What Redis replies is an argument. Go's
-- `range` over a map starts at any key; the model takes the first.
use magpie_backend.Prelude.{
  ℕ, zero, suc, ◌+◌, ◌-◌, ◌*◌, ◌/◌, ◌%◌, ◌==◌, ltb, leb, if◌then◌else◌, Bool, true, false, ◌||◌,
  not, Option, none, some, List, [], ◌∷◌, length, find, assign, remove,
}
pub mod Local
pub mod Heap
pub mod Window
pub mod Retry
pub mod Login
mod Examples

pub record LocalCounter : Type 0 where
  pub count : ℕ
  pub expires_at : ℕ

pub record LocalCounterExpiry (K : Type 0) : Type 0 where
  pub key : K
  pub expires_at : ℕ

pub record FixedWindowLimiter (K : Type 0) : Type 0 where
  pub limit : ℕ
  pub window : ℕ
  pub max_local_entries : ℕ
  pub counters : List (K × LocalCounter)
  pub expiries : List (LocalCounterExpiry K)

abbrev pub default_auth_local_fallback_max_keys : ℕ
default_auth_local_fallback_max_keys = 10000

abbrev pub second : ℕ
second = 1000000000

abbrev pub auth_redis_failure_backoff : ℕ
auth_redis_failure_backoff = 5 * second

unfoldable pub new_fixed_window_limiter : {K : Type 0} → ℕ → ℕ → ℕ → FixedWindowLimiter K
new_fixed_window_limiter limit window max_local_entries = record {
  limit = limit;
  window = window;
  max_local_entries =
      if max_local_entries == 0 then default_auth_local_fallback_max_keys else max_local_entries;
  counters = [];
  expiries = [];
}

-- `heap.Push`, by `localCounterExpiryHeap.Less`.
unfoldable pub heap_push :
    {K : Type 0} → LocalCounterExpiry K → List (LocalCounterExpiry K) → List (LocalCounterExpiry K)
heap_push e [] = e ∷ []
heap_push e (x ∷ xs) = if ltb e.expires_at x.expires_at then e ∷ x ∷ xs else x ∷ heap_push e xs

module _ {K : Type 0} (dec : Discrete K) where
  -- Does the popped expiry still belong to the counter of its key?
  unfoldable pub is_current : LocalCounterExpiry K → List (K × LocalCounter) → Bool
  is_current e counters = elim (find dec e.key counters) [
    | none ↦ false
    | some entry ↦ entry.expires_at == e.expires_at
  ]

  -- The loop of `purgeExpiredLocalLocked` over the heap and the counters.
  unfoldable pub purge :
      ℕ
      → List (LocalCounterExpiry K)
      → List (K × LocalCounter)
      → List (LocalCounterExpiry K) × List (K × LocalCounter)
  purge now [] counters = ([], counters)
  purge now (e ∷ es) counters =
      let rest =
        purge now es (if is_current e counters then remove dec e.key counters else counters) in
      if ltb now e.expires_at then (e ∷ es, counters) else rest

  unfoldable pub purge_expired_local : ℕ → FixedWindowLimiter K → FixedWindowLimiter K
  unfolding purge
  purge_expired_local now l =
      let (es, cs) = purge now l.expiries l.counters in record l { expiries = es; counters = cs }

  -- The loop of `evictOneLocalLocked`; the Boolean says whether a counter was deleted.
  unfoldable pub evict_one :
      List (LocalCounterExpiry K)
      → List (K × LocalCounter)
      → List (LocalCounterExpiry K) × List (K × LocalCounter) × Bool
  evict_one [] counters = ([], counters, false)
  evict_one (e ∷ es) counters =
      let rest = evict_one es counters in
      if is_current e counters then (es, remove dec e.key counters, true) else rest

  unfoldable pub delete_any : List (K × LocalCounter) → List (K × LocalCounter)
  delete_any [] = []
  delete_any (e ∷ es) = remove dec e.0 (e ∷ es)

  -- The loop of `enforceLocalCapacityLocked`. Each round but the last deletes a counter.
  unfoldable pub enforce :
      ℕ
      → ℕ
      → List (LocalCounterExpiry K)
      → List (K × LocalCounter)
      → List (LocalCounterExpiry K) × List (K × LocalCounter)
  enforce zero max_entries es cs = (es, cs)
  enforce (suc fuel) max_entries es cs =
      let (es', cs', done) = evict_one es cs in
      let again = enforce fuel max_entries es' cs' in
      if ltb (length cs) max_entries
      then (es, cs)
      else if done
      then again
      else (es', delete_any cs')

  unfoldable pub enforce_local_capacity : ℕ → FixedWindowLimiter K → FixedWindowLimiter K
  unfolding purge_expired_local
  enforce_local_capacity now l =
      let l' = purge_expired_local now l in
      let (es, cs) =
        enforce (suc (length l'.counters)) l'.max_local_entries l'.expiries l'.counters in
      if l.max_local_entries == 0 then l else record l' { expiries = es; counters = cs }

  -- `incrementLocal`, at the clock readings of its first and its last line.
  unfoldable pub increment_local : ℕ → ℕ → K → FixedWindowLimiter K → FixedWindowLimiter K × ℕ × ℕ
  increment_local now until key l =
      let p = purge_expired_local now l in
      elim (find dec key p.counters) [
        | none ↦
            let r = enforce_local_capacity now p in
            let entry : LocalCounter = record { count = 1; expires_at = now + l.window } in
            (
              record r {
                counters = assign dec key entry r.counters;
                expiries = heap_push (record { key = key; expires_at = now + l.window }) r.expiries;
              },
              1,
              entry.expires_at - until,
            )
        | some entry ↦ (
          record p {
            counters = assign dec key (record entry { count = entry.count + 1 }) p.counters;
          },
          entry.count + 1,
          entry.expires_at - until,
        )
      ]

  unfoldable pub current_local : ℕ → ℕ → K → FixedWindowLimiter K → FixedWindowLimiter K × ℕ × ℕ
  current_local now until key l =
      let p = purge_expired_local now l in
      elim (find dec key p.counters) [
        | none ↦ (p, 0, 0)
        | some entry ↦ (p, entry.count, entry.expires_at - until)
      ]

  -- `reset` on the local counters. The expiry stays in the heap.
  unfoldable pub reset_local : K → FixedWindowLimiter K → FixedWindowLimiter K
  reset_local key l = record l { counters = remove dec key l.counters }

-- `authRedisRetryAt`; `none` is the zero time.
abbrev pub RetryAt : Type 0
RetryAt = Option ℕ

unfoldable pub auth_redis_attempt_allowed : ℕ → RetryAt → RetryAt × Bool
auth_redis_attempt_allowed now none = (none, true)
auth_redis_attempt_allowed now (some t) = if ltb t now then (none, true) else (some t, false)

unfoldable pub mark_auth_redis_failure : ℕ → RetryAt → RetryAt
mark_auth_redis_failure now r = some (now + auth_redis_failure_backoff)

unfoldable pub mark_auth_redis_success : RetryAt → RetryAt
mark_auth_redis_success r = none

-- `redisClient`; the last argument says whether `GetRedisClient` returns a client.
unfoldable pub redis_client : ℕ → RetryAt → Bool → RetryAt × Bool
unfolding auth_redis_attempt_allowed mark_auth_redis_failure mark_auth_redis_success
redis_client now r connected =
    let (r', allowed) = auth_redis_attempt_allowed now r in
    if not allowed
    then (r', false)
    else if connected
    then (mark_auth_redis_success r', true)
    else (mark_auth_redis_failure now r', false)

-- What the increment script returns: an error, values that are no two numbers, or a count and a
-- time to live in nanoseconds, 0 for one that is not positive.
pub data ScriptReply : Type 0 where
  failed malformed : ScriptReply
  counted : ℕ → ℕ → ScriptReply

unfoldable pub increment_redis :
    {K : Type 0}
    → ℕ
    → FixedWindowLimiter K
    → Bool
    → ScriptReply
    → RetryAt
    → RetryAt × Option (ℕ × ℕ)
unfolding redis_client
increment_redis now l connected reply r =
    let (r', has_client) = redis_client now r connected in
    if not has_client then (r', none) else elim reply [
      | failed ↦ (mark_auth_redis_failure now r', none)
      | malformed ↦ (mark_auth_redis_success r', none)
      | counted count ttl ↦
          (mark_auth_redis_success r', some (count, if ttl == 0 then l.window else ttl))
    ]

pub record Clock : Type 0 where
  pub now : ℕ
  pub until : ℕ

-- What a request meets: the clock, whether `GetRedisClient` returns a client, and what the script
-- returns then.
pub record Request : Type 0 where
  pub clock : Clock
  pub connected : Bool
  pub reply : ScriptReply

module _ {K : Type 0} (dec : Discrete K) where
  -- `increment`: Redis counts, and the local counters do so where it does not.
  unfoldable pub increment :
      Clock
      → Bool
      → ScriptReply
      → K
      → FixedWindowLimiter K × RetryAt
      → (FixedWindowLimiter K × RetryAt) × ℕ × ℕ
  unfolding increment_redis
  increment c connected reply key (l, r) =
      let (r', answer) = increment_redis c.now l connected reply r in
      elim answer [
        | some (count, ttl) ↦ ((l, r'), count, ttl)
        | none ↦
            let (l', count, ttl) = increment_local dec c.now c.until key l in ((l', r'), count, ttl)
      ]

  -- `allow`: the decision, and the delay that a refused caller is told.
  unfoldable pub allow :
      Clock
      → Bool
      → ScriptReply
      → K
      → FixedWindowLimiter K × RetryAt
      → (FixedWindowLimiter K × RetryAt) × Bool × ℕ
  unfolding increment
  allow c connected reply key (l, r) =
      let (s, count, ttl) = increment c connected reply key (l, r) in
      if l.limit == 0 || l.window == 0
      then ((l, r), true, 0)
      else if leb count l.limit
      then (s, true, 0)
      else (s, false, if ttl == 0 then l.window else ttl)

  -- The decisions of the handler that `wrap` returns, over successive requests from one address.
  unfoldable pub serve_all : K → List Request → FixedWindowLimiter K × RetryAt → List Bool
  serve_all key [] s = []
  serve_all key (q ∷ qs) s =
      let (s', allowed, retry_after) = allow q.clock q.connected q.reply key s in
      allowed ∷ serve_all key qs s'

-- `setRetryAfterHeader`: the value of the header, if it is set.
unfoldable pub retry_after_header : ℕ → Option ℕ
retry_after_header retry_after =
    let whole = retry_after / second in
    let seconds = if not (retry_after % second == 0) then whole + 1 else whole in
    if retry_after == 0 then none else some (if ltb seconds 1 then 1 else seconds)
