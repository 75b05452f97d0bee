-- ===== src/RateLimit/Examples.antt =====
-- The rate limits at work on a limiter of two requests: internal/app/server/auth_rate_limit.go.
use magpie_backend.Prelude.{
  ℕ, ◌+◌, ◌*◌, ◌≤◌, ◌<◌, ◌≡◌, refl, Bool, true, false, ◌||◌, leb, none, [], ◌∷◌, length, find,
  ℕ_discrete, arith,
}
use magpie_backend.RateLimit.{
  FixedWindowLimiter, Clock, Request, ScriptReply, second, new_fixed_window_limiter,
  increment_local, current_local, reset_local, purge_expired_local, purge, serve_all, redis_client,
  mark_auth_redis_failure,
}
use magpie_backend.RateLimit.Heap.{IsConsistent, operations-IsConsistent}
use magpie_backend.RateLimit.Local.{length-increment_local}
use magpie_backend.RateLimit.Window.{
  ReadsSame, live_count, first_in_window, increment_local-live_count, serve_all-first_in_window,
}
use magpie_backend.RateLimit.Retry.{redis_client-BacksOff}
use magpie_backend.RateLimit.Login.{Login, ReadReply, is_blocked, is_blocked-live_count}

-- Two requests in ten nanoseconds.
abbrev fresh : FixedWindowLimiter ℕ
fresh = record { limit = 2; window = 10; max_local_entries = 2; counters = []; expiries = [] }

abbrev at : ℕ → Clock
at n = record { now = n; until = n }

-- A request while there is a client whose script fails, or no client.
abbrev request : ℕ → Bool → Request
request n connected = record { clock = at n; connected = connected; reply = ScriptReply.failed }

fresh-IsConsistent : IsConsistent ℕ_discrete fresh
unfolding find
fresh-IsConsistent = (tt, λ k c f. absurd (ground arith))

-- Key 7 has asked once, at 5.
abbrev used : FixedWindowLimiter ℕ
used = (increment_local ℕ_discrete 5 5 7 fresh).0

used-IsConsistent : IsConsistent ℕ_discrete used
used-IsConsistent = (operations-IsConsistent ℕ_discrete 5 5 7 fresh).1 fresh-IsConsistent

abbrev login : Login ℕ
login = record { per_ip = fresh; per_email = fresh; retry_at = none }

operations-IsConsistent_example :
    ((limit window max_entries : ℕ)
      → IsConsistent ℕ_discrete (new_fixed_window_limiter limit window max_entries))
    × (IsConsistent ℕ_discrete used
        → IsConsistent ℕ_discrete (increment_local ℕ_discrete 20 20 8 used).0)
    × (IsConsistent ℕ_discrete used
        → IsConsistent ℕ_discrete (current_local ℕ_discrete 20 20 8 used).0)
    × (IsConsistent ℕ_discrete used → IsConsistent ℕ_discrete (reset_local ℕ_discrete 8 used))
operations-IsConsistent_example = operations-IsConsistent ℕ_discrete 20 20 8 used

length-increment_local_example : length (increment_local ℕ_discrete 5 5 7 fresh).0.counters ≤ 2
length-increment_local_example =
    length-increment_local ℕ_discrete 5 5 7 fresh (omega arith) (omega arith)

increment_local-live_count_example :
    ((increment_local ℕ_discrete 5 5 7 fresh).1 ≡ live_count ℕ_discrete 5 7 fresh + 1)
    × (live_count ℕ_discrete 5 7 (increment_local ℕ_discrete 5 5 7 fresh).0
        ≡ live_count ℕ_discrete 5 7 fresh + 1)
    × ((current_local ℕ_discrete 5 5 7 fresh).1 ≡ live_count ℕ_discrete 5 7 fresh)
    × ReadsSame ℕ_discrete 5 fresh (current_local ℕ_discrete 5 5 7 fresh).0
increment_local-live_count_example =
    increment_local-live_count ℕ_discrete 5 5 7 fresh fresh-IsConsistent (omega arith)

-- Three requests in one window: the third is refused.
serve_all-first_in_window_example :
    serve_all ℕ_discrete 7 (request 1 true ∷ request 2 false ∷ request 3 true ∷ []) (fresh, none)
    ≡ first_in_window 2 0 (request 1 true ∷ request 2 false ∷ request 3 true ∷ [])
unfolding purge_expired_local purge find
serve_all-first_in_window_example =
    serve_all-first_in_window ℕ_discrete 7 (request 1 true) (request 2 false ∷ request 3 true ∷ [])
      fresh none fresh-IsConsistent (omega arith) (omega arith) refl (refl, (refl, (refl, tt)))
      (omega arith, (omega arith, tt))

decisions :
    first_in_window 2 0 (request 1 true ∷ request 2 false ∷ request 3 true ∷ [])
    ≡ true ∷ true ∷ false ∷ []
decisions = refl

redis_client-BacksOff_example :
    (6 ≤ 1 + 5 * second
      → redis_client 6 (mark_auth_redis_failure 1 none) true
        ≡ (mark_auth_redis_failure 1 none, false))
    × (1 + 5 * second < 6 → redis_client 6 (mark_auth_redis_failure 1 none) true ≡ (none, true))
    × (1 + 5 * second < 6
        → redis_client 6 (mark_auth_redis_failure 1 none) false
          ≡ (mark_auth_redis_failure 6 none, false))
redis_client-BacksOff_example = redis_client-BacksOff 1 6 none true

is_blocked-live_count_example :
    (is_blocked ℕ_discrete (at 1) (at 2) true ReadReply.get_failed ReadReply.ttl_failed 7 8 login).1
    ≡ (leb 2 (live_count ℕ_discrete 1 7 fresh) || leb 2 (live_count ℕ_discrete 2 8 fresh))
is_blocked-live_count_example =
    is_blocked-live_count ℕ_discrete (at 1) (at 2) true ReadReply.get_failed ReadReply.ttl_failed 7
      8 login refl refl fresh-IsConsistent fresh-IsConsistent (omega arith) (omega arith)
