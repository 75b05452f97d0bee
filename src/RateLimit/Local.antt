-- ===== src/RateLimit/Local.antt =====
-- The local counters that stand in for Redis: how many there are, and which survive a purge.
-- internal/app/server/auth_rate_limit.go.
use magpie_backend.Prelude.{
  ℕ, zero, suc, ◌+◌, ◌-◌, ◌≤◌, ◌<◌, ltb, if◌then◌else◌, ◌≡◌, true, false, some, List, [], ◌∷◌,
  length, find, remove, find-remove, length-remove, length-remove_lt, length-assign,
  length-assign_old, Bool-cases, Option-cases, inl, inr, arith,
}
use magpie_backend.RateLimit.{
  LocalCounter, LocalCounterExpiry, FixedWindowLimiter, is_current, purge, purge_expired_local,
  evict_one, delete_any, enforce, enforce_local_capacity, increment_local,
}

module _ {K : Type 0} (dec : Discrete K) where
  -- An expiry that is due takes a live counter of no key.
  current_due :
      (now : ℕ) (e : LocalCounterExpiry K) (k : K) (cs : List (K × LocalCounter)) (c : LocalCounter)
      → find dec k cs ≡ some c
      → now < c.expires_at
      → ltb now e.expires_at ≡ false
      → find dec k (if is_current dec e cs then remove dec e.key cs else cs) ≡ some c
  unfolding is_current
  current_due now e k cs c h live due = ground (arith, find-remove dec e.key k cs)

  pub purge-keeps :
      (now : ℕ) (es : List (LocalCounterExpiry K)) (k : K) (cs : List (K × LocalCounter))
      (c : LocalCounter)
      → find dec k cs ≡ some c
      → now < c.expires_at
      → find dec k (purge dec now es cs).1 ≡ some c
  unfolding purge
  purge-keeps now [] k cs c h live = h
  purge-keeps now (e ∷ es) k cs c h live = elim (Bool-cases (ltb now e.expires_at)) [
    | inl later ↦ rw later h
    | inr due ↦ rw due (
        purge-keeps now es k (if is_current dec e cs then remove dec e.key cs else cs) c
          (current_due now e k cs c h live due) live)
  ]

  length-purge :
      (now : ℕ) (es : List (LocalCounterExpiry K)) (cs : List (K × LocalCounter))
      → length (purge dec now es cs).1 ≤ length cs
  unfolding purge
  length-purge now [] cs = omega arith
  length-purge now (e ∷ es) cs = ground (
    arith,
    length-remove dec e.key cs,
    length-purge now es (remove dec e.key cs),
    length-purge now es cs,
  )

  length-evict_one :
      (es : List (LocalCounterExpiry K)) (cs : List (K × LocalCounter))
      → (length (evict_one dec es cs).1 ≤ length cs)
        × ((evict_one dec es cs).2 ≡ true → length (evict_one dec es cs).1 < length cs)
  unfolding evict_one is_current
  length-evict_one [] cs = ground arith
  length-evict_one (e ∷ es) cs = elim (Option-cases (find dec e.key cs)) [
    | inl e' ↦ ground (arith, length-evict_one es cs)
    | inr (c, e') ↦ ground (arith, length-remove_lt dec e.key cs c e', length-evict_one es cs)
  ]

  length-delete_any : (cs : List (K × LocalCounter)) → length (delete_any dec cs) ≤ length cs - 1
  unfolding delete_any find
  length-delete_any [] = omega arith
  length-delete_any (e ∷ es) = omega (arith, length-remove_lt dec e.0 (e ∷ es) e.1 (ground arith))

  -- With a round for each counter, fewer than the limit are left.
  enforce_room :
      (fuel max_entries : ℕ) (es : List (LocalCounterExpiry K)) (cs : List (K × LocalCounter))
      → length cs < fuel
      → length cs ≤ max_entries
      → 0 < max_entries
      → length (enforce dec fuel max_entries es cs).1 < max_entries
  unfolding enforce
  enforce_room zero max_entries es cs h le pos = elim h [ ]
  enforce_room (suc fuel) max_entries es cs h le pos = ground (
    arith,
    length-evict_one es cs,
    length-delete_any (evict_one dec es cs).1,
    enforce_room fuel max_entries (evict_one dec es cs).0 (evict_one dec es cs).1,
  )

  length-purge_expired_local :
      (now : ℕ) (l : FixedWindowLimiter K)
      → length (purge_expired_local dec now l).counters ≤ length l.counters
  unfolding purge_expired_local
  length-purge_expired_local now l = length-purge now l.expiries l.counters

  enforce_local_capacity_room :
      (now : ℕ) (l : FixedWindowLimiter K)
      → 0 < l.max_local_entries
      → length l.counters ≤ l.max_local_entries
      → length (enforce_local_capacity dec now l).counters < l.max_local_entries
  unfolding enforce_local_capacity purge_expired_local
  enforce_local_capacity_room now l pos h =
      let (es, cs) = purge dec now l.expiries l.counters in
      ground (
        arith,
        length-purge now l.expiries l.counters,
        enforce_room (suc (length cs)) l.max_local_entries es cs,
      )

  -- The number of local counters never passes the limit on local keys: if it holds before a call of
  -- `incrementLocal`, it holds after it, whatever the key and the time.
  pub length-increment_local :
      (now until : ℕ) (key : K) (l : FixedWindowLimiter K)
      → 0 < l.max_local_entries
      → length l.counters ≤ l.max_local_entries
      → length (increment_local dec now until key l).0.counters ≤ l.max_local_entries
  unfolding increment_local purge_expired_local
  length-increment_local now until key l pos h =
      let p = purge_expired_local dec now l in
      elim (Option-cases (find dec key p.counters)) [
        | inl fresh ↦
            let room =
              enforce_local_capacity_room now p pos
                (omega (arith, length-purge_expired_local now l)) in
            rw (fresh, increment_local)
              (omega (
                arith,
                length-assign dec key (record { count = 1; expires_at = now + l.window })
                    (enforce_local_capacity dec now p).counters,
              ))
        | inr (c, old) ↦
            rw (old, increment_local)
              (omega (
                arith,
                length-purge now l.expiries l.counters,
                length-assign_old dec key (record c { count = c.count + 1 }) c p.counters old,
              ))
      ]
