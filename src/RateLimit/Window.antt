-- ===== src/RateLimit/Window.antt =====
-- What the local counters count, and which requests they let through.
-- internal/app/server/auth_rate_limit.go.
use magpie_backend.Prelude.{
  ℕ, ◌+◌, ◌<◌, ◌≤◌, ◌==◌, ltb, leb, if◌then◌else◌, ◌≡◌, refl, sym, ◌∙◌, ap, ap₂, Bool, true, false,
  ◌&&◌, none, some, List, [], ◌∷◌, All, find, find-assign, find-remove, Bool-cases, Option-cases,
  inl, inr, arith, ltb→lt,
}
use magpie_backend.RateLimit.{
  LocalCounter, LocalCounterExpiry, FixedWindowLimiter, Request, RetryAt, ScriptReply, counted,
  purge, purge_expired_local, enforce_local_capacity, increment_local, current_local, increment,
  increment_redis, serve_all, redis_client, allow, auth_redis_attempt_allowed,
}
use magpie_backend.RateLimit.Local.{purge-keeps}
use magpie_backend.RateLimit.Heap.{IsConsistent, purge_live}

module _ {K : Type 0} (dec : Discrete K) where
  -- How often the key was counted in a window that is still open.
  abbrev pub live_count : ℕ → K → FixedWindowLimiter K → ℕ
  live_count now key l = elim (find dec key l.counters) [
    | none ↦ 0
    | some c ↦ if ltb now c.expires_at then c.count else 0
  ]

  purge_find :
      (now : ℕ) (key : K) (l : FixedWindowLimiter K) (c : LocalCounter)
      → find dec key (purge_expired_local dec now l).counters ≡ some c
      → IsConsistent dec l
      → now < c.expires_at
  unfolding purge_expired_local
  purge_find now key l c f h = purge_live dec now l.expiries l.counters key c h.0 h.1 f

  purge_find_live :
      (now : ℕ) (key : K) (l : FixedWindowLimiter K) (c : LocalCounter)
      → find dec key l.counters ≡ some c
      → now < c.expires_at
      → find dec key (purge_expired_local dec now l).counters ≡ some c
  unfolding purge_expired_local
  purge_find_live now key l c f h = purge-keeps dec now l.expiries key l.counters c f h

  purge-find_only :
      (now : ℕ) (es : List (LocalCounterExpiry K)) (key : K) (cs : List (K × LocalCounter))
      (c : LocalCounter)
      → find dec key (purge dec now es cs).1 ≡ some c
      → find dec key cs ≡ some c
  unfolding purge
  purge-find_only now [] key cs c f = f
  purge-find_only now (e ∷ es) key cs c f = elim (Bool-cases (ltb now e.expires_at)) [
    | inl t ↦ rw t at f
    | inr t ↦
        let before = purge-find_only now es key _ c (rw t at f) in
        ground (arith, find-remove dec e.key key cs)
  ]

  purge_only :
      (now : ℕ) (key : K) (l : FixedWindowLimiter K) (c : LocalCounter)
      → find dec key (purge_expired_local dec now l).counters ≡ some c
      → find dec key l.counters ≡ some c
  unfolding purge_expired_local
  purge_only now key l c f = purge-find_only now l.expiries key l.counters c f

  purge-live_count :
      (now : ℕ) (key : K) (l : FixedWindowLimiter K)
      → IsConsistent dec l
      → live_count now key (purge_expired_local dec now l) ≡ live_count now key l
  purge-live_count now key l h = elim (Option-cases (find dec key l.counters)) [
    | inr (c, f) ↦ elim (Bool-cases (ltb now c.expires_at)) [
      | inl t ↦
          rw (purge_find_live now key l c f (ltb→lt _ _ t), live_count) (rw (f, live_count) refl)
      | inr t ↦ elim (Option-cases (find dec key (purge_expired_local dec now l).counters)) [
        | inl g ↦ ground arith
        | inr (d, g) ↦ absurd (ground (arith, purge_find now key l d g h, purge_only now key l d g))
      ]
    ]
    | inl f ↦ elim (Option-cases (find dec key (purge_expired_local dec now l).counters)) [
      | inl g ↦ ground arith
      | inr (d, g) ↦ absurd (ground (arith, purge_only now key l d g))
    ]
  ]

  enforce-settings :
      (now : ℕ) (l : FixedWindowLimiter K)
      → ((enforce_local_capacity dec now l).limit ≡ l.limit)
        × ((enforce_local_capacity dec now l).window ≡ l.window)
  unfolding enforce_local_capacity purge_expired_local
  enforce-settings now l = elim (Bool-cases (l.max_local_entries == 0)) [
    | inl t ↦ rw t (refl, refl)
    | inr t ↦ rw t (refl, refl)
  ]

  purge-settings :
      (now : ℕ) (l : FixedWindowLimiter K)
      → ((purge_expired_local dec now l).limit ≡ l.limit)
        × ((purge_expired_local dec now l).window ≡ l.window)
  unfolding purge_expired_local
  purge-settings now l = (refl, refl)

  -- What a call leaves behind for its key.
  pub record Counted (l l' : FixedWindowLimiter K) (key : K) (count expires_at : ℕ) : Type 0 where
    pub counter :
        find dec key l'.counters ≡ some (record { count = count; expires_at = expires_at })
    pub same_limit : l'.limit ≡ l.limit
    pub same_window : l'.window ≡ l.window

  increment_live :
      (now until : ℕ) (key : K) (l : FixedWindowLimiter K) (c : LocalCounter)
      → find dec key l.counters ≡ some c
      → now < c.expires_at
      → ((increment_local dec now until key l).1 ≡ c.count + 1)
        × Counted l (increment_local dec now until key l).0 key (c.count + 1) c.expires_at
  unfolding increment_local
  increment_live now until key l c f h =
      let p = purge_expired_local dec now l in
      let g = purge_find_live now key l c f h in
      let (sl, sw) = purge-settings now l in
      let e = find-assign dec key key (record c { count = c.count + 1 }) p.counters in
      rw (g, increment_local)
        (refl, record { counter = ground arith; same_limit = sl; same_window = sw })

  increment_fresh :
      (now until : ℕ) (key : K) (l : FixedWindowLimiter K)
      → find dec key (purge_expired_local dec now l).counters ≡ none
      → ((increment_local dec now until key l).1 ≡ 1)
        × Counted l (increment_local dec now until key l).0 key 1 (now + l.window)
  unfolding increment_local
  increment_fresh now until key l g =
      let p = purge_expired_local dec now l in
      let (sl, sw) = purge-settings now l in
      let (el, ew) = enforce-settings now p in
      let e =
        find-assign dec key key (record { count = 1; expires_at = now + l.window })
          (enforce_local_capacity dec now p).counters in
      rw (g, increment_local)
        (
          refl,
          record { counter = ground arith; same_limit = ground arith; same_window = ground arith },
        )

  -- A purge changes no count that is read at its instant or later.
  purge-later :
      (now t : ℕ) (key : K) (l : FixedWindowLimiter K)
      → now ≤ t
      → live_count t key (purge_expired_local dec now l) ≡ live_count t key l
  purge-later now t key l le = elim (Option-cases (find dec key l.counters)) [
    | inr (c, f) ↦ elim (Bool-cases (ltb t c.expires_at)) [
      | inl u ↦
          let later = ltb→lt _ _ u in
          rw (purge_find_live now key l c f (omega arith), live_count) (rw (f, live_count) refl)
      | inr u ↦ elim (Option-cases (find dec key (purge_expired_local dec now l).counters)) [
        | inl g ↦ ground arith
        | inr (d, g) ↦ ground (arith, purge_only now key l d g)
      ]
    ]
    | inl f ↦ elim (Option-cases (find dec key (purge_expired_local dec now l).counters)) [
      | inl g ↦ ground arith
      | inr (d, g) ↦ absurd (ground (arith, purge_only now key l d g))
    ]
  ]

  -- The limiter keeps its settings, and what is counted for any key at this instant or any later one.
  abbrev pub ReadsSame : ℕ → (l l' : FixedWindowLimiter K) → Type 0
  ReadsSame now l l' =
      (l'.limit ≡ l.limit)
      × (l'.window ≡ l.window)
      × (l'.max_local_entries ≡ l.max_local_entries)
      × ((k : K) (t : ℕ) → now ≤ t → live_count t k l' ≡ live_count t k l)

  purge-ReadsSame :
      (now : ℕ) (l : FixedWindowLimiter K) → ReadsSame now l (purge_expired_local dec now l)
  unfolding purge_expired_local
  purge-ReadsSame now l = (refl, refl, refl, λ k t le. purge-later now t k l le)

  -- In a consistent limiter with a window, `incrementLocal` counts one more than was counted for the
  -- key in a window that is still open, starts again at 1 if there is none, and stores that count;
  -- `currentLocal` reads the count, and leaves the settings of the limiter and what it counts for any
  -- key, then or later.
  pub increment_local-live_count :
      (now until : ℕ) (key : K) (l : FixedWindowLimiter K)
      → IsConsistent dec l
      → 0 < l.window
      → ((increment_local dec now until key l).1 ≡ live_count now key l + 1)
        × (live_count now key (increment_local dec now until key l).0 ≡ live_count now key l + 1)
        × ((current_local dec now until key l).1 ≡ live_count now key l)
        × ReadsSame now l (current_local dec now until key l).0
  unfolding current_local
  increment_local-live_count now until key l h w =
      let p = purge_expired_local dec now l in
      let same = purge-live_count now key l h in
      elim (Option-cases (find dec key p.counters)) [
        | inl g ↦
            let (one, k) = increment_fresh now until key l g in
            let zero' : live_count now key l ≡ 0 = sym same ∙ rw (g, live_count) refl in
            (
              one ∙ rw zero' (omega arith),
              after 1 (now + l.window) k.counter (omega arith) ∙ rw zero' (omega arith),
              rw (g, current_local) (sym zero'),
              rw (g, current_local) (purge-ReadsSame now l),
            )
        | inr (c, g) ↦
            let live = purge_find now key l c g h in
            let f = purge_only now key l c g in
            let (more, k) = increment_live now until key l c f live in
            let count' : live_count now key l ≡ c.count = rw (f, live_count) (open_count c live) in
            (
              more ∙ rw count' refl,
              after (c.count + 1) c.expires_at k.counter live ∙ rw count' refl,
              rw (g, current_local) (sym count'),
              rw (g, current_local) (purge-ReadsSame now l),
            )
      ]
    where
      open_count :
          (c : LocalCounter)
          → now < c.expires_at
          → (if ltb now c.expires_at then c.count else 0) ≡ c.count
      open_count c live = ground arith

      after :
          (n t : ℕ)
          → find dec key (increment_local dec now until key l).0.counters
            ≡ some (record { count = n; expires_at = t })
          → now < t
          → live_count now key (increment_local dec now until key l).0 ≡ n
      after n t f live = rw (f, live_count) (ground arith)

-- The specification of a fixed window: of the requests that follow `used` others, those are let
-- through that are among the first `limit` of the window.
abbrev pub first_in_window : ℕ → ℕ → List Request → List Bool
first_in_window limit used [] = []
first_in_window limit used (q ∷ qs) = leb (used + 1) limit ∷ first_in_window limit (used + 1) qs

-- The script counts.
abbrev pub is_counted : ScriptReply → Bool
is_counted (counted count ttl) = true
is_counted _ = false

module _ {K : Type 0} (dec : Discrete K) where
  increment_local_fallback :
      (q : Request) (key : K) (l : FixedWindowLimiter K) (r : RetryAt)
      → (q.connected && is_counted q.reply) ≡ false
      → let (s, count, ttl) = increment dec q.clock q.connected q.reply key (l, r) in
        (s.0 ≡ (increment_local dec q.clock.now q.clock.until key l).0)
        × (count ≡ (increment_local dec q.clock.now q.clock.until key l).1)
  unfolding increment increment_redis redis_client auth_redis_attempt_allowed
  increment_local_fallback q key l none h = ground arith
  increment_local_fallback q key l (some t) h = ground arith

  allow_step :
      (q : Request) (key : K) (l : FixedWindowLimiter K) (r : RetryAt) (n : ℕ)
      → (q.connected && is_counted q.reply) ≡ false
      → 0 < l.limit
      → 0 < l.window
      → (increment_local dec q.clock.now q.clock.until key l).1 ≡ n
      → ((allow dec q.clock q.connected q.reply key (l, r)).1 ≡ leb n l.limit)
        × ((allow dec q.clock q.connected q.reply key (l, r)).0.0
            ≡ (increment_local dec q.clock.now q.clock.until key l).0)
  unfolding allow
  allow_step q key l r n down pl pw e = ground (arith, increment_local_fallback q key l r down)

  serve_open :
      (key : K) (qs : List Request) (l : FixedWindowLimiter K) (r : RetryAt) (n t : ℕ)
      → 0 < l.limit
      → 0 < l.window
      → find dec key l.counters ≡ some (record { count = n; expires_at = t })
      → All (λ q. (q.connected && is_counted q.reply) ≡ false) qs
      → All (λ q. q.clock.now < t) qs
      → serve_all dec key qs (l, r) ≡ first_in_window l.limit n qs
  unfolding serve_all
  serve_open key [] l r n t pl pw f down h = refl
  serve_open key (q ∷ qs) l r n t pl pw f down h =
      let (count, k) =
        increment_live dec q.clock.now q.clock.until key l (record { count = n; expires_at = t }) f
          h.0 in
      let (said, left) = allow_step q key l r (n + 1) down.0 pl pw count in
      let s' = (allow dec q.clock q.connected q.reply key (l, r)).0 in
      let limit' : s'.0.limit ≡ l.limit = rw left k.same_limit in
      let window' : s'.0.window ≡ l.window = rw left k.same_window in
      let rest =
        serve_open key qs s'.0 s'.1 (n + 1) t (rw limit' pl) (rw window' pw) (rw left k.counter)
          down.1 h.1 in
      ap₂ ◌∷◌ said (rest ∙ ap (λ m. first_in_window m (n + 1) qs) limit')

  -- While Redis counts nothing, since there is no client or its script fails or its answer is malformed, of
  -- any number of requests of one key that come before the window of the first of them ends, exactly
  -- the first `limit` are let through: if the limiter is consistent and has no open window for the
  -- key, the decisions are those of the specification.
  pub serve_all-first_in_window :
      (key : K) (q : Request) (qs : List Request) (l : FixedWindowLimiter K) (r : RetryAt)
      → IsConsistent dec l
      → 0 < l.limit
      → 0 < l.window
      → find dec key (purge_expired_local dec q.clock.now l).counters ≡ none
      → All (λ d. (d.connected && is_counted d.reply) ≡ false) (q ∷ qs)
      → All (λ d. d.clock.now < q.clock.now + l.window) qs
      → serve_all dec key (q ∷ qs) (l, r) ≡ first_in_window l.limit 0 (q ∷ qs)
  unfolding serve_all
  serve_all-first_in_window key q qs l r h pl pw g down later =
      let (count, k) = increment_fresh dec q.clock.now q.clock.until key l g in
      let (said, left) = allow_step q key l r 1 down.0 pl pw count in
      let s' = (allow dec q.clock q.connected q.reply key (l, r)).0 in
      let limit' : s'.0.limit ≡ l.limit = rw left k.same_limit in
      let window' : s'.0.window ≡ l.window = rw left k.same_window in
      let rest =
        serve_open key qs s'.0 s'.1 1 (q.clock.now + l.window) (rw limit' pl) (rw window' pw)
          (rw left k.counter) down.1 later in
      ap₂ ◌∷◌ said (rest ∙ ap (λ m. first_in_window m 1 qs) limit')
