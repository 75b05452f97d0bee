-- ===== src/ProxyQueue/Migrating.antt =====
-- migrate.lua of internal/jobs/queue/proxy keeps the index of the heads.
use magpie_backend.Prelude.{
  ℕ, ◌==◌, if◌then◌else◌, Option, none, some, List, [], ◌∷◌, Bool-cases, Option-cases, inl, inr,
}
use magpie_backend.SortedSets.{zscore, zadd, IsKeyed, zadd-IsKeyed}
use magpie_backend.ProxyQueue.{
  Store, due_score, lease_score, set_queue, set_payload, drop_member, zadd_xx, refresh_head,
  refresh_heads, same_payload,
}
use magpie_backend.ProxyQueue.Heads.{IsIndexed, IsIndexed-IsIndexedBut, refresh_head-IsIndexed}
use magpie_backend.ProxyQueue.Popping.{drop-IsIndexed, refresh_queue-IsIndexed}
use magpie_backend.ProxyQueue.Index.{if-IsIndexed, refresh_heads-IsIndexed, set_payload-IsIndexed}
use magpie_backend.ProxyQueue.Migration.{
  is_held, release, live_owner, leave_queue, leave_all, take_over, move_member, migrate,
}

zadd_xx-IsKeyed : (score m : ℕ) (z : List (ℕ × ℕ)) → IsKeyed z → IsKeyed (zadd_xx score m z)
unfolding zadd_xx
zadd_xx-IsKeyed score m z h = elim (Option-cases (zscore z m)) [
  | inl absent ↦ rw (absent, zadd_xx) h
  | inr (old, present) ↦ rw (present, zadd_xx) (zadd-IsKeyed score m z h)
]

release-IsIndexed :
    (old_queue old_member now : ℕ) (source : Option ℕ) (st : Store)
    → IsIndexed st
    → IsIndexed (release old_queue old_member now source st)
unfolding release IsIndexed
release-IsIndexed old_queue old_member now (some source) st h =
    refresh_queue-IsIndexed old_queue (zadd_xx (due_score now) old_member (st.queues old_queue)) st
      (zadd_xx-IsKeyed (due_score now) old_member (st.queues old_queue) (h.0.1 old_queue)) h
release-IsIndexed old_queue old_member now none st h =
    refresh_head-IsIndexed old_queue (drop_member old_queue old_member st) (
      IsIndexed-IsIndexedBut old_queue (drop_member old_queue old_member st)
        (drop-IsIndexed old_queue old_member st h))

leave_all-IsIndexed :
    (ks : List ℕ) (queue old_member m : ℕ) (st : Store)
    → IsIndexed st
    → IsIndexed (leave_all ks queue old_member m st).1
unfolding leave_all leave_queue
leave_all-IsIndexed [] queue old_member m st h = h
leave_all-IsIndexed (k ∷ ks) queue old_member m st h =
    let left = drop_member k old_member st in
    let h' = drop-IsIndexed k old_member st h in
    leave_all-IsIndexed ks queue old_member m (if k == queue then left else drop_member k m left)
      (if-IsIndexed (k == queue) left (drop_member k m left) h' (drop-IsIndexed k m left h'))

take_over-IsIndexed :
    (keys : List ℕ) (target old_member m expected payload : ℕ) (owner : Option ℕ) (st : Store)
    → IsIndexed st
    → IsIndexed (take_over keys target old_member m expected payload owner st).1
unfolding take_over refresh_heads
take_over-IsIndexed keys target old_member m expected payload (some queue) st h =
    let written = set_payload old_member none (set_payload m (some payload) st) in
    let h' =
      set_payload-IsIndexed old_member none (set_payload m (some payload) st)
        (set_payload-IsIndexed m (some payload) st h) in
    refresh_heads-IsIndexed (leave_all keys queue old_member m written).0
      (leave_all keys queue old_member m written).1
      (leave_all-IsIndexed keys queue old_member m written h')
take_over-IsIndexed keys target old_member m expected payload none st h =
    let written = set_payload old_member none (set_payload m (some payload) st) in
    let h' =
      set_payload-IsIndexed old_member none (set_payload m (some payload) st)
        (set_payload-IsIndexed m (some payload) st h) in
    let (dirty, left) = leave_all keys target old_member m written in
    let left-IsIndexed = leave_all-IsIndexed keys target old_member m written h' in
    let z = zadd (lease_score expected) m (left.queues target) in
    refresh_heads-IsIndexed dirty (refresh_head target (set_queue target z left)) (
      refresh_queue-IsIndexed target z left
        (zadd-IsKeyed (lease_score expected) m (left.queues target)
          ((unfold IsIndexed in left-IsIndexed.0.1 target)))
        left-IsIndexed)

move_member-IsIndexed :
    (keys : List ℕ) (target old_member m expected now : ℕ) (payload : Option ℕ) (st : Store)
    → IsIndexed st
    → IsIndexed (move_member keys target old_member m expected now payload st).1
unfolding move_member
move_member-IsIndexed keys target old_member m expected now none st h = h
move_member-IsIndexed keys target old_member m expected now (some payload) st h =
    take_over-IsIndexed keys target old_member m expected payload (live_owner keys m now st) st h

pub migrate-IsIndexed :
    (merge : Option ℕ → Option ℕ) (keys : List ℕ)
    (old_queue target old_member m expected now normalized source : ℕ) (st : Store)
    → IsIndexed st
    → IsIndexed
        (migrate merge keys old_queue target old_member m expected now normalized source st).1
unfolding migrate
migrate-IsIndexed merge keys old_queue target old_member m expected now normalized source st h =
    elim (Bool-cases (is_held expected now (zscore (st.queues old_queue) old_member))) [
      | inr lost ↦ rw lost h
      | inl held ↦ elim (Bool-cases (same_payload (st.payloads old_member) source)) [
        | inr changed ↦
            rw (held, changed)
              (release-IsIndexed old_queue old_member now (st.payloads old_member) st h)
        | inl same ↦ elim (Bool-cases (old_member == m)) [
          | inl alias ↦ rw (held, same, alias) (set_payload-IsIndexed m (some normalized) st h)
          | inr other ↦
              rw (held, same, other)
                (move_member-IsIndexed keys target old_member m expected now (merge (st.payloads m))
                  st h)
        ]
      ]
    ]
