-- ===== src/ProxyQueue/Migration.antt =====
-- migrate.lua of internal/jobs/queue/proxy: a claimed member whose payload has another hash moves to the member
-- of that hash. Keys that the script skips as repeated change nothing and stay here.
use magpie_backend.Prelude.{
  ℕ, ◌==◌, ltb, leb, if◌then◌else◌, Bool, false, not, ◌&&◌, ◌||◌, Option, none, some, List, [], ◌∷◌,
  is_some,
}
use magpie_backend.SortedSets.{zscore, zadd}
use magpie_backend.ProxyQueue.{
  Store, due_score, lease_score, is_lease, set_queue, set_payload, drop_member, zadd_xx,
  refresh_head, refresh_heads, same_payload,
}

-- The reply of the script: nothing to check, an error, or the payload and the queue of the claimed member.
pub data Migrated : Type 0 where
  not_claimed failed : Migrated
  migrated : (payload queue : ℕ) → Migrated

-- The old member still has the lease that ends at `expected`, and that has not ended.
abbrev pub is_held : (expected now : ℕ) → Option ℕ → Bool
is_held expected now none = false
is_held expected now (some score) = score == lease_score expected && not (leb expected now)

-- A payload that changed during the decoding: the lease is released, or the member has no payload any more.
unfoldable pub release : (old_queue old_member now : ℕ) → Option ℕ → Store → Store
unfolding zadd_xx drop_member refresh_head
release old_queue old_member now (some source) st =
    refresh_head old_queue
      (set_queue old_queue (zadd_xx (due_score now) old_member (st.queues old_queue)) st)
release old_queue old_member now none st =
    refresh_head old_queue (drop_member old_queue old_member st)

-- The first queue in which a worker has a lease on the member that has not ended.
abbrev pub live_lease_here : (q now : ℕ) → Option ℕ → Option ℕ → Option ℕ
live_lease_here q now none rest = rest
live_lease_here q now (some score) rest =
    if is_lease score && ltb (due_score now) score then some q else rest

unfoldable pub live_owner : List ℕ → (m now : ℕ) → Store → Option ℕ
live_owner [] m now st = none
live_owner (q ∷ qs) m now st =
    live_lease_here q now (zscore (st.queues q) m) (live_owner qs m now st)

-- One round of the loop over the queues, and whether it removed a member.
unfoldable pub leave_queue : (k queue old_member m : ℕ) → Store → Store
unfolding drop_member
leave_queue k queue old_member m st =
    let left = drop_member k old_member st in if k == queue then left else drop_member k m left

unfoldable pub is_dirty : (k queue old_member m : ℕ) → Store → Bool
unfolding drop_member
is_dirty k queue old_member m st =
    is_some (zscore (st.queues k) old_member)
    || (not (k == queue) && is_some (zscore ((drop_member k old_member st).queues k) m))

unfoldable pub leave_all : List ℕ → (queue old_member m : ℕ) → Store → List ℕ × Store
unfolding leave_queue is_dirty
leave_all [] queue old_member m st = ([], st)
leave_all (k ∷ ks) queue old_member m st =
    let (dirty, st') = leave_all ks queue old_member m (leave_queue k queue old_member m st) in
    (if is_dirty k queue old_member m st then k ∷ dirty else dirty, st')

-- The end of the script, for the payload that it writes and the queue whose worker owns the member.
unfoldable pub take_over :
    List ℕ → (target old_member m expected payload : ℕ) → Option ℕ → Store → Migrated × Store
unfolding leave_all refresh_heads
take_over keys target old_member m expected payload (some queue) st =
    let written = set_payload old_member none (set_payload m (some payload) st) in
    let (dirty, left) = leave_all keys queue old_member m written in
    (not_claimed, refresh_heads dirty left)
take_over keys target old_member m expected payload none st =
    let written = set_payload old_member none (set_payload m (some payload) st) in
    let (dirty, left) = leave_all keys target old_member m written in
    let leased = set_queue target (zadd (lease_score expected) m (left.queues target)) left in
    (migrated payload target, refresh_heads (target ∷ dirty) leased)

-- What the script does with the payload that it made of the current one, or with the error that it found.
unfoldable pub move_member :
    List ℕ → (target old_member m expected now : ℕ) → Option ℕ → Store → Migrated × Store
unfolding take_over live_owner
move_member keys target old_member m expected now none st = (failed, st)
move_member keys target old_member m expected now (some payload) st =
    take_over keys target old_member m expected payload (live_owner keys m now st) st

-- migrate.lua; `keys` are the old queue, the target and the supported queues, `merge` makes the payload from the
-- one that the member has, and `normalized` and `source` are the payloads that the worker wrote and read.
unfoldable pub migrate :
    (Option ℕ → Option ℕ)
    → List ℕ
    → (old_queue target old_member m expected now normalized source : ℕ) → Store
    → Migrated × Store
unfolding release move_member
migrate merge keys old_queue target old_member m expected now normalized source st =
    if not (is_held expected now (zscore (st.queues old_queue) old_member))
    then (not_claimed, st)
    else if not (same_payload (st.payloads old_member) source)
    then (not_claimed, release old_queue old_member now (st.payloads old_member) st)
    else if old_member == m
    then (migrated normalized old_queue, set_payload m (some normalized) st)
    else move_member keys target old_member m expected now (merge (st.payloads m)) st
