-- ===== src/ProxyQueue.antt =====
-- The proxy queue: internal/jobs/queue/proxy, the Lua scripts and the Go methods that run them. Members
-- (hashes), payload strings and queue keys are numbers: queue 0 is the legacy queue, `shard + 1` a shard.
-- Times are Unix milliseconds; a score counts half milliseconds, so a lease is odd and a due time is even.
-- Each script is one atomic step of Redis, hence a function on the store.
use magpie_backend.Prelude.{
  ℕ, zero, suc, ◌+◌, ◌*◌, ◌/◌, ◌%◌, ◌==◌, ltb, leb, if◌then◌else◌, not, ◌&&◌, ◌||◌, Bool, true,
  false, Option, none, some, List, [], ◌∷◌,
}
use magpie_backend.SortedSets.{SortedSet, zscore, zadd, zrem, zmin}
pub mod Bulk
pub mod Heads
pub mod Popping
pub mod Index
pub mod BulkIndex
pub mod Migration
pub mod Migrating
pub mod MigrationLeases
pub mod Steps
pub mod Earliest
pub mod Fencing
pub mod Stale
pub mod Reclaims
pub mod Finds
pub mod Workers
pub mod Shards
pub mod Leases
pub mod Completes
pub mod Imports
pub mod Order
pub mod BulkLeases
pub mod Placement
pub mod Defects
pub mod Rounds
mod Examples

pub record Store : Type 0 where
  pub heads : SortedSet
  pub queues : ℕ → SortedSet
  pub payloads : ℕ → Option ℕ

abbrev pub legacy_queue_key : ℕ
legacy_queue_key = 0

-- `processingLease` in milliseconds.
abbrev pub processing_lease : ℕ
processing_lease = 300000

-- The score of a due time, and that of a lease, which has the marker `+ 0.5`.
abbrev pub due_score : ℕ → ℕ
due_score ms = 2 * ms

abbrev pub lease_score : ℕ → ℕ
lease_score ms = 2 * ms + 1

abbrev pub is_lease : ℕ → Bool
is_lease score = score % 2 == 1

-- A write of one queue, of the heads, and of one payload (`none` deletes it).
abbrev pub set_queue : ℕ → SortedSet → Store → Store
set_queue q z st = record st { queues = λ k. if k == q then z else st.queues k }

abbrev pub set_heads : SortedSet → Store → Store
set_heads heads st = record st { heads = heads }

abbrev pub set_payload : ℕ → Option ℕ → Store → Store
set_payload m payload st = record st { payloads = λ k. if k == m then payload else st.payloads k }

-- `ZREM queue member`.
unfoldable pub drop_member : (q m : ℕ) → Store → Store
drop_member q m st = set_queue q (zrem m (st.queues q)) st

-- `ZADD key LT score member`.
unfoldable pub zadd_lt : ℕ → ℕ → SortedSet → SortedSet
zadd_lt score m z = elim (zscore z m) [
  | none ↦ zadd score m z
  | some old ↦ if ltb score old then zadd score m z else z
]

-- `ZADD key NX score member`.
unfoldable pub zadd_nx : ℕ → ℕ → SortedSet → SortedSet
zadd_nx score m z = elim (zscore z m) [ none ↦ zadd score m z | some old ↦ z ]

-- `ZADD key XX score member`.
unfoldable pub zadd_xx : ℕ → ℕ → SortedSet → SortedSet
zadd_xx score m z = elim (zscore z m) [ none ↦ z | some old ↦ zadd score m z ]

-- The head that the heads get for a queue with this first entry.
abbrev pub head_of : ℕ → Option (ℕ × ℕ) → SortedSet → SortedSet
head_of q none heads = zrem q heads
head_of q (some (m, score)) heads = zadd score q heads

-- `refresh_head` of the scripts.
unfoldable pub refresh_head : ℕ → Store → Store
refresh_head q st = set_heads (head_of q (zmin (st.queues q)) st.heads) st

-- `RefreshHeads`.
unfoldable pub refresh_heads : List ℕ → Store → Store
unfolding refresh_head
refresh_heads [] st = st
refresh_heads (q ∷ qs) st = refresh_heads qs (refresh_head q st)

-- pop.lua: nothing, nothing before a time, or a claimed member with its payload, due time and queue.
pub data Popped : Type 0 where
  nothing : Popped
  not_before : ℕ → Popped
  found : (member payload score queue : ℕ) → Popped

pub data Round : Type 0 where
  done : Popped → Store → Round
  again : Store → Round

-- The claim of a due member, or the removal of one that has no payload.
unfoldable pub claim : ℕ → ℕ → ℕ → ℕ → ℕ → Option ℕ → Store → Round
unfolding refresh_head drop_member
claim now lease q m score none st = again (refresh_head q (drop_member q m st))
claim now lease q m score (some payload) st =
    done (found m payload (score / 2) q)
      (refresh_head q (set_queue q (zadd (lease_score (now + lease)) m (st.queues q)) st))

-- A round with the head `q` of the heads and the first entry of its queue.
unfoldable pub pop_entry : ℕ → ℕ → ℕ → ℕ → Option (ℕ × ℕ) → Store → Round
unfolding claim
pop_entry now lease q indexed none st = again (set_heads (zrem q st.heads) st)
pop_entry now lease q indexed (some (m, score)) st =
    if not (score == indexed)
    then again (set_heads (zadd score q st.heads) st)
    else if ltb (due_score now) score
    then done (not_before (score / 2)) st
    else claim now lease q m score (st.payloads m) st

unfoldable pub pop_head : ℕ → ℕ → Option (ℕ × ℕ) → Store → Round
unfolding pop_entry
pop_head now lease none st = done nothing st
pop_head now lease (some (q, indexed)) st = pop_entry now lease q indexed (zmin (st.queues q)) st

-- The next round, unless the script has returned.
abbrev pub continue : (Store → Popped × Store) → Round → Popped × Store
continue next (done popped st) = (popped, st)
continue next (again st) = next st

unfoldable pub pop_rounds : ℕ → ℕ → ℕ → Store → Popped × Store
unfolding pop_head
pop_rounds zero now lease st = (nothing, st)
pop_rounds (suc n) now lease st =
    continue (pop_rounds n now lease) (pop_head now lease (zmin st.heads) st)

unfoldable pub pop : ℕ → ℕ → Store → Popped × Store
unfolding pop_rounds
pop now lease st = pop_rounds 8 now lease st

-- The test of complete.lua and remove.lua: no lease is expected, or the member still has it.
unfoldable pub holds_lease : ℕ → ℕ → SortedSet → Bool
holds_lease expected m z = elim (zscore z m) [
  | none ↦ expected == 0
  | some score ↦ expected == 0 || score == lease_score expected
]

-- complete.lua; `merge current before after` is the payload that it writes when the current one is not
-- the snapshot `before`. The strings '' are `none`.
unfoldable pub payload_of : (ℕ → ℕ → ℕ → ℕ) → Option ℕ → Option ℕ → ℕ → ℕ
payload_of merge (some current) (some before) payload =
    if current == before then payload else merge current before payload
payload_of merge _ _ payload = payload

unfoldable pub write_payload : (ℕ → ℕ → ℕ → ℕ) → ℕ → Option ℕ → Option ℕ → Store → Store
unfolding payload_of
write_payload merge m none snapshot st = st
write_payload merge m (some payload) snapshot st =
    set_payload m (some (payload_of merge (st.payloads m) snapshot payload)) st

-- `ZREM old_queue member` and `ZREM legacy member` where the member moves to `queue`.
unfoldable pub leave_queues : (queue old_queue m : ℕ) → Store → Store
unfolding drop_member
leave_queues queue old_queue m st =
    let left = if old_queue == queue then st else drop_member old_queue m st in
    if legacy_queue_key == queue || legacy_queue_key == old_queue
    then left
    else drop_member legacy_queue_key m left

-- `ZADD queue next member` and `ZADD heads LT next queue`.
unfoldable pub schedule : (queue m next : ℕ) → Store → Store
unfolding zadd_lt
schedule queue m next st =
    set_heads (zadd_lt (due_score next) queue st.heads)
      (set_queue queue (zadd (due_score next) m (st.queues queue)) st)

unfoldable pub complete :
    (ℕ → ℕ → ℕ → ℕ)
    → (queue old_queue m expected next : ℕ) → (payload snapshot : Option ℕ) → Store
    → Bool × Store
unfolding holds_lease write_payload leave_queues schedule
complete merge queue old_queue m expected next payload snapshot st =
    if holds_lease expected m (st.queues old_queue)
    then (
      true,
      schedule queue m next
          (leave_queues queue old_queue m (write_payload merge m payload snapshot st)),
    )
    else (false, st)

-- renew.lua, for the score that it read; `none` is its 0.
unfoldable pub renew_score :
    (queue m expected now renewed : ℕ) → Option ℕ → Store → Option ℕ × Store
renew_score queue m expected now renewed none st = (none, st)
renew_score queue m expected now renewed (some score) st =
    if not (score == lease_score expected) || leb expected now
    then (none, st)
    else (some renewed, set_queue queue (zadd (lease_score renewed) m (st.queues queue)) st)

unfoldable pub renew : (queue m expected now renewed : ℕ) → Store → Option ℕ × Store
unfolding renew_score
renew queue m expected now renewed st =
    renew_score queue m expected now renewed (zscore (st.queues queue) m) st

abbrev pub same_payload : Option ℕ → ℕ → Bool
same_payload none snapshot = false
same_payload (some current) snapshot = current == snapshot

-- remove.lua.
unfoldable pub remove : (queue m expected snapshot : ℕ) → Store → Bool × Store
unfolding holds_lease drop_member
remove queue m expected snapshot st =
    let gone = drop_member queue m (set_payload m none st) in
    if holds_lease expected m (st.queues queue)
      && (expected == 0 || same_payload (st.payloads m) snapshot)
    then (true, if legacy_queue_key == queue then gone else drop_member legacy_queue_key m gone)
    else (false, st)
