-- ===== src/ProxyQueue/Bulk.antt =====
-- The scripts of internal/jobs/queue/proxy that imports and bulk scheduling run, add.lua and
-- requeue_all.lua, and the Go loops over them.
use magpie_backend.Prelude.{
  ℕ, suc, ◌==◌, if◌then◌else◌, true, false, Option, none, some, List, [], ◌∷◌,
}
use magpie_backend.SortedSets.{SortedSet, zscore, zadd}
use magpie_backend.ProxyQueue.{
  Store, drop_member, due_score, is_lease, set_queue, set_heads, set_payload, zadd_lt, zadd_nx,
  refresh_head,
}

-- The first of the queues in which the member has a lease, with its score.
abbrev pub lease_here : ℕ → Option ℕ → Option (ℕ × ℕ) → Option (ℕ × ℕ)
lease_here q none rest = rest
lease_here q (some score) rest = if is_lease score then some (q, score) else rest

unfoldable pub owned : List ℕ → ℕ → Store → Option (ℕ × ℕ)
owned [] m st = none
owned (q ∷ qs) m st = lease_here q (zscore (st.queues q) m) (owned qs m st)

-- `ZREM` of the member from each of the queues but one.
unfoldable pub leave_others : List ℕ → (queue m : ℕ) → Store → Store
unfolding drop_member
leave_others [] queue m st = st
leave_others (q ∷ qs) queue m st =
    leave_others qs queue m (if q == queue then st else drop_member q m st)

-- The end of add.lua, for the queue and the score that the heads get.
unfoldable pub place : List ℕ → (queue head_score m due payload : ℕ) → Store → Store
unfolding zadd_nx zadd_lt leave_others
place keys queue head_score m due payload st =
    let written = set_payload m (some payload) st in
    let added = set_queue queue (zadd_nx (due_score due) m (written.queues queue)) written in
    let moved = leave_others keys queue m added in
    set_heads (zadd_lt head_score queue moved.heads) moved

-- add.lua, where `keys` are the target and the supported queues.
unfoldable pub add : List ℕ → (target m due payload : ℕ) → Store → Store
unfolding owned place
add keys target m due payload st = elim (owned (target ∷ keys) m st) [
  | none ↦ place (target ∷ keys) target (due_score due) m due payload st
  | some (q, score) ↦ place (target ∷ keys) q score m due payload st
]

-- The loop of requeue_all.lua over the pairs of a member and its new due time, with the count.
unfoldable pub reschedule_members : List (ℕ × ℕ) → SortedSet → ℕ × SortedSet
reschedule_members [] z = (0, z)
reschedule_members ((m, due) ∷ args) z = elim (zscore z m) [
  | none ↦ reschedule_members args z
  | some score ↦ elim (is_lease score) [
    | true ↦ reschedule_members args z
    | false ↦ let (n, z') = reschedule_members args (zadd (due_score due) m z) in (suc n, z')
  ]
]

unfoldable pub requeue_batch : ℕ → List (ℕ × ℕ) → Store → ℕ × Store
unfolding reschedule_members refresh_head
requeue_batch q args st =
    let (n, z) = reschedule_members args (st.queues q) in (n, refresh_head q (set_queue q z st))
