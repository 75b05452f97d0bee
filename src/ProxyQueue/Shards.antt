-- ===== src/ProxyQueue/Shards.antt =====
-- The queue of a member: queueKeyForMember of internal/jobs/queue/proxy/proxy_queue.go.
use magpie_backend.Prelude.{
  ℕ, zero, suc, ◌%◌, ◌^◌, ◌<◌, ◌==◌, leb, ◌≡◌, ◌≢◌, refl, some, List, [], ◌∷◌, Memᴰ, length,
  get_elem?, get_elem?-lt, Bool-cases, inl, inr, arith,
}
use native.Mathlib.Nat.{mod-lt}
use magpie_backend.ProxyQueue.{legacy_queue_key}
use magpie_backend.ProxyQueue.Workers.{
  build_pop_queue_keys, proxy_queue_shard_index, queue_key_for_member,
}

get_elem?-Memᴰ : (xs : List ℕ) (i x : ℕ) → get_elem? xs i ≡ some x → Memᴰ x xs
get_elem?-Memᴰ [] i x e = absurd (ground arith)
get_elem?-Memᴰ (y ∷ xs) zero x e = Memᴰ.head (ground arith)
get_elem?-Memᴰ (y ∷ xs) (suc i) x e = Memᴰ.tail (get_elem?-Memᴰ xs i x e)

proxy_queue_shard_index-lt :
    (hash : ℕ → ℕ) (m shards : ℕ) → shards ≢ 0 → proxy_queue_shard_index hash m shards < shards
unfolding proxy_queue_shard_index
proxy_queue_shard_index-lt hash m shards positive = elim (Bool-cases (leb shards 1)) [
  | inl t ↦ rw t (ground arith)
  | inr t ↦ rw t (mod-lt (hash m % 2 ^ 32) (ground arith))
]

-- Whatever the hash gives, the index of a member's shard is in range, and the queue of the member is one of those
-- that the queue's other operations read.
pub queue_key_for_member-Memᴰ :
    (hash : ℕ → ℕ) (shard_keys : List ℕ) (m : ℕ)
    → (q : ℕ) × (queue_key_for_member hash shard_keys m ≡ some q)
      × Memᴰ q (build_pop_queue_keys shard_keys)
unfolding queue_key_for_member build_pop_queue_keys
queue_key_for_member-Memᴰ hash shard_keys m = elim (Bool-cases (length shard_keys == 0)) [
  | inl t ↦ (legacy_queue_key, rw t refl, Memᴰ.head refl)
  | inr t ↦
      let index = proxy_queue_shard_index hash m (length shard_keys) in
      let (q, e) =
        get_elem?-lt shard_keys index
          (proxy_queue_shard_index-lt hash m (length shard_keys) (ground arith)) in
      (q, rw t e, Memᴰ.tail (get_elem?-Memᴰ shard_keys index q e))
]
