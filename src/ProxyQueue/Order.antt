-- ===== src/ProxyQueue/Order.antt =====
-- The order in which RequeueAll of internal/jobs/queue/proxy/proxy_queue.go takes the members of a queue.
use magpie_backend.Prelude.{
  ℕ, zero, suc, ◌≤◌, ◌≡◌, refl, ◌∙◌, some, [], ◌∷◌, Memᴰ, length, length-remove_lt, ℕ_discrete,
  Option-cases, inl, inr, arith,
}
use magpie_backend.SortedSets.{
  SortedSet, zscore, zrem, zmin, IsKeyed, zmin-none, zmin-zscore, zrem-IsKeyed,
}
use magpie_backend.ProxyQueue.Heads.{zscore-zrem, zscore-empty}
use magpie_backend.ProxyQueue.Imports.{zrange}

-- As many rounds as there are entries list every member.
pub zrange-Memᴰ :
    (n m s : ℕ) (z : SortedSet)
    → IsKeyed z
    → length z ≤ n
    → zscore z m ≡ some s
    → Memᴰ m (zrange n z)
unfolding zrange
zrange-Memᴰ zero m s [] keyed few e = absurd (zscore-empty [] m s refl e)
zrange-Memᴰ zero m s (x ∷ z) keyed few e = absurd (omega arith)
zrange-Memᴰ (suc n) m s z keyed few e = elim (Option-cases (zmin z)) [
  | inl empty ↦ absurd (zscore-empty z m s (zmin-none z empty) e)
  | inr ((k, t), least) ↦
      rw (least, zrange)
        (elim (ℕ_discrete m k) [
          | yes same ↦ Memᴰ.head same
          | no other ↦ Memᴰ.tail (
              zrange-Memᴰ n m s (zrem k z) (zrem-IsKeyed k z keyed)
                (omega (arith, length-remove_lt ℕ_discrete k z t (zmin-zscore z k t keyed least)))
                (zscore-zrem k m z other ∙ e))
        ])
]
