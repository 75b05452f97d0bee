-- ===== src/ProxyQueue/Defects.antt =====
-- How many repairs pop.lua of internal/jobs/queue/proxy has to make: each round that goes on makes one.
use magpie_backend.Prelude.{
  ℕ, ◌+◌, ◌≤◌, ◌<◌, ◌==◌, if◌then◌else◌, ◌≡◌, ◌≢◌, refl, ap, ◌∙◌, Option, none, some, [], ◌∷◌, find,
  assign, remove, ℕ_discrete, is_some, arith,
}
use magpie_backend.SortedSets.{SortedSet, zscore, zadd, zrem, zmin, IsKeyed}
use magpie_backend.ProxyQueue.{Store}

-- The members that have no payload.
unfoldable pub bare_members : (ℕ → Option ℕ) → SortedSet → ℕ
bare_members payloads [] = 0
bare_members payloads ((m, s) ∷ z) =
    (if is_some (payloads m) then 0 else 1) + bare_members payloads z

-- Whether a head is wrong for a queue with this first member.
abbrev pub wrong_head : ℕ → Option (ℕ × ℕ) → ℕ
wrong_head h none = 1
wrong_head h (some (m, s)) = if s == h then 0 else 1

abbrev pub defects_of : Store → ℕ → ℕ → ℕ
defects_of st q h = wrong_head h (zmin (st.queues q)) + bare_members st.payloads (st.queues q)

unfoldable pub defects_in : SortedSet → Store → ℕ
unfolding bare_members
defects_in [] st = 0
defects_in ((q, h) ∷ heads) st = defects_of st q h + defects_in heads st

-- The wrong heads, and the members without payload in the queues that have a head.
unfoldable pub defects : Store → ℕ
unfolding defects_in
defects st = defects_in st.heads st

-- The stores differ at most in the queue.
abbrev pub Agree : ℕ → Store → Store → Type 0
Agree q st st' = (st'.payloads ≡ st.payloads) × ((k : ℕ) → k ≢ q → st'.queues k ≡ st.queues k)

defects_of-Agree :
    (q k h : ℕ) (st st' : Store) → Agree q st st' → k ≢ q → defects_of st' k h ≡ defects_of st k h
defects_of-Agree q k h st st' (payloads, queues) other =
    ap (λ z. wrong_head h (zmin z) + bare_members st'.payloads z) (queues k other)
    ∙ ap (λ p. wrong_head h (zmin (st.queues k)) + bare_members p (st.queues k)) payloads

defects_in-Agree :
    (q : ℕ) (heads : SortedSet) (st st' : Store)
    → Agree q st st'
    → zscore heads q ≡ none
    → defects_in heads st' ≡ defects_in heads st
unfolding defects_in find
defects_in-Agree q [] st st' same absent = refl
defects_in-Agree q ((k, h) ∷ heads) st st' same absent = elim (ℕ_discrete k q) [
  | yes here ↦ absurd (ground arith)
  | no other ↦
      ground (arith, defects_of-Agree q k h st st' same other, defects_in-Agree q heads st st' same)
]

zrem-absent : (q : ℕ) (heads : SortedSet) → zscore heads q ≡ none → zrem q heads ≡ heads
unfolding find remove
zrem-absent q [] absent = refl
zrem-absent q ((k, h) ∷ heads) absent = ground (arith, zrem-absent q heads)

-- The head of the queue is written again, or removed.
pub defects_in-zadd :
    (q h s : ℕ) (heads : SortedSet) (st st' : Store)
    → Agree q st st'
    → IsKeyed heads
    → zscore heads q ≡ some h
    → defects_in (zadd s q heads) st' + defects_of st q h ≡ defects_in heads st + defects_of st' q s
unfolding defects_in find assign
defects_in-zadd q h s [] st st' same keyed e = absurd (ground arith)
defects_in-zadd q h s ((k, g) ∷ heads) st st' same (new, keyed) e = elim (ℕ_discrete k q) [
  | yes here ↦ ground (arith, defects_in-Agree q heads st st' same)
  | no other ↦ ground (
    arith,
    defects_of-Agree q k g st st' same other,
    defects_in-zadd q h s heads st st' same keyed,
  )
]

pub defects_in-zrem :
    (q h : ℕ) (heads : SortedSet) (st st' : Store)
    → Agree q st st'
    → IsKeyed heads
    → zscore heads q ≡ some h
    → defects_in (zrem q heads) st' + defects_of st q h ≡ defects_in heads st
unfolding defects_in find remove
defects_in-zrem q h [] st st' same keyed e = absurd (ground arith)
defects_in-zrem q h ((k, g) ∷ heads) st st' same (new, keyed) e = elim (ℕ_discrete k q) [
  | yes here ↦ ground (arith, defects_in-Agree q heads st st' same, zrem-absent q heads)
  | no other ↦
      ground (
        arith,
        defects_of-Agree q k g st st' same other,
        defects_in-zrem q h heads st st' same keyed,
      )
]

bare_members-zrem_le :
    (payloads : ℕ → Option ℕ) (m : ℕ) (z : SortedSet)
    → bare_members payloads (zrem m z) ≤ bare_members payloads z
unfolding bare_members remove
bare_members-zrem_le payloads m [] = omega arith
bare_members-zrem_le payloads m ((n, s) ∷ z) = ground (arith, bare_members-zrem_le payloads m z)

pub bare_members-zrem :
    (payloads : ℕ → Option ℕ) (m s : ℕ) (z : SortedSet)
    → payloads m ≡ none
    → zscore z m ≡ some s
    → bare_members payloads (zrem m z) < bare_members payloads z
unfolding bare_members remove find
bare_members-zrem payloads m s [] bare e = absurd (ground arith)
bare_members-zrem payloads m s ((n, t) ∷ z) bare e = elim (ℕ_discrete n m) [
  | yes same ↦ ground (arith, bare_members-zrem_le payloads m z)
  | no other ↦ ground (arith, bare_members-zrem payloads m s z bare)
]
