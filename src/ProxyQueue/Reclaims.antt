-- ===== src/ProxyQueue/Reclaims.antt =====
-- The lease that pop.lua of internal/jobs/queue/proxy gives, and the worker whose lease it replaced.
use magpie_backend.Prelude.{
  ℕ, zero, suc, ◌+◌, ◌<◌, ◌==◌, ltb, ◌≡◌, ◌≢◌, refl, ap, ◌∙◌, subst, false, Option, none, some,
  Bool-cases, Option-cases, inl, inr, arith,
}
use magpie_backend.SortedSets.{SortedSet, zscore, zadd, zmin}
use magpie_backend.ProxyQueue.{
  Store, Popped, Round, done, again, nothing, not_before, found, refresh_head, lease_score,
  due_score, continue, claim, pop_entry, pop_head, pop_rounds, pop, holds_lease, complete,
  renew_score, renew, remove, processing_lease,
}
use magpie_backend.ProxyQueue.Heads.{IsIndexed, zscore-zadd_same, if-same}
use magpie_backend.ProxyQueue.Earliest.{IsAnswer, pop-IsAnswer}
use magpie_backend.ProxyQueue.Steps.{Run}
use magpie_backend.ProxyQueue.Stale.{Run-GivesNone}

abbrev pub IsLeased : ℕ → Popped → Store → Type 0
IsLeased l nothing st = Unit
IsLeased l (not_before ms) st = Unit
IsLeased l (found m p ms q) st = zscore (st.queues q) m ≡ some (lease_score l)

abbrev RoundIsLeased : ℕ → Round → Type 0
RoundIsLeased l (done popped st) = IsLeased l popped st
RoundIsLeased l (again st) = Unit

claim-IsLeased :
    (now lease q m score : ℕ) (payload : Option ℕ) (st : Store)
    → RoundIsLeased (now + lease) (claim now lease q m score payload st)
unfolding claim refresh_head
claim-IsLeased now lease q m score none st = tt
claim-IsLeased now lease q m score (some p) st =
    let z = zadd (lease_score (now + lease)) m (st.queues q) in
    ap (λ y. zscore y m) (if-same q q z (st.queues q) refl)
    ∙ zscore-zadd_same (lease_score (now + lease)) m (st.queues q)

pop_entry-IsLeased :
    (now lease q indexed : ℕ) (entry : Option (ℕ × ℕ)) (st : Store)
    → RoundIsLeased (now + lease) (pop_entry now lease q indexed entry st)
unfolding pop_entry
pop_entry-IsLeased now lease q indexed none st = tt
pop_entry-IsLeased now lease q indexed (some (m, score)) st = elim (Bool-cases (score == indexed)) [
  | inr t ↦ rw t tt
  | inl t ↦ elim (Bool-cases (ltb (due_score now) score)) [
    | inl late ↦ rw (t, late) tt
    | inr due ↦ rw (t, due) (claim-IsLeased now lease q m score (st.payloads m) st)
  ]
]

pop_head-IsLeased :
    (now lease : ℕ) (head : Option (ℕ × ℕ)) (st : Store)
    → RoundIsLeased (now + lease) (pop_head now lease head st)
unfolding pop_head
pop_head-IsLeased now lease none st = tt
pop_head-IsLeased now lease (some (q, indexed)) st =
    pop_entry-IsLeased now lease q indexed (zmin (st.queues q)) st

continue-IsLeased :
    (l : ℕ) (rest : Store → Popped × Store) (r : Round)
    → ((st : Store) → IsLeased l (rest st).0 (rest st).1)
    → RoundIsLeased l r
    → IsLeased l (continue rest r).0 (continue rest r).1
continue-IsLeased l rest (done popped st) later h = h
continue-IsLeased l rest (again st) later h = later st

pop_rounds-IsLeased :
    (rounds now lease : ℕ) (st : Store)
    → IsLeased (now + lease) (pop_rounds rounds now lease st).0 (pop_rounds rounds now lease st).1
unfolding pop_rounds
pop_rounds-IsLeased zero now lease st = tt
pop_rounds-IsLeased (suc rounds) now lease st =
    continue-IsLeased (now + lease) (pop_rounds rounds now lease)
      (pop_head now lease (zmin st.heads) st) (pop_rounds-IsLeased rounds now lease)
      (pop_head-IsLeased now lease (zmin st.heads) st)

-- A claimed member has the lease that ends `lease` milliseconds later.
pub pop-IsLeased :
    (now lease : ℕ) (st : Store) → IsLeased (now + lease) (pop now lease st).0 (pop now lease st).1
unfolding pop
pop-IsLeased now lease st = pop_rounds-IsLeased 8 now lease st

pop-lease :
    (now lease m p ms q : ℕ) (st : Store)
    → (pop now lease st).0 ≡ found m p ms q
    → zscore ((pop now lease st).1.queues q) m ≡ some (lease_score (now + lease))
pop-lease now lease m p ms q st e =
    subst (λ r. IsLeased (now + lease) r (pop now lease st).1) e (pop-IsLeased now lease st)

-- The scripts refuse a worker that has this lease, and change nothing.
pub IsRefused : (l q m : ℕ) → Store → Type 0
IsRefused l q m st =
    ((merge : ℕ → ℕ → ℕ → ℕ) (queue next : ℕ) (payload snapshot : Option ℕ)
      → complete merge queue q m l next payload snapshot st ≡ (false, st))
    × ((now renewed : ℕ) → renew q m l now renewed st ≡ (none, st))
    × ((snapshot : ℕ) → remove q m l snapshot st ≡ (false, st))

holds_lease-stale :
    (l m : ℕ) (z : SortedSet)
    → l ≢ 0
    → zscore z m ≢ some (lease_score l)
    → holds_lease l m z ≡ false
unfolding holds_lease
holds_lease-stale l m z positive stale = elim (Option-cases (zscore z m)) [
  | inl e ↦ rw (e, holds_lease) (ground arith)
  | inr (score, e) ↦
      rw (e, holds_lease)
        (ground (arith, positive, λ (f : score ≡ lease_score l). stale (e ∙ ap some f)))
]

renew_score-stale :
    (q m l now renewed : ℕ) (o : Option ℕ) (st : Store)
    → o ≢ some (lease_score l)
    → renew_score q m l now renewed o st ≡ (none, st)
unfolding renew_score
renew_score-stale q m l now renewed none st stale = refl
renew_score-stale q m l now renewed (some score) st stale =
    elim (Bool-cases (score == lease_score l)) [
      | inl same ↦ absurd (stale (ground arith))
      | inr other ↦ rw other refl
    ]

pub stale-IsRefused :
    (l q m : ℕ) (st : Store)
    → l ≢ 0
    → zscore (st.queues q) m ≢ some (lease_score l)
    → IsRefused l q m st
unfolding complete renew remove IsRefused
stale-IsRefused l q m st positive stale =
    let gone = holds_lease-stale l m (st.queues q) positive stale in
    (
      λ merge queue next payload snapshot. rw gone refl,
      λ now renewed. renew_score-stale q m l now renewed (zscore (st.queues q) m) st stale,
      λ snapshot. rw gone refl,
    )

-- A worker's lease on a member has ended, and pop.lua gives the member to another worker. Whatever steps
-- follow, complete.lua, renew.lua and remove.lua refuse the first worker's lease and leave the store as it is.
pub Run-IsRefused :
    (l q m p ms now later : ℕ) (st st' : Store)
    → l ≢ 0
    → IsIndexed st
    → zscore (st.queues q) m ≡ some (lease_score l)
    → (pop now processing_lease st).0 ≡ found m p ms q
    → Run now (pop now processing_lease st).1 later st'
    → IsRefused l q m st'
unfolding IsAnswer
Run-IsRefused l q m p ms now later st st' positive indexed held claimed run =
    let (s, e, due, here, has, first) =
      subst (λ r. IsAnswer now st r) claimed (pop-IsAnswer now processing_lease st indexed) in
    let ended : l < now = ground arith in
    stale-IsRefused l q m st' positive (λ again_held.
      let given =
        Run-GivesNone l now (pop now processing_lease st).1 (omega arith) run q m again_held in
      absurd (ground (arith, pop-lease now processing_lease m p ms q st claimed)))
