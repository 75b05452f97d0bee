-- ===== src/ProxyQueue/Fencing.antt =====
-- Which leases the scripts of internal/jobs/queue/proxy give: none with a time that has passed as a lease.
use magpie_backend.Prelude.{
  ℕ, zero, suc, ◌+◌, ◌<◌, ◌==◌, ltb, ◌||◌, if◌then◌else◌, ◌≡◌, ◌≢◌, sym, ◌∙◌, subst, Bool, true,
  false, Option, none, some, ℕ_discrete, Bool-cases, Option-cases, inl, inr, arith,
}
use magpie_backend.SortedSets.{SortedSet, zscore, zadd, zrem, zmin}
use magpie_backend.ProxyQueue.{
  Store, Popped, Round, done, again, set_queue, drop_member, refresh_head, lease_score, due_score,
  legacy_queue_key, zadd_nx, continue, claim, pop_entry, pop_head, pop_rounds, leave_queues,
  schedule,
}
use magpie_backend.ProxyQueue.Heads.{
  zscore-zadd, zscore-zadd_same, zscore-zrem-some, if-same, if-other,
}

-- No member gets the lease that ends at this time.
abbrev pub GivesNone : ℕ → Store → Store → Type 0
GivesNone l st st' =
    (k n : ℕ)
    → zscore (st'.queues k) n ≡ some (lease_score l)
    → zscore (st.queues k) n ≡ some (lease_score l)

pub set_queue-GivesNone :
    (l q : ℕ) (z : SortedSet) (st : Store)
    → ((n : ℕ) → zscore z n ≡ some (lease_score l) → zscore (st.queues q) n ≡ some (lease_score l))
    → GivesNone l st (set_queue q z st)
set_queue-GivesNone l q z st h k n = elim (ℕ_discrete k q) [
  | yes e ↦
      rw (if-same k q z (st.queues k) e)
        (λ f. subst (λ j. zscore (st.queues j) n ≡ some (lease_score l)) (sym e) (h n f))
  | no other ↦ rw (if-other k q z (st.queues k) other) (λ f. f)
]

pub drop_member-GivesNone : (l q m : ℕ) (st : Store) → GivesNone l st (drop_member q m st)
unfolding drop_member
drop_member-GivesNone l q m st =
    set_queue-GivesNone l q (zrem m (st.queues q)) st
      (λ n f. zscore-zrem-some m n (lease_score l) (st.queues q) f)

-- A score of another kind, or of another lease, gives none.
pub zadd-gives_none :
    (l score m n : ℕ) (z : SortedSet)
    → score ≢ lease_score l
    → zscore (zadd score m z) n ≡ some (lease_score l)
    → zscore z n ≡ some (lease_score l)
zadd-gives_none l score m n z differs f = elim (ℕ_discrete n m) [
  | yes same ↦ absurd (ground (arith, zscore-zadd_same score m z))
  | no other ↦ sym (zscore-zadd score m n z other) ∙ f
]

pub zadd_nx-gives_none :
    (l score m n : ℕ) (z : SortedSet)
    → score ≢ lease_score l
    → zscore (zadd_nx score m z) n ≡ some (lease_score l)
    → zscore z n ≡ some (lease_score l)
unfolding zadd_nx
zadd_nx-gives_none l score m n z differs = elim (Option-cases (zscore z m)) [
  | inl absent ↦ rw (absent, zadd_nx) (λ f. zadd-gives_none l score m n z differs f)
  | inr (old, present) ↦ rw (present, zadd_nx) (λ f. f)
]

pub put-GivesNone :
    (l score q m : ℕ) (st : Store)
    → score ≢ lease_score l
    → GivesNone l st (set_queue q (zadd score m (st.queues q)) st)
put-GivesNone l score q m st differs =
    set_queue-GivesNone l q (zadd score m (st.queues q)) st
      (λ n f. zadd-gives_none l score m n (st.queues q) differs f)

pub if-GivesNone :
    (l : ℕ) (b : Bool) (st st' st'' : Store)
    → GivesNone l st st'
    → GivesNone l st st''
    → GivesNone l st (if b then st' else st'')
if-GivesNone l true st st' st'' h h' = h
if-GivesNone l false st st' st'' h h' = h'

abbrev RoundGivesNone : ℕ → Store → Round → Type 0
RoundGivesNone l st (done answer st') = GivesNone l st st'
RoundGivesNone l st (again st') = GivesNone l st st'

claim-GivesNone :
    (l now lease q m score : ℕ) (payload : Option ℕ) (st : Store)
    → l < now + lease
    → RoundGivesNone l st (claim now lease q m score payload st)
unfolding claim refresh_head
claim-GivesNone l now lease q m score none st h = drop_member-GivesNone l q m st
claim-GivesNone l now lease q m score (some p) st h =
    put-GivesNone l (lease_score (now + lease)) q m st (λ e. absurd (omega arith))

pop_entry-GivesNone :
    (l now lease q indexed : ℕ) (entry : Option (ℕ × ℕ)) (st : Store)
    → l < now + lease
    → RoundGivesNone l st (pop_entry now lease q indexed entry st)
unfolding pop_entry
pop_entry-GivesNone l now lease q indexed none st h = λ k n f. f
pop_entry-GivesNone l now lease q indexed (some (m, score)) st h =
    elim (Bool-cases (score == indexed)) [
      | inr t ↦ rw t (λ k n f. f)
      | inl t ↦ elim (Bool-cases (ltb (due_score now) score)) [
        | inl late ↦ rw (t, late) (λ k n f. f)
        | inr due ↦ rw (t, due) (claim-GivesNone l now lease q m score (st.payloads m) st h)
      ]
    ]

pop_head-GivesNone :
    (l now lease : ℕ) (head : Option (ℕ × ℕ)) (st : Store)
    → l < now + lease
    → RoundGivesNone l st (pop_head now lease head st)
unfolding pop_head
pop_head-GivesNone l now lease none st h = λ k n f. f
pop_head-GivesNone l now lease (some (q, indexed)) st h =
    pop_entry-GivesNone l now lease q indexed (zmin (st.queues q)) st h

continue-GivesNone :
    (l : ℕ) (rest : Store → Popped × Store) (st : Store) (r : Round)
    → ((st' : Store) → GivesNone l st' (rest st').1)
    → RoundGivesNone l st r
    → GivesNone l st (continue rest r).1
continue-GivesNone l rest st (done answer st') later h = h
continue-GivesNone l rest st (again st') later h = λ k n f. h k n (later st' k n f)

pub pop_rounds-GivesNone :
    (rounds l now lease : ℕ) (st : Store)
    → l < now + lease
    → GivesNone l st (pop_rounds rounds now lease st).1
unfolding pop_rounds
pop_rounds-GivesNone zero l now lease st h = λ k n f. f
pop_rounds-GivesNone (suc rounds) l now lease st h =
    continue-GivesNone l (pop_rounds rounds now lease) st (pop_head now lease (zmin st.heads) st)
      (λ st'. pop_rounds-GivesNone rounds l now lease st' h)
      (pop_head-GivesNone l now lease (zmin st.heads) st h)

pub schedule-GivesNone : (l queue m due : ℕ) (st : Store) → GivesNone l st (schedule queue m due st)
unfolding schedule
schedule-GivesNone l queue m due st =
    put-GivesNone l (due_score due) queue m st (λ e. absurd (omega arith))

pub leave_queues-GivesNone :
    (l queue old_queue m : ℕ) (st : Store) → GivesNone l st (leave_queues queue old_queue m st)
unfolding leave_queues
leave_queues-GivesNone l queue old_queue m st =
    let left = if old_queue == queue then st else drop_member old_queue m st in
    let to_left =
      if-GivesNone l (old_queue == queue) st st (drop_member old_queue m st) (λ k n f. f)
        (drop_member-GivesNone l old_queue m st) in
    if-GivesNone l (legacy_queue_key == queue || legacy_queue_key == old_queue) st left
      (drop_member legacy_queue_key m left) to_left
      (λ k n f. to_left k n (drop_member-GivesNone l legacy_queue_key m left k n f))
