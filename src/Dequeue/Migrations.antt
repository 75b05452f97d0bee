-- ===== src/Dequeue/Migrations.antt =====
-- What the store has of the member that migrate.lua of internal/jobs/queue/proxy returns as claimed.
use magpie_backend.Prelude.{
  ℕ, suc, zero, ◌==◌, ltb, ◌≡◌, refl, ap, ◌∙◌, subst, true, false, Option, none, some, List, [],
  ◌∷◌, Bool-cases, inl, inr, arith,
}
use magpie_backend.SortedSets.{zscore, zadd, zmin}
use magpie_backend.ProxyQueue.{
  Store, Popped, Round, done, again, lease_score, due_score, set_queue, set_payload, drop_member,
  refresh_head, same_payload, claim, pop_entry, pop_head, pop_rounds, pop, continue,
}
use magpie_backend.ProxyQueue.Heads.{if-same, zscore-zadd_same}
use magpie_backend.ProxyQueue.Finds.{refresh_heads-same}
use magpie_backend.ProxyQueue.Migration.{
  Migrated, not_claimed, failed, migrated, is_held, live_owner, leave_queue, leave_all, take_over,
  move_member, migrate,
}

-- The member has its payload, and its lease in its queue.
abbrev pub IsOwned : (m score payload queue : ℕ) → Store → Type 0
IsOwned m score payload queue st =
    (zscore (st.queues queue) m ≡ some (lease_score score)) × (st.payloads m ≡ some payload)

abbrev pub MigratedIsOwned : (m score : ℕ) → Migrated × Store → Type 0
MigratedIsOwned m score (not_claimed, st) = Unit
MigratedIsOwned m score (failed, st) = Unit
MigratedIsOwned m score (migrated payload queue, st) = IsOwned m score payload queue st

drop_member-payloads : (q m : ℕ) (st : Store) → (drop_member q m st).payloads ≡ st.payloads
unfolding drop_member
drop_member-payloads q m st = refl

leave_queue-payloads :
    (k queue old_member m : ℕ) (st : Store)
    → (leave_queue k queue old_member m st).payloads ≡ st.payloads
unfolding leave_queue drop_member
leave_queue-payloads k queue old_member m st = elim (Bool-cases (k == queue)) [
  | inl t ↦ rw t refl
  | inr t ↦ rw t refl
]

leave_all-payloads :
    (ks : List ℕ) (queue old_member m : ℕ) (st : Store)
    → (leave_all ks queue old_member m st).1.payloads ≡ st.payloads
unfolding leave_all
leave_all-payloads [] queue old_member m st = refl
leave_all-payloads (k ∷ ks) queue old_member m st =
    leave_all-payloads ks queue old_member m (leave_queue k queue old_member m st)
    ∙ leave_queue-payloads k queue old_member m st

take_over-IsOwned :
    (keys : List ℕ) (target old_member m expected payload : ℕ) (owner : Option ℕ) (st : Store)
    → (old_member == m) ≡ false
    → MigratedIsOwned m expected (take_over keys target old_member m expected payload owner st)
unfolding take_over
take_over-IsOwned keys target old_member m expected payload (some queue) st other = tt
take_over-IsOwned keys target old_member m expected payload none st other =
    let written = set_payload old_member none (set_payload m (some payload) st) in
    let (dirty, left) = leave_all keys target old_member m written in
    let z = zadd (lease_score expected) m (left.queues target) in
    let leased = set_queue target z left in
    let (queues, payloads) = refresh_heads-same (target ∷ dirty) leased in
    let differs : (m == old_member) ≡ false = ground arith in
    let self : (m == m) ≡ true = ground arith in
    (
      ap (λ y. zscore (y target) m) queues
          ∙ ap (λ y. zscore y m) (if-same target target z (left.queues target) refl)
          ∙ zscore-zadd_same (lease_score expected) m (left.queues target),
      ap (λ y. y m) payloads
          ∙ ap (λ y. y m) (leave_all-payloads keys target old_member m written)
          ∙ rw (differs, self) refl,
    )

move_member-IsOwned :
    (keys : List ℕ) (target old_member m expected now : ℕ) (payload : Option ℕ) (st : Store)
    → (old_member == m) ≡ false
    → MigratedIsOwned m expected (move_member keys target old_member m expected now payload st)
unfolding move_member
move_member-IsOwned keys target old_member m expected now none st other = tt
move_member-IsOwned keys target old_member m expected now (some payload) st other =
    take_over-IsOwned keys target old_member m expected payload (live_owner keys m now st) st other

is_held-score :
    (expected now : ℕ) (o : Option ℕ)
    → is_held expected now o ≡ true
    → o ≡ some (lease_score expected)
is_held-score expected now none h = absurd (ground arith)
is_held-score expected now (some score) h = ground arith

pub migrate-IsOwned :
    (merge : Option ℕ → Option ℕ) (keys : List ℕ)
    (old_queue target old_member m expected now normalized source : ℕ) (st : Store)
    → MigratedIsOwned m expected
        (migrate merge keys old_queue target old_member m expected now normalized source st)
unfolding migrate
migrate-IsOwned merge keys old_queue target old_member m expected now normalized source st =
    let score = zscore (st.queues old_queue) old_member in
    elim (Bool-cases (is_held expected now score)) [
      | inr lost ↦ rw lost tt
      | inl held ↦ elim (Bool-cases (same_payload (st.payloads old_member) source)) [
        | inr changed ↦ rw (held, changed) tt
        | inl same ↦ elim (Bool-cases (old_member == m)) [
          | inl alias ↦
              let is_m : old_member ≡ m = ground arith in
              let self : (m == m) ≡ true = ground arith in
              rw (held, same, alias)
                (
                  subst (λ j. zscore (st.queues old_queue) j ≡ some (lease_score expected)) is_m
                      (is_held-score expected now score held),
                  rw self refl,
                )
          | inr other ↦
              rw (held, same, other)
                (move_member-IsOwned keys target old_member m expected now (merge (st.payloads m))
                  st other)
        ]
      ]
    ]

abbrev RoundPayloads : Store → Round → Type 0
RoundPayloads st (done answer st') = st'.payloads ≡ st.payloads
RoundPayloads st (again st') = st'.payloads ≡ st.payloads

claim-payloads :
    (now lease q m score : ℕ) (payload : Option ℕ) (st : Store)
    → RoundPayloads st (claim now lease q m score payload st)
unfolding claim refresh_head drop_member
claim-payloads now lease q m score none st = refl
claim-payloads now lease q m score (some p) st = refl

pop_entry-payloads :
    (now lease q indexed : ℕ) (entry : Option (ℕ × ℕ)) (st : Store)
    → RoundPayloads st (pop_entry now lease q indexed entry st)
unfolding pop_entry
pop_entry-payloads now lease q indexed none st = refl
pop_entry-payloads now lease q indexed (some (m, score)) st = elim (Bool-cases (score == indexed)) [
  | inr t ↦ rw t refl
  | inl t ↦ elim (Bool-cases (ltb (due_score now) score)) [
    | inl late ↦ rw (t, late) refl
    | inr due ↦ rw (t, due) (claim-payloads now lease q m score (st.payloads m) st)
  ]
]

pop_head-payloads :
    (now lease : ℕ) (head : Option (ℕ × ℕ)) (st : Store)
    → RoundPayloads st (pop_head now lease head st)
unfolding pop_head
pop_head-payloads now lease none st = refl
pop_head-payloads now lease (some (q, indexed)) st =
    pop_entry-payloads now lease q indexed (zmin (st.queues q)) st

continue-payloads :
    (rest : Store → Popped × Store) (st : Store) (r : Round)
    → ((st' : Store) → (rest st').1.payloads ≡ st'.payloads)
    → RoundPayloads st r
    → (continue rest r).1.payloads ≡ st.payloads
continue-payloads rest st (done answer st') later h = h
continue-payloads rest st (again st') later h = later st' ∙ h

pop_rounds-payloads :
    (rounds now lease : ℕ) (st : Store) → (pop_rounds rounds now lease st).1.payloads ≡ st.payloads
unfolding pop_rounds
pop_rounds-payloads zero now lease st = refl
pop_rounds-payloads (suc rounds) now lease st =
    continue-payloads (pop_rounds rounds now lease) st (pop_head now lease (zmin st.heads) st)
      (pop_rounds-payloads rounds now lease) (pop_head-payloads now lease (zmin st.heads) st)

pub pop-payloads : (now lease : ℕ) (st : Store) → (pop now lease st).1.payloads ≡ st.payloads
unfolding pop
pop-payloads now lease st = pop_rounds-payloads 8 now lease st
