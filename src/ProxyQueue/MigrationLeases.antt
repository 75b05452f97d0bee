-- ===== src/ProxyQueue/MigrationLeases.antt =====
-- migrate.lua of internal/jobs/queue/proxy gives no lease that has ended.
use magpie_backend.Prelude.{
  ℕ, ◌≤◌, ◌<◌, ◌==◌, if◌then◌else◌, ◌≡◌, ◌≢◌, sym, ap, ◌∙◌, true, Option, none, some, List, [], ◌∷◌,
  Bool-cases, Option-cases, inl, inr, arith,
}
use magpie_backend.SortedSets.{zscore, zadd}
use magpie_backend.ProxyQueue.{
  Store, due_score, lease_score, set_queue, set_payload, drop_member, zadd_xx, refresh_head,
  refresh_heads, same_payload,
}
use magpie_backend.ProxyQueue.Fencing.{
  GivesNone, set_queue-GivesNone, drop_member-GivesNone, zadd-gives_none, put-GivesNone,
  if-GivesNone,
}
use magpie_backend.ProxyQueue.Finds.{refresh_heads-same}
use magpie_backend.ProxyQueue.Migration.{
  is_held, release, live_owner, leave_queue, leave_all, take_over, move_member, migrate,
}

zadd_xx-gives_none :
    (l score m n : ℕ) (z : List (ℕ × ℕ))
    → score ≢ lease_score l
    → zscore (zadd_xx score m z) n ≡ some (lease_score l)
    → zscore z n ≡ some (lease_score l)
unfolding zadd_xx
zadd_xx-gives_none l score m n z differs = elim (Option-cases (zscore z m)) [
  | inl absent ↦ rw (absent, zadd_xx) (λ f. f)
  | inr (old, present) ↦ rw (present, zadd_xx) (λ f. zadd-gives_none l score m n z differs f)
]

release-GivesNone :
    (l old_queue old_member now : ℕ) (source : Option ℕ) (st : Store)
    → GivesNone l st (release old_queue old_member now source st)
unfolding release refresh_head
release-GivesNone l old_queue old_member now (some source) st =
    set_queue-GivesNone l old_queue (zadd_xx (due_score now) old_member (st.queues old_queue)) st
      (λ n f.
        zadd_xx-gives_none l (due_score now) old_member n (st.queues old_queue)
          (λ e. absurd (omega arith)) f)
release-GivesNone l old_queue old_member now none st =
    drop_member-GivesNone l old_queue old_member st

leave_all-GivesNone :
    (l : ℕ) (ks : List ℕ) (queue old_member m : ℕ) (st : Store)
    → GivesNone l st (leave_all ks queue old_member m st).1
unfolding leave_all leave_queue
leave_all-GivesNone l [] queue old_member m st = λ i n f. f
leave_all-GivesNone l (k ∷ ks) queue old_member m st =
    let left = drop_member k old_member st in
    λ i n f.
      if-GivesNone l (k == queue) st left (drop_member k m left)
        (drop_member-GivesNone l k old_member st)
        (λ j o g.
          drop_member-GivesNone l k old_member st j o (drop_member-GivesNone l k m left j o g))
        i n
        (leave_all-GivesNone l ks queue old_member m
          (if k == queue then left else drop_member k m left) i n f)

refresh_heads-GivesNone :
    (l : ℕ) (qs : List ℕ) (st st' : Store)
    → GivesNone l st st'
    → GivesNone l st (refresh_heads qs st')
refresh_heads-GivesNone l qs st st' h k n f =
    h k n (ap (λ y. zscore (y k) n) (sym (refresh_heads-same qs st').0) ∙ f)

take_over-GivesNone :
    (l : ℕ) (keys : List ℕ) (target old_member m expected payload : ℕ) (owner : Option ℕ)
    (st : Store)
    → l ≢ expected
    → GivesNone l st (take_over keys target old_member m expected payload owner st).1
unfolding take_over
take_over-GivesNone l keys target old_member m expected payload (some queue) st differs =
    let written = set_payload old_member none (set_payload m (some payload) st) in
    let (dirty, left) = leave_all keys queue old_member m written in
    refresh_heads-GivesNone l dirty st left (leave_all-GivesNone l keys queue old_member m written)
take_over-GivesNone l keys target old_member m expected payload none st differs =
    let written = set_payload old_member none (set_payload m (some payload) st) in
    let (dirty, left) = leave_all keys target old_member m written in
    let leased = set_queue target (zadd (lease_score expected) m (left.queues target)) left in
    refresh_heads-GivesNone l (target ∷ dirty) st leased (λ k n f.
      leave_all-GivesNone l keys target old_member m written k n
        (put-GivesNone l (lease_score expected) target m left (λ e. differs (omega arith)) k n f))

move_member-GivesNone :
    (l : ℕ) (keys : List ℕ) (target old_member m expected now : ℕ) (payload : Option ℕ) (st : Store)
    → l ≢ expected
    → GivesNone l st (move_member keys target old_member m expected now payload st).1
unfolding move_member
move_member-GivesNone l keys target old_member m expected now none st differs = λ k n f. f
move_member-GivesNone l keys target old_member m expected now (some payload) st differs =
    take_over-GivesNone l keys target old_member m expected payload (live_owner keys m now st) st
      differs

is_held-later : (expected now : ℕ) (o : Option ℕ) → is_held expected now o ≡ true → now < expected
is_held-later expected now none h = absurd (ground arith)
is_held-later expected now (some score) h = ground arith

pub migrate-GivesNone :
    (l : ℕ) (merge : Option ℕ → Option ℕ) (keys : List ℕ)
    (old_queue target old_member m expected now normalized source : ℕ) (st : Store)
    → l ≤ now
    → GivesNone l st
        (migrate merge keys old_queue target old_member m expected now normalized source st).1
unfolding migrate
migrate-GivesNone l merge keys old_queue target old_member m expected now normalized source st
      ended =
    let score = zscore (st.queues old_queue) old_member in
    elim (Bool-cases (is_held expected now score)) [
      | inr lost ↦ rw lost (λ k n f. f)
      | inl held ↦ elim (Bool-cases (same_payload (st.payloads old_member) source)) [
        | inr changed ↦
            rw (held, changed)
              (release-GivesNone l old_queue old_member now (st.payloads old_member) st)
        | inl same ↦ elim (Bool-cases (old_member == m)) [
          | inl alias ↦ rw (held, same, alias) (λ k n f. f)
          | inr other ↦
              rw (held, same, other)
                (move_member-GivesNone l keys target old_member m expected now
                  (merge (st.payloads m)) st
                  (λ e. absurd (omega (arith, is_held-later expected now score held))))
        ]
      ]
    ]
