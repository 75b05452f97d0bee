-- ===== src/ProxyQueue/Rounds.antt =====
-- The eight rounds of pop.lua of internal/jobs/queue/proxy are enough for up to seven repairs.
use magpie_backend.Prelude.{
  ℕ, zero, suc, ◌≤◌, ◌<◌, ◌==◌, ltb, ◌≡◌, ◌≢◌, refl, sym, ap, ◌∙◌, subst, Option, none, some,
  Bool-cases, inl, inr, arith,
}
use magpie_backend.SortedSets.{SortedSet, zscore, zadd, zrem, zmin, IsKeyed, zmin-none, zmin-zscore}
use magpie_backend.ProxyQueue.{
  Store, Popped, Round, done, again, nothing, not_before, found, set_heads, drop_member, head_of,
  refresh_head, due_score, claim, pop_entry, pop_head, pop_rounds, pop, continue,
}
use magpie_backend.ProxyQueue.Heads.{IsIndexed, if-same, if-other, zscore-empty}
use magpie_backend.ProxyQueue.Popping.{AfterRound, pop_head-AfterRound}
use magpie_backend.ProxyQueue.Earliest.{Keeps, IsRound, pop_head-IsRound}
use magpie_backend.ProxyQueue.Defects.{
  bare_members, wrong_head, defects_of, defects_in, defects, Agree, defects_in-zadd,
  defects_in-zrem, bare_members-zrem,
}

-- No member has a payload.
abbrev pub NothingToDo : Store → Type 0
NothingToDo st = (k n t p : ℕ) → zscore (st.queues k) n ≡ some t → st.payloads n ≢ some p

abbrev IsProgress : Store → Round → Type 0
IsProgress st (done nothing st') = NothingToDo st
IsProgress st (done (not_before ms) st') = Unit
IsProgress st (done (found m p ms q) st') = Unit
IsProgress st (again st') = defects st' < defects st

drop_member-Agree : (q m : ℕ) (st : Store) → Agree q st (drop_member q m st)
unfolding drop_member
drop_member-Agree q m st =
    (refl, λ k other. if-other k q (zrem m (st.queues q)) (st.queues k) other)

drop_member-queue : (q m : ℕ) (st : Store) → (drop_member q m st).queues q ≡ zrem m (st.queues q)
unfolding drop_member
drop_member-queue q m st = if-same q q (zrem m (st.queues q)) (st.queues q) refl

-- The heads after a member without payload left.
head_of-defects :
    (q indexed : ℕ) (heads : SortedSet) (o : Option (ℕ × ℕ)) (st st' : Store)
    → Agree q st st'
    → IsKeyed heads
    → zscore heads q ≡ some indexed
    → zmin (st'.queues q) ≡ o
    → bare_members st'.payloads (st'.queues q) < defects_of st q indexed
    → defects_in (head_of q o heads) st' < defects_in heads st
head_of-defects q indexed heads none st st' same keyed e z fewer =
    omega (arith, defects_in-zrem q indexed heads st st' same keyed e)
head_of-defects q indexed heads (some (n, s)) st st' same keyed e z fewer =
    let exact : wrong_head s (zmin (st'.queues q)) ≡ 0 = ap (wrong_head s) z ∙ ground arith in
    omega (arith, exact, defects_in-zadd q indexed s heads st st' same keyed e)

claim-IsProgress :
    (now lease q m score : ℕ) (payload : Option ℕ) (st : Store)
    → IsIndexed st
    → st.payloads m ≡ payload
    → zscore (st.queues q) m ≡ some score
    → zscore st.heads q ≡ some score
    → IsProgress st (claim now lease q m score payload st)
unfolding claim refresh_head IsIndexed defects
claim-IsProgress now lease q m score (some p) st h e here head = tt
claim-IsProgress now lease q m score none st h e here head =
    let dropped = drop_member q m st in
    let st' = set_heads (head_of q (zmin (dropped.queues q)) st.heads) dropped in
    let fewer = bare_members-zrem st.payloads m score (st.queues q) e here in
    head_of-defects q score st.heads (zmin (dropped.queues q)) st st' (drop_member-Agree q m st)
      h.0.0 head refl
      (subst (λ z. bare_members st.payloads z < defects_of st q score)
        (sym (drop_member-queue q m st)) (omega (arith, fewer)))

pop_entry-IsProgress :
    (now lease q indexed : ℕ) (entry : Option (ℕ × ℕ)) (st : Store)
    → zmin (st.queues q) ≡ entry
    → zmin st.heads ≡ some (q, indexed)
    → IsIndexed st
    → IsProgress st (pop_entry now lease q indexed entry st)
unfolding pop_entry IsIndexed defects
pop_entry-IsProgress now lease q indexed none st e head h =
    let there = zmin-zscore st.heads q indexed h.0.0 head in
    let wrong : wrong_head indexed (zmin (st.queues q)) ≡ 1 = ap (wrong_head indexed) e in
    omega (
      arith,
      wrong,
      defects_in-zrem q indexed st.heads st (set_heads (zrem q st.heads) st) (refl, λ k other. refl)
          h.0.0 there,
    )
pop_entry-IsProgress now lease q indexed (some (m, score)) st e head h =
    let there = zmin-zscore st.heads q indexed h.0.0 head in
    elim (Bool-cases (score == indexed)) [
      | inr t ↦
          let wrong : wrong_head indexed (zmin (st.queues q)) ≡ 1 =
            ap (wrong_head indexed) e ∙ ground arith in
          let exact : wrong_head score (zmin (st.queues q)) ≡ 0 =
            ap (wrong_head score) e ∙ ground arith in
          rw t (
            omega (
              arith,
              wrong,
              exact,
              defects_in-zadd q indexed score st.heads st (set_heads (zadd score q st.heads) st)
                  (refl, λ k other. refl) h.0.0 there,
            ))
      | inl t ↦ elim (Bool-cases (ltb (due_score now) score)) [
        | inl late ↦ rw (t, late) tt
        | inr due ↦
            rw (t, due)
              (claim-IsProgress now lease q m score (st.payloads m) st h refl
                (zmin-zscore (st.queues q) m score (h.0.1 q) e) (there ∙ ground arith))
      ]
    ]

pop_head-IsProgress :
    (now lease : ℕ) (head : Option (ℕ × ℕ)) (st : Store)
    → zmin st.heads ≡ head
    → IsIndexed st
    → IsProgress st (pop_head now lease head st)
unfolding pop_head IsIndexed
pop_head-IsProgress now lease none st e h = λ k n t p here has.
    let (low, there, below) = h.1 k n t here in
    absurd (zscore-empty st.heads k low (zmin-none st.heads e) there)
pop_head-IsProgress now lease (some (q, indexed)) st e h =
    pop_entry-IsProgress now lease q indexed (zmin (st.queues q)) st refl e h

abbrev IsFinished : Store → Popped → Type 0
IsFinished st nothing = NothingToDo st
IsFinished st (not_before ms) = Unit
IsFinished st (found m p ms q) = Unit

IsFinished-Keeps :
    (st st' : Store) (popped : Popped) → Keeps st st' → IsFinished st' popped → IsFinished st popped
IsFinished-Keeps st st' nothing (same, old, kept) h =
    λ k n t p here has. h k n t p (kept k n t p here has) (ap (λ y. y n) same ∙ has)
IsFinished-Keeps st st' (not_before ms) keeps h = tt
IsFinished-Keeps st st' (found m p ms q) keeps h = tt

continue-IsFinished :
    (now : ℕ) (next : Store → Popped × Store) (rounds : ℕ) (st : Store) (r : Round)
    → ((st' : Store) → IsIndexed st' → defects st' < rounds → IsFinished st' (next st').0)
    → AfterRound r
    → IsRound now st r
    → IsProgress st r
    → defects st < suc rounds
    → IsFinished st (continue next r).0
continue-IsFinished now next rounds st (done nothing st') rest indexed round h few = h
continue-IsFinished now next rounds st (done (not_before ms) st') rest indexed round h few = tt
continue-IsFinished now next rounds st (done (found m p ms q) st') rest indexed round h few = tt
continue-IsFinished now next rounds st (again st') rest indexed round h few =
    IsFinished-Keeps st st' (next st').0 round (rest st' indexed (omega arith))

pop_rounds-IsFinished :
    (rounds now lease : ℕ) (st : Store)
    → IsIndexed st
    → defects st < rounds
    → IsFinished st (pop_rounds rounds now lease st).0
unfolding pop_rounds
pop_rounds-IsFinished zero now lease st indexed few = absurd (omega arith)
pop_rounds-IsFinished (suc rounds) now lease st indexed few =
    continue-IsFinished now (pop_rounds rounds now lease) rounds st
      (pop_head now lease (zmin st.heads) st) (pop_rounds-IsFinished rounds now lease)
      (pop_head-AfterRound now lease (zmin st.heads) st indexed)
      (pop_head-IsRound now lease (zmin st.heads) st refl indexed)
      (pop_head-IsProgress now lease (zmin st.heads) st refl indexed) few

-- In an indexed store with at most seven defects, that is wrong heads, and members without payload in queues that
-- have a head, the rounds of pop.lua are enough: if it answers with neither a member nor a time to come back,
-- no member in any queue has a payload.
pub pop-NothingToDo :
    (now lease : ℕ) (st : Store)
    → IsIndexed st
    → defects st ≤ 7
    → (pop now lease st).0 ≡ nothing
    → NothingToDo st
unfolding pop
pop-NothingToDo now lease st indexed few e =
    subst (IsFinished st) e (pop_rounds-IsFinished 8 now lease st indexed (omega arith))
