-- ===== src/ProxyQueue/Earliest.antt =====
-- What pop.lua of internal/jobs/queue/proxy answers.
use magpie_backend.Prelude.{
  ℕ, zero, suc, ◌/◌, ◌≤◌, ◌<◌, ◌==◌, ltb, ◌≡◌, refl, sym, ap, ◌∙◌, subst, Option, none, some,
  ℕ_discrete, Bool-cases, inl, inr, arith,
}
use magpie_backend.SortedSets.{SortedSet, zscore, zrem, zadd, zmin, zmin-le, zmin-zscore}
use magpie_backend.ProxyQueue.{
  Store, Popped, Round, done, again, nothing, not_before, found, set_heads, drop_member,
  refresh_head, due_score, continue, claim, pop_entry, pop_head, pop_rounds, pop,
}
use magpie_backend.ProxyQueue.Heads.{IsIndexed, zscore-zrem, zscore-zrem-some, if-same, if-other}
use magpie_backend.ProxyQueue.Popping.{AfterRound, pop_head-AfterRound}

-- No member that has a payload comes before the score.
abbrev pub IsFirst : ℕ → Store → Type 0
IsFirst s st = (k n t p : ℕ) → zscore (st.queues k) n ≡ some t → st.payloads n ≡ some p → s ≤ t

-- A claimed member had a payload and was due, and none came before it; where the answer is a time to wait
-- for, no member comes before that time, and it is not yet due.
unfoldable pub IsAnswer : ℕ → Store → Popped → Type 0
IsAnswer now st nothing = Unit
IsAnswer now st (not_before ms) = (s : ℕ) × (ms ≡ s / 2) × (due_score now < s) × IsFirst s st
IsAnswer now st (found m p ms q) =
    (s : ℕ) × (ms ≡ s / 2)
    × (s ≤ due_score now)
    × (zscore (st.queues q) m ≡ some s)
    × (st.payloads m ≡ some p)
    × IsFirst s st

-- A round that goes on keeps the payloads and the members that have one, and brings no member.
abbrev pub Keeps : Store → Store → Type 0
Keeps st st' =
    (st'.payloads ≡ st.payloads)
    × ((k n t : ℕ) → zscore (st'.queues k) n ≡ some t → zscore (st.queues k) n ≡ some t)
    × ((k n t p : ℕ)
        → zscore (st.queues k) n ≡ some t
        → st.payloads n ≡ some p
        → zscore (st'.queues k) n ≡ some t)

IsAnswer-Keeps :
    (now : ℕ) (st st' : Store) (popped : Popped)
    → Keeps st st'
    → IsAnswer now st' popped
    → IsAnswer now st popped
unfolding IsAnswer
IsAnswer-Keeps now st st' nothing keeps h = tt
IsAnswer-Keeps now st st' (not_before ms) (same, old, kept) (s, e, late, first) =
    (s, e, late, λ k n t p f g. first k n t p (kept k n t p f g) (ap (λ y. y n) same ∙ g))
IsAnswer-Keeps now st st' (found m p ms q) (same, old, kept) (s, e, due, here, has, first) = (
  s,
  e,
  due,
  old q m s here,
  sym (ap (λ y. y m) same) ∙ has,
  λ k n t p f g. first k n t p (kept k n t p f g) (ap (λ y. y n) same ∙ g),
)

abbrev pub IsRound : ℕ → Store → Round → Type 0
IsRound now st (done popped st') = IsAnswer now st popped
IsRound now st (again st') = Keeps st st'

set_heads-Keeps : (heads : SortedSet) (st : Store) → Keeps st (set_heads heads st)
set_heads-Keeps heads st = (refl, λ k n t e. e, λ k n t p e f. e)

drop_member-Keeps :
    (q m : ℕ) (st : Store) → st.payloads m ≡ none → Keeps st (refresh_head q (drop_member q m st))
unfolding refresh_head drop_member
drop_member-Keeps q m st e = (
  refl,
  λ k n t. elim (ℕ_discrete k q) [
    | yes same ↦ rw (if-same k q (zrem m (st.queues q)) (st.queues k) same) (λ f.
        subst (λ j. zscore (st.queues j) n ≡ some t) (sym same)
          (zscore-zrem-some m n t (st.queues q) f))
    | no other ↦ rw (if-other k q (zrem m (st.queues q)) (st.queues k) other) (λ f. f)
  ],
  λ k n t p f g. elim (ℕ_discrete k q) [
    | yes same ↦ rw (if-same k q (zrem m (st.queues q)) (st.queues k) same) (
        zscore-zrem m n (st.queues q) (λ same_member. ground arith)
        ∙ subst (λ j. zscore (st.queues j) n ≡ some t) same f)
    | no other ↦ rw (if-other k q (zrem m (st.queues q)) (st.queues k) other) f
  ],
)

claim-IsRound :
    (now lease q m score : ℕ) (payload : Option ℕ) (st : Store)
    → st.payloads m ≡ payload
    → score ≤ due_score now
    → zscore (st.queues q) m ≡ some score
    → IsFirst score st
    → IsRound now st (claim now lease q m score payload st)
unfolding claim IsAnswer
claim-IsRound now lease q m score none st e due here first = drop_member-Keeps q m st e
claim-IsRound now lease q m score (some p) st e due here first = (score, refl, due, here, e, first)

pub pop_entry-IsRound :
    (now lease q indexed : ℕ) (entry : Option (ℕ × ℕ)) (st : Store)
    → zmin (st.queues q) ≡ entry
    → zmin st.heads ≡ some (q, indexed)
    → IsIndexed st
    → IsRound now st (pop_entry now lease q indexed entry st)
unfolding pop_entry IsIndexed IsAnswer
pop_entry-IsRound now lease q indexed none st e head h = set_heads-Keeps (zrem q st.heads) st
pop_entry-IsRound now lease q indexed (some (m, score)) st e head h =
    elim (Bool-cases (score == indexed)) [
      | inr t ↦ rw t (set_heads-Keeps (zadd score q st.heads) st)
      | inl t ↦
          let first : IsFirst score st = λ k n s p f g.
            let (low, there, below) = h.1 k n s f in
            ground (arith, zmin-le st.heads q k indexed low head there) in
          elim (Bool-cases (ltb (due_score now) score)) [
            | inl late ↦ rw (t, late) (score, refl, ground arith, first)
            | inr due ↦
                rw (t, due)
                  (claim-IsRound now lease q m score (st.payloads m) st refl (ground arith)
                    (zmin-zscore (st.queues q) m score (h.0.1 q) e) first)
          ]
    ]

pub pop_head-IsRound :
    (now lease : ℕ) (head : Option (ℕ × ℕ)) (st : Store)
    → zmin st.heads ≡ head
    → IsIndexed st
    → IsRound now st (pop_head now lease head st)
unfolding pop_head IsAnswer
pop_head-IsRound now lease none st e h = tt
pop_head-IsRound now lease (some (q, indexed)) st e h =
    pop_entry-IsRound now lease q indexed (zmin (st.queues q)) st refl e h

continue-IsAnswer :
    (now : ℕ) (next : Store → Popped × Store) (st : Store) (r : Round)
    → ((st' : Store) → IsIndexed st' → IsAnswer now st' (next st').0)
    → AfterRound r
    → IsRound now st r
    → IsAnswer now st (continue next r).0
continue-IsAnswer now next st (done popped st') rest indexed h = h
continue-IsAnswer now next st (again st') rest indexed h =
    IsAnswer-Keeps now st st' (next st').0 h (rest st' indexed)

pop_rounds-IsAnswer :
    (n now lease : ℕ) (st : Store) → IsIndexed st → IsAnswer now st (pop_rounds n now lease st).0
unfolding pop_rounds IsAnswer
pop_rounds-IsAnswer zero now lease st h = tt
pop_rounds-IsAnswer (suc n) now lease st h =
    continue-IsAnswer now (pop_rounds n now lease) st (pop_head now lease (zmin st.heads) st)
      (pop_rounds-IsAnswer n now lease) (pop_head-AfterRound now lease (zmin st.heads) st h)
      (pop_head-IsRound now lease (zmin st.heads) st refl h)

-- In an indexed store, a member that pop.lua claims was due, had the payload that the script returns, and
-- no member with a payload, in whatever queue, had an earlier score; and where the script answers with a
-- time to come back, no member with a payload comes before the score it stands for, which is not yet due.
pub pop-IsAnswer :
    (now lease : ℕ) (st : Store) → IsIndexed st → IsAnswer now st (pop now lease st).0
unfolding pop
pop-IsAnswer now lease st h = pop_rounds-IsAnswer 8 now lease st h
