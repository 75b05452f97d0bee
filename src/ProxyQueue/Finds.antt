-- ===== src/ProxyQueue/Finds.antt =====
-- A due member is found: pop.lua of internal/jobs/queue/proxy after a refresh of the heads.
use magpie_backend.Prelude.{
  ℕ, ◌/◌, ◌≤◌, ◌==◌, ltb, ◌≡◌, ◌≢◌, refl, sym, ap, ◌∙◌, subst, true, false, Option, none, some,
  List, [], ◌∷◌, Memᴰ, ℕ_discrete, Option-cases, ◌⊎◌, inl, inr, arith,
}
use magpie_backend.SortedSets.{zscore, zmin, zmin-le, zmin-none, zmin-zscore}
use magpie_backend.ProxyQueue.{
  Store, Popped, found, head_of, refresh_head, refresh_heads, due_score, continue, claim, pop_entry,
  pop_head, pop_rounds, pop,
}
use magpie_backend.ProxyQueue.Heads.{
  IsIndexed, zscore-zadd_same, head_of-other, zscore-empty, zscore-zrem_same,
}
use magpie_backend.ProxyQueue.Index.{refresh_heads-IsIndexed}

-- The head of the queue, if it has one, is the score of its first member.
abbrev IsExact : Store → ℕ → Type 0
IsExact st q = (h : ℕ) → zscore st.heads q ≡ some h → (m : ℕ) × (zmin (st.queues q) ≡ some (m, h))

abbrev ExactOutside : List ℕ → Store → Type 0
ExactOutside qs st = (q h : ℕ) → zscore st.heads q ≡ some h → Memᴰ q qs ⊎ IsExact st q

refresh_head-IsExact : (q : ℕ) (st : Store) → IsExact (refresh_head q st) q
unfolding refresh_head
refresh_head-IsExact q st h e = elim (Option-cases (zmin (st.queues q))) [
  | inl empty ↦ absurd (
      zscore-zrem_same q h st.heads (subst (λ o. zscore (head_of q o st.heads) q ≡ some h) empty e))
  | inr ((m, s), first) ↦
      let given = subst (λ o. zscore (head_of q o st.heads) q ≡ some h) first e in
      (m, first ∙ ap (λ y. some (m, y)) (ground (arith, zscore-zadd_same s q st.heads)))
]

refresh_head-IsExact_other :
    (q k : ℕ) (st : Store) → k ≢ q → IsExact st k → IsExact (refresh_head q st) k
unfolding refresh_head
refresh_head-IsExact_other q k st other exact h e =
    exact h (sym (head_of-other q k (zmin (st.queues q)) st.heads other) ∙ e)

refresh_head-ExactOutside :
    (q : ℕ) (qs : List ℕ) (st : Store)
    → ExactOutside (q ∷ qs) st
    → ExactOutside qs (refresh_head q st)
refresh_head-ExactOutside q qs st outside k h e = elim (ℕ_discrete k q) [
  | yes same ↦
      inr (subst (λ j. IsExact (refresh_head q st) j) (sym same) (refresh_head-IsExact q st))
  | no other ↦
      elim (outside k h
        (unfold refresh_head in sym (head_of-other q k (zmin (st.queues q)) st.heads other) ∙ e)) [
          | inl (Memᴰ.head same) ↦ absurd (other same)
          | inl (Memᴰ.tail later) ↦ inl later
          | inr exact ↦ inr (refresh_head-IsExact_other q k st other exact)
        ]
]

refresh_heads-IsExact :
    (qs : List ℕ) (st : Store) (q : ℕ) → ExactOutside qs st → IsExact (refresh_heads qs st) q
unfolding refresh_heads
refresh_heads-IsExact [] st q outside =
    λ h e. elim (outside q h e) [ inl mem ↦ elim mem [ ] | inr exact ↦ exact h e ]
refresh_heads-IsExact (k ∷ qs) st q outside =
    refresh_heads-IsExact qs (refresh_head k st) q (refresh_head-ExactOutside k qs st outside)

-- Only the heads change.
pub refresh_heads-same :
    (qs : List ℕ) (st : Store)
    → ((refresh_heads qs st).queues ≡ st.queues) × ((refresh_heads qs st).payloads ≡ st.payloads)
unfolding refresh_heads refresh_head
refresh_heads-same [] st = (refl, refl)
refresh_heads-same (q ∷ qs) st = refresh_heads-same qs (refresh_head q st)

abbrev pub HasPayloads : Store → Type 0
HasPayloads st = (k n t : ℕ) → zscore (st.queues k) n ≡ some t → (p : ℕ) × (st.payloads n ≡ some p)

-- Some member is claimed.
abbrev pub IsFound : Popped → Type 0
IsFound popped = (m p ms q : ℕ) × (popped ≡ found m p ms q)

claim-IsFound :
    (now lease q m score p : ℕ) (payload : Option ℕ) (st : Store) (rest : Store → Popped × Store)
    → payload ≡ some p
    → IsFound (continue rest (claim now lease q m score payload st)).0
unfolding claim
claim-IsFound now lease q m score p none st rest e = absurd (ground arith)
claim-IsFound now lease q m score p (some p') st rest e = (m, p', score / 2, q, refl)

pop_entry-IsFound :
    (now lease q m indexed p : ℕ) (entry : Option (ℕ × ℕ)) (st : Store)
    (rest : Store → Popped × Store)
    → entry ≡ some (m, indexed)
    → st.payloads m ≡ some p
    → indexed ≤ due_score now
    → IsFound (continue rest (pop_entry now lease q indexed entry st)).0
unfolding pop_entry
pop_entry-IsFound now lease q m indexed p entry st rest e has due =
    let exact : (indexed == indexed) ≡ true = ground arith in
    let on_time : ltb (due_score now) indexed ≡ false = ground arith in
    subst (λ o. IsFound (continue rest (pop_entry now lease q indexed o st)).0) (sym e)
      (rw (exact, on_time) (claim-IsFound now lease q m indexed p (st.payloads m) st rest has))

pop_head-IsFound :
    (now lease k n s : ℕ) (head : Option (ℕ × ℕ)) (st : Store) (rest : Store → Popped × Store)
    → zmin st.heads ≡ head
    → IsIndexed st
    → ((q : ℕ) → IsExact st q)
    → HasPayloads st
    → zscore (st.queues k) n ≡ some s
    → s ≤ due_score now
    → IsFound (continue rest (pop_head now lease head st)).0
unfolding pop_head IsIndexed
pop_head-IsFound now lease k n s none st rest e indexed exact has here due =
    let (h, there, below) = indexed.1 k n s here in
    absurd (zscore-empty st.heads k h (zmin-none st.heads e) there)
pop_head-IsFound now lease k n s (some (q, low)) st rest e indexed exact has here due =
    let (h, there, below) = indexed.1 k n s here in
    let (m, first) = exact q low (zmin-zscore st.heads q low indexed.0.0 e) in
    let (p, payload) = has q m low (zmin-zscore (st.queues q) m low (indexed.0.1 q) first) in
    pop_entry-IsFound now lease q m low p (zmin (st.queues q)) st rest first payload
      (omega (arith, zmin-le st.heads q k low h e there))

pop-IsFound :
    (now lease k n s : ℕ) (st : Store)
    → IsIndexed st
    → ((q : ℕ) → IsExact st q)
    → HasPayloads st
    → zscore (st.queues k) n ≡ some s
    → s ≤ due_score now
    → IsFound (pop now lease st).0
unfolding pop pop_rounds
pop-IsFound now lease k n s st indexed exact has here due =
    pop_head-IsFound now lease k n s (zmin st.heads) st (pop_rounds 7 now lease) refl indexed exact
      has here due

-- `RefreshHeads` over the queues that the heads name, then pop.lua: if every member has a payload and some
-- member, in any queue, is due, the script claims one. So no due member waits behind an inexact head.
pub refresh_heads-IsFound :
    (qs : List ℕ) (now lease k n s : ℕ) (st : Store)
    → IsIndexed st
    → ((q h : ℕ) → zscore st.heads q ≡ some h → Memᴰ q qs)
    → HasPayloads st
    → zscore (st.queues k) n ≡ some s
    → s ≤ due_score now
    → IsFound (pop now lease (refresh_heads qs st)).0
refresh_heads-IsFound qs now lease k n s st indexed named has here due =
    let (queues, payloads) = refresh_heads-same qs st in
    pop-IsFound now lease k n s (refresh_heads qs st) (refresh_heads-IsIndexed qs st indexed)
      (λ q. refresh_heads-IsExact qs st q (λ j h e. inl (named j h e)))
      (λ j i t f.
        let (p, g) = has j i t (ap (λ y. zscore (y j) i) (sym queues) ∙ f) in
        (p, ap (λ y. y i) payloads ∙ g))
      (ap (λ y. zscore (y k) n) queues ∙ here) due
