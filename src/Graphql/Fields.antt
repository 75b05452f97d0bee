-- ===== src/Graphql/Fields.antt =====
-- How many fields an accepted operation has: internal/app/server/graphql_guard.go.
use magpie_backend.Prelude.{
  ℕ, zero, suc, ◌+◌, ◌≤◌, ltb, ◌≡◌, subst, Bool, none, some, List, [], ◌∷◌, Bool-cases,
  Option-cases, ℕ-cases, inl, inr, arith,
}
use magpie_backend.Graphql.{
  Selection, field, inline_fragment, fragment_spread, SelectionSet, no_set, set, Selections, empty,
  sel, Verdict, accepted, rejected, GuardError, Limits, Definition, Operation, fragment_of, enter,
  visit, walk_selection_set, on_stack, walk_operation,
}
use magpie_backend.Graphql.Walk.{below_of, walk-split}

-- A walk counts no more fields than are allowed.
enter-bounded :
    (m cost c : ℕ) (below : Selections → Verdict) (child : SelectionSet)
    → cost ≤ m
    → ((sels : Selections) → below sels ≡ accepted c → c ≤ m)
    → enter below cost child ≡ accepted c
    → c ≤ m
enter-bounded m cost c below no_set h k e = ground arith
enter-bounded m cost c below (set sels) h k e = k sels e

visit-bounded :
    (lim : Limits) (ds : List Definition) (below : List ℕ → ℕ → Selections → Verdict)
    (stack : List ℕ) (cost c : ℕ) (s : Selection)
    → ((st : List ℕ) (k : ℕ) (sels : Selections)
        → k ≤ lim.max_fields
        → below st k sels ≡ accepted c
        → c ≤ lim.max_fields)
    → cost ≤ lim.max_fields
    → visit lim ds below stack cost s ≡ accepted c
    → c ≤ lim.max_fields
unfolding visit
visit-bounded lim ds below stack cost c (field b child) k h e =
    elim (Bool-cases (ltb lim.max_fields (suc cost))) [
      | inl t ↦ absurd (ground arith)
      | inr t ↦
          enter-bounded lim.max_fields (suc cost) c (below stack (suc cost)) child (ground arith)
            (λ sels. k stack (suc cost) sels (ground arith)) (ground arith)
    ]
visit-bounded lim ds below stack cost c (inline_fragment child) k h e =
    enter-bounded lim.max_fields cost c (below stack cost) child h (λ sels. k stack cost sels h) e
visit-bounded lim ds below stack cost c (fragment_spread none) k h e = ground arith
visit-bounded lim ds below stack cost c (fragment_spread (some n)) k h e =
    elim (Bool-cases (on_stack n stack)) [
      | inl t ↦ absurd (ground arith)
      | inr t ↦ elim (Option-cases (fragment_of n ds)) [
        | inl f ↦ ground arith
        | inr (child, f) ↦
            enter-bounded lim.max_fields cost c (below (n ∷ stack) cost) child h
              (λ sels. k (n ∷ stack) cost sels h) (ground arith)
      ]
    ]

walk-bounded :
    (lim : Limits) (ds : List Definition) (room : ℕ) (sels : Selections) (stack : List ℕ)
    (cost c : ℕ)
    → cost ≤ lim.max_fields
    → walk_selection_set lim ds room stack cost sels ≡ accepted c
    → c ≤ lim.max_fields
unfolding below_of walk_selection_set
walk-bounded lim ds room empty stack cost c h e = ground arith
walk-bounded lim ds zero (sel s rest) stack cost c h e =
    let (b, v, r) = walk-split lim ds zero stack cost c s rest e in
    walk-bounded lim ds zero rest stack b c
      (visit-bounded lim ds (below_of lim ds zero) stack cost b s
        (λ st k sels le x. absurd (ground arith)) h v)
      r
walk-bounded lim ds (suc room) (sel s rest) stack cost c h e =
    let (b, v, r) = walk-split lim ds (suc room) stack cost c s rest e in
    walk-bounded lim ds (suc room) rest stack b c
      (visit-bounded lim ds (below_of lim ds (suc room)) stack cost b s
        (λ st k sels le x. walk-bounded lim ds room sels st k b le x) h v)
      r

-- `Fields ds child n`: a selection set has `n` fields, when each fragment that is spread is put in its place.
-- A spread without a name or of an unknown fragment has none.
pub data Fields (ds : List Definition) : SelectionSet → ℕ → Type 0 where
  no_fields : Fields ds no_set 0
  end : Fields ds (set empty) 0
  in_field :
      {introspective : Bool} {child : SelectionSet} {rest : Selections} {a b : ℕ}
      → Fields ds child a
      → Fields ds (set rest) b
      → Fields ds (set (sel (field introspective child) rest)) (1 + a + b)
  in_inline :
      {child : SelectionSet} {rest : Selections} {a b : ℕ}
      → Fields ds child a
      → Fields ds (set rest) b
      → Fields ds (set (sel (inline_fragment child) rest)) (a + b)
  in_spread :
      {n : ℕ} {child : SelectionSet} {rest : Selections} {a b : ℕ}
      → fragment_of n ds ≡ some child
      → Fields ds child a
      → Fields ds (set rest) b
      → Fields ds (set (sel (fragment_spread (some n)) rest)) (a + b)
  unknown :
      {n : ℕ} {rest : Selections} {b : ℕ}
      → fragment_of n ds ≡ none
      → Fields ds (set rest) b
      → Fields ds (set (sel (fragment_spread (some n)) rest)) (0 + b)
  unnamed :
      {rest : Selections} {b : ℕ}
      → Fields ds (set rest) b
      → Fields ds (set (sel (fragment_spread none) rest)) (0 + b)

-- What a walk has added to its counter when it leaves a selection set.
abbrev Counted : List Definition → SelectionSet → (cost c : ℕ) → Type 0
Counted ds child cost c = (n : ℕ) × (c ≡ cost + n) × Fields ds child n

enter-Counted :
    (ds : List Definition) (cost c : ℕ) (below : Selections → Verdict) (child : SelectionSet)
    → ((sels : Selections) → below sels ≡ accepted c → Counted ds (set sels) cost c)
    → enter below cost child ≡ accepted c
    → Counted ds child cost c
enter-Counted ds cost c below no_set k e = (0, ground arith, Fields.no_fields)
enter-Counted ds cost c below (set sels) k e = k sels e

-- What it has added when it leaves one selection, for any selections after it.
abbrev CountedOne : List Definition → Selection → (cost c : ℕ) → Type 0
CountedOne ds s cost c =
    (n : ℕ) × (c ≡ cost + n)
    × ((rest : Selections) (b : ℕ) → Fields ds (set rest) b → Fields ds (set (sel s rest)) (n + b))

visit-Counted :
    (lim : Limits) (ds : List Definition) (below : List ℕ → ℕ → Selections → Verdict)
    (stack : List ℕ) (cost c : ℕ) (s : Selection)
    → ((st : List ℕ) (k : ℕ) (sels : Selections)
        → below st k sels ≡ accepted c
        → Counted ds (set sels) k c)
    → visit lim ds below stack cost s ≡ accepted c
    → CountedOne ds s cost c
unfolding visit
visit-Counted lim ds below stack cost c (field b child) k e =
    let (n, count, fields) =
      enter-Counted ds (suc cost) c (below stack (suc cost)) child (λ sels. k stack (suc cost) sels)
        (ground arith) in
    (1 + n, omega arith, λ rest m r. Fields.in_field fields r)
visit-Counted lim ds below stack cost c (inline_fragment child) k e =
    let (n, count, fields) =
      enter-Counted ds cost c (below stack cost) child (λ sels. k stack cost sels) e in
    (n, count, λ rest m r. Fields.in_inline fields r)
visit-Counted lim ds below stack cost c (fragment_spread none) k e =
    (0, ground arith, λ rest m r. Fields.unnamed r)
visit-Counted lim ds below stack cost c (fragment_spread (some x)) k e =
    elim (Bool-cases (on_stack x stack)) [
      | inl t ↦ absurd (ground arith)
      | inr t ↦ elim (Option-cases (fragment_of x ds)) [
        | inl f ↦ (0, ground arith, λ rest m r. Fields.unknown f r)
        | inr (child, f) ↦
            let (n, count, fields) =
              enter-Counted ds cost c (below (x ∷ stack) cost) child
                (λ sels. k (x ∷ stack) cost sels) (ground arith) in
            (n, count, λ rest m r. Fields.in_spread f fields r)
      ]
    ]

Counted-sel :
    (ds : List Definition) (s : Selection) (rest : Selections) (cost b c : ℕ)
    → CountedOne ds s cost b
    → Counted ds (set rest) b c
    → Counted ds (set (sel s rest)) cost c
Counted-sel ds s rest cost b c (n, one, build) (m, more, fields) =
    (n + m, omega arith, build rest m fields)

walk-Counted :
    (lim : Limits) (ds : List Definition) (room : ℕ) (sels : Selections) (stack : List ℕ)
    (cost c : ℕ)
    → walk_selection_set lim ds room stack cost sels ≡ accepted c
    → Counted ds (set sels) cost c
unfolding below_of walk_selection_set
walk-Counted lim ds room empty stack cost c e = (0, ground arith, Fields.end)
walk-Counted lim ds zero (sel s rest) stack cost c e =
    let (b, v, r) = walk-split lim ds zero stack cost c s rest e in
    Counted-sel ds s rest cost b c
      (visit-Counted lim ds (below_of lim ds zero) stack cost b s
        (λ st k sels x. absurd (ground arith)) v)
      (walk-Counted lim ds zero rest stack b c r)
walk-Counted lim ds (suc room) (sel s rest) stack cost c e =
    let (b, v, r) = walk-split lim ds (suc room) stack cost c s rest e in
    Counted-sel ds s rest cost b c
      (visit-Counted lim ds (below_of lim ds (suc room)) stack cost b s
        (λ st k sels x. walk-Counted lim ds room sels st k b x) v)
      (walk-Counted lim ds (suc room) rest stack b c r)

Counted-Fields :
    (ds : List Definition) (child : SelectionSet) (c : ℕ) → Counted ds child 0 c → Fields ds child c
Counted-Fields ds child c (n, count, fields) =
    let same : n ≡ c = omega arith in subst (Fields ds child) same fields

-- An operation that the walk accepts has, when each fragment that is spread is put in its place, exactly as many
-- fields as the walk counts, and at most maxFields.
pub walk_operation-bounded :
    (lim : Limits) (ds : List Definition) (op : Operation) (c : ℕ)
    → walk_operation lim ds op ≡ accepted c
    → Fields ds op.selection_set c × (c ≤ lim.max_fields)
unfolding walk_operation
walk_operation-bounded lim ds op c h = elim (ℕ-cases lim.max_depth) [
  | inl z ↦ (
    Counted-Fields ds op.selection_set c (
        enter-Counted ds 0 c (λ sels. rejected GuardError.depth_exceeded) op.selection_set
          (λ sels e. absurd (ground arith)) (ground arith)),
    enter-bounded lim.max_fields 0 c (λ sels. rejected GuardError.depth_exceeded) op.selection_set
        (omega arith) (λ sels e. absurd (ground arith)) (ground arith),
  )
  | inr (room, z) ↦ (
    Counted-Fields ds op.selection_set c (
        enter-Counted ds 0 c (λ sels. walk_selection_set lim ds room [] 0 sels) op.selection_set
          (λ sels e. walk-Counted lim ds room sels [] 0 c e) (ground arith)),
    enter-bounded lim.max_fields 0 c (λ sels. walk_selection_set lim ds room [] 0 sels)
        op.selection_set (omega arith)
        (λ sels e. walk-bounded lim ds room sels [] 0 c (omega arith) e) (ground arith),
  )
]
