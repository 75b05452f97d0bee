-- ===== src/Graphql/Walk.antt =====
-- What an accepted query keeps to, fragments included: internal/app/server/graphql_guard.go.
use magpie_backend.Prelude.{
  ℕ, zero, suc, ◌≤◌, ◌<◌, ◌≡◌, refl, sym, ◌∙◌, Bool, false, Option, some, List, [], ◌∷◌, All,
  Bool-cases, ℕ-cases, inl, inr, arith,
}
use magpie_backend.Graphql.{
  Selection, field, inline_fragment, fragment_spread, set, Selections, sel, Verdict, accepted,
  rejected, GuardError, Limits, Definition, Operation, and_then, fragment_of, visit,
  walk_selection_set, walk_operation, walk_operations, operations_of, select_operations,
  no_operations, validate_graphql_query_complexity,
}

-- `Reached ds d sels s`: the selection `s` stands `d` levels below the selections `sels`, when each
-- fragment that is spread is put in its place.
pub data Reached (ds : List Definition) : ℕ → Selections → Selection → Type 0 where
  here : {s : Selection} {rest : Selections} → Reached ds 0 (sel s rest) s
  there :
      {d : ℕ} {s t : Selection} {rest : Selections}
      → Reached ds d rest s
      → Reached ds d (sel t rest) s
  in_field :
      {d : ℕ} {b : Bool} {s : Selection} {below rest : Selections}
      → Reached ds d below s
      → Reached ds (suc d) (sel (field b (set below)) rest) s
  in_inline :
      {d : ℕ} {s : Selection} {below rest : Selections}
      → Reached ds d below s
      → Reached ds (suc d) (sel (inline_fragment (set below)) rest) s
  in_spread :
      {d n : ℕ} {s : Selection} {below rest : Selections}
      → fragment_of n ds ≡ some (set below)
      → Reached ds d below s
      → Reached ds (suc d) (sel (fragment_spread (some n)) rest) s

abbrev pub is_introspective : Selection → Bool
is_introspective (field b child) = b
is_introspective _ = false

-- The walk below one level: what `walk_selection_set` passes to `visit`.
unfoldable pub below_of : Limits → List Definition → ℕ → List ℕ → ℕ → Selections → Verdict
below_of lim ds zero stack cost sels = rejected GuardError.depth_exceeded
below_of lim ds (suc room) stack cost sels = walk_selection_set lim ds room stack cost sels

walk-sel :
    (lim : Limits) (ds : List Definition) (room : ℕ) (stack : List ℕ) (cost : ℕ) (s : Selection)
    (rest : Selections)
    → walk_selection_set lim ds room stack cost (sel s rest)
      ≡ and_then
          (visit lim ds (λ st c sels. below_of lim ds room st c sels) stack cost s)
          (λ c. walk_selection_set lim ds room stack c rest)
unfolding walk_selection_set below_of
walk-sel lim ds zero stack cost s rest = refl
walk-sel lim ds (suc room) stack cost s rest = refl

and_then-accepted :
    (v : Verdict) (f : ℕ → Verdict) (c : ℕ)
    → and_then v f ≡ accepted c
    → (b : ℕ) × (v ≡ accepted b) × (f b ≡ accepted c)
and_then-accepted (accepted b) f c h = (b, refl, h)
and_then-accepted (rejected e) f c h = absurd (ground arith)

pub walk-split :
    (lim : Limits) (ds : List Definition) (room : ℕ) (stack : List ℕ) (cost c : ℕ) (s : Selection)
    (rest : Selections)
    → walk_selection_set lim ds room stack cost (sel s rest) ≡ accepted c
    → (b : ℕ) × (visit lim ds (λ st k sels. below_of lim ds room st k sels) stack cost s
        ≡ accepted b)
      × (walk_selection_set lim ds room stack b rest ≡ accepted c)
walk-split lim ds room stack cost c s rest h =
    and_then-accepted (visit lim ds (λ st k sels. below_of lim ds room st k sels) stack cost s)
      (λ k. walk_selection_set lim ds room stack k rest) c
      (sym (walk-sel lim ds room stack cost s rest) ∙ h)

-- `Sees lim room d s`: the walk with `room` levels left takes the selection at depth `d`.
pub Sees : Limits → ℕ → ℕ → Selection → Type 0
Sees lim room d s = (d ≤ room) × (lim.allow_introspection ≡ false → is_introspective s ≡ false)

visit-here :
    (lim : Limits) (ds : List Definition) (below : List ℕ → ℕ → Selections → Verdict)
    (stack : List ℕ) (cost c : ℕ) (s : Selection)
    → visit lim ds below stack cost s ≡ accepted c
    → lim.allow_introspection ≡ false
    → is_introspective s ≡ false
unfolding visit
visit-here lim ds below stack cost c (field b child) h a = ground arith
visit-here lim ds below stack cost c (inline_fragment child) h a = refl
visit-here lim ds below stack cost c (fragment_spread n) h a = refl

visit-field :
    (lim : Limits) (ds : List Definition) (below : List ℕ → ℕ → Selections → Verdict)
    (stack : List ℕ) (cost c : ℕ) (b : Bool) (child : Selections)
    → visit lim ds below stack cost (field b (set child)) ≡ accepted c
    → below stack (suc cost) child ≡ accepted c
unfolding visit
visit-field lim ds below stack cost c b child h = ground arith

visit-inline :
    (lim : Limits) (ds : List Definition) (below : List ℕ → ℕ → Selections → Verdict)
    (stack : List ℕ) (cost c : ℕ) (child : Selections)
    → visit lim ds below stack cost (inline_fragment (set child)) ≡ accepted c
    → below stack cost child ≡ accepted c
unfolding visit
visit-inline lim ds below stack cost c child h = h

visit-spread :
    (lim : Limits) (ds : List Definition) (below : List ℕ → ℕ → Selections → Verdict)
    (stack : List ℕ) (cost c n : ℕ) (child : Selections)
    → fragment_of n ds ≡ some (set child)
    → visit lim ds below stack cost (fragment_spread (some n)) ≡ accepted c
    → below (n ∷ stack) cost child ≡ accepted c
unfolding visit
visit-spread lim ds below stack cost c n child f h = ground arith

Sees-deeper :
    (lim : Limits) (ds : List Definition) (room : ℕ) (stack : List ℕ) (cost c : ℕ)
    (child : Selections) (d : ℕ) (s : Selection)
    → below_of lim ds room stack cost child ≡ accepted c
    → ((room' : ℕ)
        → walk_selection_set lim ds room' stack cost child ≡ accepted c
        → Sees lim room' d s)
    → Sees lim room (suc d) s
unfolding Sees below_of
Sees-deeper lim ds zero stack cost c child d s h k = absurd (ground arith)
Sees-deeper lim ds (suc room) stack cost c child d s h k =
    let (le, hidden) = k room h in (omega arith, hidden)

-- A walk that accepts reaches each selection at a depth that is left, and none of them asks for the schema
-- where introspection is off.
walk-Sees :
    (lim : Limits) (ds : List Definition) {d : ℕ} {sels : Selections} {s : Selection} (room : ℕ)
    (stack : List ℕ) (cost c : ℕ)
    → walk_selection_set lim ds room stack cost sels ≡ accepted c
    → Reached ds d sels s
    → Sees lim room d s
unfolding Sees
walk-Sees lim ds room stack cost c h (here {s} {rest}) =
    let (b, v, r) = walk-split lim ds room stack cost c s rest h in
    (omega arith, visit-here lim ds (below_of lim ds room) stack cost b s v)
walk-Sees lim ds room stack cost c h (there {t} {rest} m) =
    let (b, v, r) = walk-split lim ds room stack cost c t rest h in
    walk-Sees lim ds room stack b c r m
walk-Sees lim ds room stack cost c h (in_field {d} {b} {s} {below} {rest} m) =
    let (k, v, r) = walk-split lim ds room stack cost c (field b (set below)) rest h in
    Sees-deeper lim ds room stack (suc cost) k below d s
      (visit-field lim ds (below_of lim ds room) stack cost k b below v)
      (λ room' w. walk-Sees lim ds room' stack (suc cost) k w m)
walk-Sees lim ds room stack cost c h (in_inline {d} {s} {below} {rest} m) =
    let (k, v, r) = walk-split lim ds room stack cost c (inline_fragment (set below)) rest h in
    Sees-deeper lim ds room stack cost k below d s
      (visit-inline lim ds (below_of lim ds room) stack cost k below v)
      (λ room' w. walk-Sees lim ds room' stack cost k w m)
walk-Sees lim ds room stack cost c h (in_spread {d} {n} {s} {below} {rest} f m) =
    let (k, v, r) = walk-split lim ds room stack cost c (fragment_spread (some n)) rest h in
    Sees-deeper lim ds room (n ∷ stack) cost k below d s
      (visit-spread lim ds (below_of lim ds room) stack cost k n below f v)
      (λ room' w. walk-Sees lim ds room' (n ∷ stack) cost k w m)

-- What an operation of an accepted query keeps to.
pub Safe : Limits → List Definition → Operation → Type 0
Safe lim ds op =
    (sels : Selections)
    → op.selection_set ≡ set sels
    → (d : ℕ) (s : Selection) → Reached ds d sels s
    → (d < lim.max_depth) × (lim.allow_introspection ≡ false → is_introspective s ≡ false)

walk_operation-Safe :
    (lim : Limits) (ds : List Definition) (op : Operation) (c : ℕ)
    → walk_operation lim ds op ≡ accepted c
    → Safe lim ds op
unfolding Safe walk_operation Sees
walk_operation-Safe lim ds op c h sels e d s m = elim (ℕ-cases lim.max_depth) [
  | inl z ↦ absurd (ground arith)
  | inr (room, z) ↦
      let k : walk_selection_set lim ds room [] 0 sels ≡ accepted c = ground arith in
      let (le, hidden) = walk-Sees lim ds room [] 0 c k m in (omega arith, hidden)
]

walk_operations-Safe :
    (lim : Limits) (ds : List Definition) (ops : List Operation) (c : ℕ)
    → walk_operations lim ds ops ≡ accepted c
    → All (Safe lim ds) ops
unfolding walk_operations
walk_operations-Safe lim ds [] c h = tt
walk_operations-Safe lim ds (op ∷ ops) c h =
    let (b, v, r) =
      and_then-accepted (walk_operation lim ds op) (λ k. walk_operations lim ds ops) c h in
    (walk_operation-Safe lim ds op b v, walk_operations-Safe lim ds ops c r)

-- In each operation that an accepted query selects, every selection, those of the fragments it spreads
-- included, stands less than maxDepth levels below the operation, and no field asks for the
-- schema unless introspection is allowed.
pub validate_graphql_query_complexity-Safe :
    (lim : Limits) (ds : List Definition) (name : Option ℕ) (c : ℕ)
    → validate_graphql_query_complexity lim ds name ≡ accepted c
    → All (Safe lim ds) (select_operations (operations_of ds) name)
unfolding validate_graphql_query_complexity
validate_graphql_query_complexity-Safe lim ds name c h =
    elim (Bool-cases (no_operations (operations_of ds))) [
      | inl t ↦ absurd (ground arith)
      | inr t ↦ elim (Bool-cases (no_operations (select_operations (operations_of ds) name))) [
        | inl u ↦ absurd (ground arith)
        | inr u ↦
            walk_operations-Safe lim ds (select_operations (operations_of ds) name) c (ground arith)
      ]
    ]
