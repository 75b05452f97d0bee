-- ===== src/Graphql.antt =====
-- The guard in front of the GraphQL endpoint: internal/app/server/graphql_guard.go. A name is a number,
-- since the code only compares names; a field keeps whether its name has the prefix `__`, and an
-- absent or blank name is `none`. The parser of graphql-go gives the document, which the model starts
-- with. The depth is counted down: `room` is maxDepth - depth, and the walk ends because it does.
use magpie_backend.Prelude.{
  ℕ, zero, suc, ◌==◌, ltb, if◌then◌else◌, Bool, true, false, not, ◌&&◌, ◌||◌, Option, none, some,
  is_some, List, [], ◌∷◌,
}
pub mod Walk
pub mod Fields
mod Examples

mutual
  pub data Selection : Type 0 where
    field : Bool → SelectionSet → Selection
    inline_fragment : SelectionSet → Selection
    fragment_spread : Option ℕ → Selection

  pub data SelectionSet : Type 0 where
    no_set : SelectionSet
    set : Selections → SelectionSet

  pub data Selections : Type 0 where
    empty : Selections
    sel : Selection → Selections → Selections

pub data GuardError : Type 0 where
  depth_exceeded fields_exceeded introspection_disabled fragment_cycle no_operation
        operation_not_found :
      GuardError

-- `error` with the cost that the walk leaves.
pub data Verdict : Type 0 where
  accepted : ℕ → Verdict
  rejected : GuardError → Verdict

pub record Fragment : Type 0 where
  pub name : Option ℕ
  pub selection_set : SelectionSet

pub record Operation : Type 0 where
  pub name : Option ℕ
  pub selection_set : SelectionSet

pub data Definition : Type 0 where
  fragment_definition : Fragment → Definition
  operation_definition : Operation → Definition
  other_definition : Definition

pub record Limits : Type 0 where
  pub max_depth : ℕ
  pub max_fields : ℕ
  pub allow_introspection : Bool

abbrev pub and_then : Verdict → (ℕ → Verdict) → Verdict
and_then (accepted c) f = f c
and_then (rejected e) f = rejected e

-- L102-110: a later fragment of the same name replaces an earlier one.
unfoldable pub fragment_of : ℕ → List Definition → Option SelectionSet
fragment_of n [] = none
fragment_of n (d ∷ ds) =
    let rest = fragment_of n ds in
    elim d [
      | fragment_definition f ↦
          if is_some rest
          then rest
          else elim f.name [ none ↦ none | some m ↦ if m == n then some f.selection_set else none ]
      | operation_definition o ↦ rest
      | other_definition ↦ rest
    ]

-- L103, L111-112.
unfoldable pub operations_of : List Definition → List Operation
operations_of [] = []
operations_of (operation_definition o ∷ ds) = o ∷ operations_of ds
operations_of (fragment_definition f ∷ ds) = operations_of ds
operations_of (other_definition ∷ ds) = operations_of ds

abbrev pub on_stack : ℕ → List ℕ → Bool
on_stack n [] = false
on_stack n (m ∷ ms) = m == n || on_stack n ms

-- The head of `walkSelectionSet`: no set, too deep, or the walk of what is below.
abbrev pub enter : (Selections → Verdict) → ℕ → SelectionSet → Verdict
enter below cost no_set = accepted cost
enter below cost (set sels) = below sels

-- One round of its loop; `below` walks a selection set one level down.
unfoldable pub visit :
    Limits
    → List Definition
    → (List ℕ → ℕ → Selections → Verdict)
    → List ℕ
    → ℕ
    → Selection
    → Verdict
unfolding fragment_of
visit lim ds below stack cost (field introspective child) =
    if ltb lim.max_fields (suc cost)
    then rejected fields_exceeded
    else if not lim.allow_introspection && introspective
    then rejected introspection_disabled
    else enter (below stack (suc cost)) (suc cost) child
visit lim ds below stack cost (inline_fragment child) = enter (below stack cost) cost child
visit lim ds below stack cost (fragment_spread none) = accepted cost
visit lim ds below stack cost (fragment_spread (some n)) =
    if on_stack n stack then rejected fragment_cycle else elim (fragment_of n ds) [
      | none ↦ accepted cost
      | some child ↦ enter (below (n ∷ stack) cost) cost child
    ]

-- The loop over the selections of a set that has `room` levels left below it.
unfoldable pub walk_selection_set : Limits → List Definition → ℕ → List ℕ → ℕ → Selections → Verdict
unfolding visit
walk_selection_set lim ds room stack cost empty = accepted cost
walk_selection_set lim ds zero stack cost (sel s rest) =
    and_then (visit lim ds (λ st c sels. rejected depth_exceeded) stack cost s)
      (λ c. walk_selection_set lim ds zero stack c rest)
walk_selection_set lim ds (suc room) stack cost (sel s rest) =
    and_then (visit lim ds (λ st c sels. walk_selection_set lim ds room st c sels) stack cost s)
      (λ c. walk_selection_set lim ds (suc room) stack c rest)

-- `selectOperations`; an empty name is `none`.
unfoldable pub select_operations : List Operation → Option ℕ → List Operation
select_operations ops none = ops
select_operations [] (some n) = []
select_operations (o ∷ ops) (some n) =
    let rest = select_operations ops (some n) in
    elim o.name [ none ↦ rest | some m ↦ if m == n then o ∷ rest else rest ]

-- `walkSelectionSet(op.SelectionSet, 1, maxDepth, ...)` with a cost of zero.
unfoldable pub walk_operation : Limits → List Definition → Operation → Verdict
unfolding walk_selection_set
walk_operation lim ds op = elim lim.max_depth [
  | zero ↦ enter (λ sels. rejected depth_exceeded) 0 op.selection_set
  | suc room ↦ enter (λ sels. walk_selection_set lim ds room [] 0 sels) 0 op.selection_set
]

unfoldable pub walk_operations : Limits → List Definition → List Operation → Verdict
unfolding walk_operation
walk_operations lim ds [] = accepted 0
walk_operations lim ds (op ∷ ops) =
    and_then (walk_operation lim ds op) (λ c. walk_operations lim ds ops)

abbrev pub no_operations : List Operation → Bool
no_operations [] = true
no_operations (o ∷ ops) = false

-- `validateGraphQLQueryComplexity` on a parsed document.
unfoldable pub validate_graphql_query_complexity : Limits → List Definition → Option ℕ → Verdict
unfolding operations_of select_operations walk_operations
validate_graphql_query_complexity lim ds name =
    let selected = select_operations (operations_of ds) name in
    if no_operations (operations_of ds)
    then rejected no_operation
    else if no_operations selected
    then rejected operation_not_found
    else walk_operations lim ds selected
