-- ===== src/Graphql/Examples.antt =====
-- A query with a fragment: internal/app/server/graphql_guard.go.
use magpie_backend.Prelude.{◌≤◌, ◌≡◌, refl, false, none, some, List, [], ◌∷◌, All}
use magpie_backend.Graphql.{
  Selection, SelectionSet, Selections, Definition, Operation, Limits, accepted,
  validate_graphql_query_complexity, walk_operation, walk_operations, walk_selection_set, visit,
  fragment_of, operations_of, select_operations,
}
use magpie_backend.Graphql.Walk.{Safe, validate_graphql_query_complexity-Safe}
use magpie_backend.Graphql.Fields.{Fields, walk_operation-bounded}

abbrev leaf : Selection
leaf = Selection.field false SelectionSet.no_set

-- A field that spreads fragment 1, which has two fields.
abbrev operation : Operation
operation = record {
  name = none;
  selection_set = SelectionSet.set (
      Selections.sel
        (Selection.field false
          (SelectionSet.set (Selections.sel (Selection.fragment_spread (some 1)) Selections.empty)))
        Selections.empty);
}

abbrev document : List Definition
document =
    Definition.fragment_definition (record {
      name = some 1;
      selection_set = SelectionSet.set (Selections.sel leaf (Selections.sel leaf Selections.empty));
    })
    ∷ Definition.operation_definition operation
    ∷ []

abbrev limits : Limits
limits = record { max_depth = 3; max_fields = 250; allow_introspection = false }

valid : validate_graphql_query_complexity limits document none ≡ accepted 0
unfolding validate_graphql_query_complexity operations_of select_operations walk_operations
    walk_operation walk_selection_set visit fragment_of
valid = refl

walked : walk_operation limits document operation ≡ accepted 3
unfolding walk_operation walk_selection_set visit fragment_of
walked = refl

validate_graphql_query_complexity-Safe_example :
    All (Safe limits document) (select_operations (operations_of document) none)
validate_graphql_query_complexity-Safe_example =
    validate_graphql_query_complexity-Safe limits document none 0 valid

walk_operation-bounded_example : Fields document operation.selection_set 3 × (3 ≤ 250)
walk_operation-bounded_example = walk_operation-bounded limits document operation 3 walked
