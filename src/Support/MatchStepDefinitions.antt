-- ===== src/Support/MatchStepDefinitions.antt =====
-- `MatchStepDefinitions` (cucumber_cpp/library/support/MatchStepDefinitions.cpp), and what a match
-- becomes when it is executed (cucumber_cpp/library/util/TransformArgument.cpp).
use amp_cucumber_cpp_runner.Prelude.{
  String, Option, none, some, List, [], ◌∷◌, ◌++◌, map, str_eq, if◌then◌else◌,
}
use amp_cucumber_cpp_runner.Messages.{Group, StepMatchArgument}
use amp_cucumber_cpp_runner.Platform.{Platform, ExpressionArgument}
use amp_cucumber_cpp_runner.Support.StepRegistry.{Argument, StepDefinition}

-- `ArgumentGroupToMessageGroup`
abbrev pub to_message_group : ExpressionArgument → Group
to_message_group a = record { value = a.value; children = some a.children }

abbrev pub to_match_argument : ExpressionArgument → StepMatchArgument
to_match_argument a = record {
  group = to_message_group a;
  parameter_type_name = if str_eq a.name "" then none else some a.name;
}

abbrev pub append_match :
    String
    → List ExpressionArgument
    → List String × List (List StepMatchArgument)
    → List String × List (List StepMatchArgument)
append_match id arguments (ids, lists) =
    (ids ++ (id ∷ []), lists ++ (map to_match_argument arguments ∷ []))

module _ {P : Platform} where
  -- The loop over the definitions that match, on the two lists that it appends to.
  unfoldable pub match_step_definitions :
      List (StepDefinition P)
      → String
      → List String × List (List StepMatchArgument)
      → List String × List (List StepMatchArgument)
  match_step_definitions [] text acc = acc
  match_step_definitions (d ∷ ds) text acc =
      match_step_definitions ds text (elim (P.match d.regex text) [
        | none ↦ acc
        | some arguments ↦ append_match d.id arguments acc
      ])

-- `GroupToArgumentGroup`: the children, or the whole capture if it has none.
abbrev pub group_to_argument_group : Group → List (Option String)
group_to_argument_group g = elim g.children [
  | none ↦ g.value ∷ []
  | some [] ↦ g.value ∷ []
  | some (c ∷ cs) ↦ c ∷ cs
]

-- `ToArgument`
abbrev pub to_argument : StepMatchArgument → Argument
to_argument a = record {
  converter_name = elim a.parameter_type_name [ none ↦ "" | some name ↦ name ];
  converter_args = group_to_argument_group a.group;
}

-- `StepMatchArgumentsListToExecuteArgs`
abbrev pub to_execute_args : List StepMatchArgument → List Argument
to_execute_args = map to_argument
