-- ===== src/Runtime/NestedTestCaseRunner.antt =====
-- Steps that are called from steps (cucumber_cpp/library/runtime/NestedTestCaseRunner.cpp).
pub mod Laws
use amp_cucumber_cpp_runner.Prelude.{
  ℕ, zero, suc, ◌+◌, String, Option, none, some, List, [], ◌∷◌, Bool, true, false, if◌then◌else◌,
}
use amp_cucumber_cpp_runner.Messages.{Status, TestStepResult, StepMatchArgument, is_passed}
use amp_cucumber_cpp_runner.Platform.{Platform}
use amp_cucumber_cpp_runner.World.{World}
use amp_cucumber_cpp_runner.Util.TestStepResult.{
  StepResult, StepOrHookStarted, TestStepStarted, step_started, transform_result,
}
use amp_cucumber_cpp_runner.Util.Worst.{result_of}
use amp_cucumber_cpp_runner.Util.Body.{
  Thrown, nested_error, standard, stack_exhausted, NestedCall, NestedRunner, construct_and_execute,
}
use amp_cucumber_cpp_runner.Support.{SupportCodeLibrary}
use amp_cucumber_cpp_runner.Support.StepRegistry
use amp_cucumber_cpp_runner.Support.StepRegistry.{StepDefinition, Argument}
use amp_cucumber_cpp_runner.Support.MatchStepDefinitions.{match_step_definitions, to_execute_args}

-- The result of a step that several definitions match
abbrev pub ambiguous_result : TestStepResult
ambiguous_result = record (result_of Status.ambiguous) {
  message = some "Ambiguous step definitions";
}

-- `std::map::at` of an id that is not there, thrown where the body's handlers see it
abbrev pub unknown_id : Thrown
unknown_id = standard "std::out_of_range" "map::at"

-- The arguments of the only match. The matches' ids and arguments are lists of the same length.
abbrev first_list : List (List StepMatchArgument) → List Argument
first_list [] = []
first_list (l ∷ ls) = to_execute_args l

module _ (P : Platform) (support : SupportCodeLibrary P) (started : TestStepStarted) where
  abbrev matched : String → List String × List (List StepMatchArgument)
  matched text = match_step_definitions support.step_registry.registry text ([], [])

  -- `Invoke`, from the result of the body
  abbrev throw_unless_passed : ℕ → String → StepResult × World P → Option Thrown × World P
  throw_unless_passed nesting text (r, w) =
      if is_passed (transform_result r).status
      then (none, w)
      else (some (nested_error nesting (transform_result r) text), w)

  abbrev run_definition :
      NestedRunner P
      → ℕ
      → NestedCall
      → Option (StepDefinition P)
      → World P
      → Option Thrown × World P
  run_definition inner nesting call none w = (some unknown_id, w)
  run_definition inner nesting call (some d) w = throw_unless_passed nesting call.text (
      construct_and_execute P inner (step_started started)
        (d.factory call.data_table call.doc_string (first_list (matched call.text).1)) w)

  -- `Run`, over the ids of the definitions that match; `inner` runs the steps that the step calls.
  abbrev run_matched :
      NestedRunner P → ℕ → NestedCall → List String → World P → Option Thrown × World P
  run_matched inner nesting call [] w =
      (some (nested_error nesting (result_of Status.undefined) call.text), w)
  run_matched inner nesting call (id ∷ []) w =
      run_definition inner nesting call (StepRegistry.get_definition_by_id id support.step_registry)
        w
  run_matched inner nesting call (_ ∷ _ ∷ _) w =
      (some (nested_error nesting ambiguous_result call.text), w)

  -- `NestedTestCaseRunner::Step` of a runner whose field `nesting` is the second argument; the first
  -- bounds how many runners stand inside one another.
  unfoldable pub step : ℕ → ℕ → NestedRunner P
  step zero nesting call w = (some stack_exhausted, w)
  step (suc depth) nesting call w =
      run_matched (step depth (nesting + 1)) nesting call (matched call.text).0 w
