-- ===== src/Assemble.antt =====
-- `AssembleTestSuites` (cucumber_cpp/library/assemble/AssembleTestSuites.cpp): from each pickle a
-- test case, its hooks about its steps, and from the test cases of a feature file a suite.
pub mod Laws
use amp_cucumber_cpp_runner.Prelude.{
  String, Option, none, some, List, [], ◌∷◌, ◌++◌, reverse, str_eq, if◌then◌else◌,
}
use amp_cucumber_cpp_runner.Messages.{
  GherkinDocument, Pickle, PickleStep, TestStep, TestCase, Envelope, StepMatchArgument,
}
use amp_cucumber_cpp_runner.Platform.{Platform}
use amp_cucumber_cpp_runner.World.{M, pure, value, ◌>>=◌, ◌>>◌, broadcast, next_id}
use amp_cucumber_cpp_runner.Support.{SupportCodeLibrary}
use amp_cucumber_cpp_runner.Support.HookRegistry.{before, after, find_ids}
use amp_cucumber_cpp_runner.Support.StepRegistry.{StepDefinition}
use amp_cucumber_cpp_runner.Support.MatchStepDefinitions.{match_step_definitions}

-- `support::PickleSource`
pub record PickleSource : Type 0 where
  pub pickle : Pickle
  pub gherkin_document : GherkinDocument

pub record AssembledTestCase : Type 0 where
  pub pickle : Pickle
  pub test_case : TestCase

pub record AssembledTestSuite : Type 0 where
  pub gherkin_document : GherkinDocument
  pub test_cases : List AssembledTestCase

abbrev pub hook_step : String → String → TestStep
hook_step hook_id id = record {
  id = id;
  hook_id = some hook_id;
  pickle_step_id = none;
  step_definition_ids = none;
  step_match_arguments_lists = none;
}

abbrev pub pickle_step_of :
    String → PickleStep → List String × List (List StepMatchArgument) → TestStep
pickle_step_of id s (ids, lists) = record {
  id = id;
  hook_id = none;
  pickle_step_id = some s.id;
  step_definition_ids = some ids;
  step_match_arguments_lists = some lists;
}

module _ {P : Platform} where
  -- The two loops over hook ids in `AssembleTestSteps`
  unfoldable pub assemble_hooks : List String → M P (List TestStep)
  assemble_hooks [] = pure []
  assemble_hooks (hook_id ∷ ids) = do
    id ← next_id
    rest ← assemble_hooks ids
    pure (hook_step hook_id id ∷ rest)

  unfoldable pub assemble_steps : List (StepDefinition P) → List PickleStep → M P (List TestStep)
  assemble_steps definitions [] = pure []
  assemble_steps definitions (s ∷ steps) = do
    id ← next_id
    rest ← assemble_steps definitions steps
    pure (pickle_step_of id s (match_step_definitions definitions s.text ([], [])) ∷ rest)

  unfoldable pub assemble_test_steps : SupportCodeLibrary P → Pickle → M P (List TestStep)
  assemble_test_steps support pickle = do
    before_steps ← assemble_hooks (find_ids before pickle.tags support.hook_registry)
    steps ← assemble_steps support.step_registry.registry pickle.steps
    after_steps ← assemble_hooks (reverse (find_ids after pickle.tags support.hook_registry))
    pure (before_steps ++ (steps ++ after_steps))

-- The suites in the order of `testUris`: `assembledTestSuiteMap` holds one under each of those uris.
abbrev pub SuiteMap : Type 0
SuiteMap = List (String × AssembledTestSuite)

unfoldable pub add_test_case : String → GherkinDocument → AssembledTestCase → SuiteMap → SuiteMap
add_test_case uri document c [] =
    (uri, record { gherkin_document = document; test_cases = c ∷ [] }) ∷ []
add_test_case uri document c ((u, suite) ∷ suites) =
    if str_eq u uri
    then (u, record suite { test_cases = suite.test_cases ++ (c ∷ []) }) ∷ suites
    else (u, suite) ∷ add_test_case uri document c suites

abbrev pub suites_of : SuiteMap → List AssembledTestSuite
suites_of [] = []
suites_of ((u, suite) ∷ suites) = suite ∷ suites_of suites

module _ {P : Platform} (support : SupportCodeLibrary P) (test_run_started_id : String) where
  unfoldable pub assemble_test_case : Pickle → M P TestCase
  assemble_test_case pickle = do
    id ← next_id
    steps ← assemble_test_steps support pickle
    pure (record {
      id = id;
      pickle_id = pickle.id;
      test_run_started_id = some test_run_started_id;
      test_steps = steps;
    })

  -- The loop over the pickles
  unfoldable pub assemble_sources : List PickleSource → SuiteMap → M P SuiteMap
  assemble_sources [] suites = pure suites
  assemble_sources (s ∷ sources) suites = do
    test_case ← assemble_test_case s.pickle
    broadcast (Envelope.test_case test_case)
    uri ← value s.gherkin_document.uri
    assemble_sources sources (
        add_test_case uri s.gherkin_document (record { pickle = s.pickle; test_case = test_case })
          suites)

  unfoldable pub assemble_test_suites : List PickleSource → M P (List AssembledTestSuite)
  assemble_test_suites sources = do suites ← assemble_sources sources []; pure (suites_of suites)
