-- ===== src/Runtime/TestCaseRunner.antt =====
-- `TestCaseRunner` (cucumber_cpp/library/runtime/TestCaseRunner.cpp): one test case, its attempts,
-- and in each attempt its hooks and steps.
pub mod Attempts
pub mod Keeps
pub mod Isolation
pub mod Trace
pub mod Total
pub mod Retries
pub mod Severity
pub mod Retained
pub mod Skip
use amp_cucumber_cpp_runner.Prelude.{
  ℕ, zero, suc, ◌+◌, ◌%◌, String, Bool, true, false, not, ◌&&◌, ◌||◌, Option, none, some, List, [],
  ◌∷◌, ◌++◌, ltb, ◌==◌, str_eq, if◌then◌else◌, length,
}
use amp_cucumber_cpp_runner.Messages.{
  Status, Duration, TestStepResult, Pickle, PickleStep, TestStep, TestCase, Envelope,
  StepMatchArgument, is_passed, is_failed, is_skipped,
}
use amp_cucumber_cpp_runner.Platform.{Platform}
use amp_cucumber_cpp_runner.World.{
  World, Error, invalid_argument, Result, ok, err, M, pure, throw, at, value, deref, ◌>>=◌, ◌>>◌,
  broadcast, next_id, with_context,
}
use amp_cucumber_cpp_runner.Util.Duration
use amp_cucumber_cpp_runner.Util.TestStepResult.{
  TestStepStarted, StepOrHookStarted, step_started, transform_result,
}
use amp_cucumber_cpp_runner.Util.Worst.{result_of, get_worst_test_step_result}
use amp_cucumber_cpp_runner.Util.Body.{Body, no_nested, construct_and_execute}
use amp_cucumber_cpp_runner.Support.{SupportCodeLibrary}
use amp_cucumber_cpp_runner.Support.HookRegistry
use amp_cucumber_cpp_runner.Support.HookRegistry.{
  HookDefinition, HookType, before_step, after_step, ScenarioInfo,
}
use amp_cucumber_cpp_runner.Support.StepRegistry
use amp_cucumber_cpp_runner.Support.StepRegistry.{StepDefinition}
use amp_cucumber_cpp_runner.Support.MatchStepDefinitions.{to_execute_args}
use amp_cucumber_cpp_runner.Runtime.NestedTestCaseRunner
use amp_cucumber_cpp_runner.Runtime.NestedTestCaseRunner.{ambiguous_result}

-- The runner's fields that do not change. `depth` bounds how deep its steps' nested steps may go.
pub record TestCaseRunner (P : Platform) : Type 0 where
  pub pickle : Pickle
  pub test_case : TestCase
  pub maximum_attempts : ℕ
  pub repeat : Bool
  pub skip : Bool
  pub support : SupportCodeLibrary P
  pub depth : ℕ

-- 2^64, for `std::size_t`
abbrev pub size_modulus : ℕ
size_modulus = 18446744073709551616

abbrev pub attempts_allowed : ℕ → Bool → Option ℕ → ℕ
attempts_allowed retries skip repeat =
    if skip then 1 else elim repeat [ some n ↦ n | none ↦ (1 + retries) % size_modulus ]

-- The checks in the constructor's body
abbrev pub check_repeat : ℕ → Option ℕ → Option Error
check_repeat retries none = none
check_repeat retries (some n) =
    if n == 0
    then some (invalid_argument "repeat must be at least 1")
    else if retries == 0
    then none
    else some (invalid_argument "repeat and retry are mutually exclusive")

abbrev pub has_value {ℓ} : {A : Type ℓ} → Option A → Bool
has_value none = false
has_value (some a) = true

-- The constructor
unfoldable pub make_test_case_runner :
    {P : Platform}
    → ℕ
    → Pickle
    → TestCase
    → (retries : ℕ) (skip : Bool) → SupportCodeLibrary P
    → (repeat : Option ℕ) → M P (TestCaseRunner P)
make_test_case_runner depth pickle test_case retries skip support repeat =
    elim (check_repeat retries repeat) [
      | some e ↦ throw e
      | none ↦ pure (record {
        pickle = pickle;
        test_case = test_case;
        maximum_attempts = attempts_allowed retries skip repeat;
        repeat = has_value repeat;
        skip = skip;
        support = support;
        depth = depth;
      })
    ]

-- What the loop over the test steps carries: the results so far, and the flags.
pub record Progress : Type 0 where
  pub results : List TestStepResult
  pub seen_steps : Bool
  pub error : Bool

abbrev pub no_progress : Progress
no_progress = record { results = []; seen_steps = false; error = false }

-- What an attempt leaves: `willRetry`, and the results.
pub record Attempt : Type 0 where
  pub will_retry : Bool
  pub results : List TestStepResult

abbrev pub scenario_info : Pickle → ScenarioInfo
scenario_info p = record { name = p.name; tags = p.tags }

unfoldable pub find_pickle_step : String → List PickleStep → Option PickleStep
find_pickle_step id [] = none
find_pickle_step id (s ∷ steps) = if str_eq s.id id then some s else find_pickle_step id steps

abbrev pub front {ℓ} : {A : Type ℓ} → List A → Option A
front [] = none
front (a ∷ as') = some a

unfoldable pub total_duration : Duration → List TestStepResult → Duration
unfolding Duration.add
total_duration sum [] = sum
total_duration sum (r ∷ rs) = total_duration (Duration.add sum r.duration) rs

module _ {P : Platform} (runner : TestCaseRunner P) where
  open runner use {pickle, test_case, maximum_attempts, repeat, skip, support, depth}

  -- `GetWorstStepResult`
  unfoldable pub get_worst_step_result : List TestStepResult → TestStepResult
  get_worst_step_result [] = result_of (if skip then Status.skipped else Status.passed)
  get_worst_step_result (r ∷ rs) = get_worst_test_step_result P (r ∷ rs)

  abbrev pub is_skipping_steps : List TestStepResult → Bool
  is_skipping_steps results = not (is_passed (get_worst_step_result results).status)

  abbrev pub should_skip_hook : List TestStepResult → Bool → Bool
  should_skip_hook results is_before_hook = skip || (is_skipping_steps results && is_before_hook)

  -- `InvokeStep`, for a body whose nested steps run in this test case
  unfoldable pub invoke_step : TestStepStarted → Body P → M P TestStepResult
  invoke_step started body w =
      let (r, w') =
        construct_and_execute P (NestedTestCaseRunner.step P support started depth 1)
          (step_started started) body w in
      (ok (transform_result r), w')

  -- `InvokeStep`, for the body of a hook
  unfoldable pub invoke_hook : TestStepStarted → Body P → M P TestStepResult
  invoke_hook started body w =
      let (r, w') = construct_and_execute P no_nested (step_started started) body w in
      (ok (transform_result r), w')

  unfoldable pub run_hook :
      HookDefinition P → Bool → TestStepStarted → Bool → List TestStepResult → M P TestStepResult
  run_hook d is_before_hook started has_error results =
      if should_skip_hook results is_before_hook
      then pure (result_of Status.skipped)
      else invoke_hook started (d.factory (some (scenario_info pickle)) has_error)

  -- The loop of `RunStepHooks`
  unfoldable pub run_hook_ids : TestStepStarted → List String → M P (List TestStepResult)
  run_hook_ids started [] = pure []
  run_hook_ids started (id ∷ ids) = do
    d ← at (HookRegistry.get_definition_by_id id support.hook_registry)
    r ← invoke_hook started (d.factory (some (scenario_info pickle)) false)
    rs ← run_hook_ids started ids
    pure (r ∷ rs)

  unfoldable pub run_step_hooks : HookType → TestStepStarted → M P (List TestStepResult)
  run_step_hooks type started =
      run_hook_ids started (HookRegistry.find_ids type pickle.tags support.hook_registry)

  -- The step's own body, unless a hook before it failed
  unfoldable pub run_step_body :
      PickleStep
      → TestStep
      → TestStepStarted
      → List String
      → List TestStepResult
      → M P (List TestStepResult)
  run_step_body pickle_step test_step started ids before_results =
      if is_failed (get_worst_test_step_result P before_results).status
      then pure before_results
      else do
        id ← deref (front ids)
        d ← at (StepRegistry.get_definition_by_id id support.step_registry)
        lists ← deref test_step.step_match_arguments_lists
        arguments ← deref (front lists)
        r ←
            invoke_step started
              (d.factory pickle_step.data_table pickle_step.doc_string (to_execute_args arguments))
        pure (before_results ++ (r ∷ []))

  -- The worst of the results, with the sum of their durations
  abbrev pub final_step_result : List TestStepResult → TestStepResult
  final_step_result results = record (get_worst_test_step_result P results) {
    duration = total_duration (record { seconds = 0; nanos = 0 }) results;
  }

  -- The part of `RunStep` behind its early returns
  unfoldable pub run_hooks_and_step :
      PickleStep → TestStep → TestStepStarted → List String → M P TestStepResult
  run_hooks_and_step pickle_step test_step started ids = do
    before_results ← run_step_hooks before_step started
    step_results ← run_step_body pickle_step test_step started ids before_results
    after_results ← run_step_hooks after_step started
    pure (final_step_result (step_results ++ after_results))

  -- Undefined and ambiguous steps that follow a skipped step are skipped.
  abbrev pub follows_skipped_step : List TestStepResult → Bool
  follows_skipped_step [] = false
  follows_skipped_step (r ∷ rs) = not skip && is_skipped (get_worst_step_result (r ∷ rs)).status

  unfoldable pub suggest : PickleStep → M P TestStepResult
  suggest pickle_step = do
    id ← next_id
    broadcast (Envelope.suggestion id pickle_step.id)
    pure (result_of Status.undefined)

  unfoldable pub run_step :
      PickleStep → TestStep → TestStepStarted → List TestStepResult → M P TestStepResult
  run_step pickle_step test_step started results = do
    ids ← deref test_step.step_definition_ids
    if length ids == 0 && not (follows_skipped_step results)
        then suggest pickle_step
        else if ltb 1 (length ids) && not (follows_skipped_step results)
        then pure ambiguous_result
        else if is_skipping_steps results
        then pure (result_of Status.skipped)
        else run_hooks_and_step pickle_step test_step started ids

  abbrev pub reports_error : TestStepResult → Bool
  reports_error r = has_value r.message || has_value r.exception

  abbrev pub after_step_of : Progress → TestStepResult → Progress
  after_step_of p r = record {
    results = p.results ++ (r ∷ []);
    seen_steps = true;
    error = p.error || reports_error r;
  }

  -- The hook or the step of one round of the loop in `RunAttempt`
  unfoldable pub run_hook_or_step : TestStep → TestStepStarted → Progress → M P Progress
  run_hook_or_step test_step started p = elim test_step.hook_id [
    | some hook_id ↦ do
      d ← at (HookRegistry.get_definition_by_id hook_id support.hook_registry)
      r ← run_hook d (not p.seen_steps) started p.error p.results
      pure (record p { results = p.results ++ (r ∷ []) })
    | none ↦ do
      pickle_step_id ← value test_step.pickle_step_id
      pickle_step ← deref (find_pickle_step pickle_step_id pickle.steps)
      r ← run_step pickle_step test_step started p.results
      pure (after_step_of p r)
  ]
