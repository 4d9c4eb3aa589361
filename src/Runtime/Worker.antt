-- ===== src/Runtime/Worker.antt =====
-- `Worker` (cucumber_cpp/library/runtime/Worker.cpp): global and feature hooks, and the test cases
-- of a suite under the run's options.
pub mod Total
pub mod Skip
pub mod Isolation
use amp_cucumber_cpp_runner.Prelude.{
  ℕ, String, Bool, true, false, not, ◌&&◌, ◌||◌, Option, none, some, List, [], ◌∷◌, reverse, ◌==◌,
  if◌then◌else◌,
}
use amp_cucumber_cpp_runner.Messages.{Status, TestStepResult, Envelope, Pickle, is_passed}
use amp_cucumber_cpp_runner.Platform.{Platform}
use amp_cucumber_cpp_runner.World.{
  World, global_hook_error, ok, err, M, pure, throw, at, deref, ◌>>=◌, ◌>>◌, broadcast, next_id,
  with_context,
}
use amp_cucumber_cpp_runner.Util.TestStepResult.{hook_started, transform_result}
use amp_cucumber_cpp_runner.Util.Worst.{result_of, get_worst_test_step_result}
use amp_cucumber_cpp_runner.Util.Body.{no_nested, construct_and_execute, Body}
use amp_cucumber_cpp_runner.Support.{SupportCodeLibrary}
use amp_cucumber_cpp_runner.Support.HookRegistry.{
  HookType, before_all, after_all, before_feature, after_feature, find_ids, get_definition_by_id,
}
use amp_cucumber_cpp_runner.Assemble.{AssembledTestCase, AssembledTestSuite}
use amp_cucumber_cpp_runner.Runtime.TestCaseRunner.{
  TestCaseRunner, check_repeat, make_test_case_runner,
}
use amp_cucumber_cpp_runner.Runtime.TestCaseRunner.Attempts.{run}

-- `RunOptions::Runtime` (cucumber_cpp/library/support/Types.hpp)
pub record RuntimeOptions (P : Platform) : Type 0 where
  pub dry_run : Bool
  pub fail_fast : Bool
  pub fail_global_hook_fast : Bool
  pub retry : ℕ
  pub strict : Bool
  pub retry_tag_expression : Option P.TagExpression
  pub feature_hooks : Bool
  pub repeat : Option ℕ
  pub repeat_tag_expression : Option P.TagExpression

pub record Worker (P : Platform) : Type 0 where
  pub test_run_started_id : String
  pub options : RuntimeOptions P
  pub support : SupportCodeLibrary P
  -- how deep the nested steps of a step may go
  pub depth : ℕ

abbrev pub is_failing : Status → Bool → Bool
is_failing status dry_run = if dry_run then false else not (is_passed status)

-- `failingStatuses.contains`
abbrev pub in_failing_statuses : Status → Bool
in_failing_statuses Status.ambiguous = true
in_failing_statuses Status.failed = true
in_failing_statuses Status.undefined = true
in_failing_statuses _ = false

abbrev is_pending : Status → Bool
is_pending Status.pending = true
is_pending _ = false

abbrev pub is_status_failed : {P : Platform} → RuntimeOptions P → Status → Bool
is_status_failed o status =
    if o.dry_run
    then false
    else if o.strict && is_pending status
    then true
    else in_failing_statuses status

module _ {P : Platform} where
  -- The constructor
  unfoldable pub make_worker : ℕ → String → RuntimeOptions P → SupportCodeLibrary P → M P (Worker P)
  make_worker depth run_id o support = elim (check_repeat o.retry o.repeat) [
    | some e ↦ throw e
    | none ↦
        pure
          (record { test_run_started_id = run_id; options = o; support = support; depth = depth })
  ]

  unfoldable pub retries_for_pickle : Pickle → RuntimeOptions P → M P ℕ
  retries_for_pickle pickle o = if o.retry == 0 then pure 0 else do
    expression ← deref o.retry_tag_expression
    pure (if P.evaluate expression pickle.tags then o.retry else 0)

  -- The last argument of `RunTestCase`'s runner
  abbrev pub repeat_for_pickle : Pickle → RuntimeOptions P → Option ℕ
  repeat_for_pickle pickle o = elim o.repeat_tag_expression [
    | none ↦ o.repeat
    | some expression ↦ if P.evaluate expression pickle.tags then o.repeat else none
  ]

module _ {P : Platform} (worker : Worker P) where
  open worker use {test_run_started_id, options, support, depth}

  -- The body of a global or feature hook, and the exception that a failure may be turned into
  unfoldable pub invoke_test_hook : String → Body P → M P TestStepResult
  invoke_test_hook started_id body w =
      let (r, w') =
        construct_and_execute P no_nested
          (hook_started (record { test_run_started_id = started_id })) body w in
      if not (is_passed (transform_result r).status) && options.fail_global_hook_fast
      then (err (global_hook_error "Global Hook Failed"), w')
      else (ok (transform_result r), w')

  unfoldable pub run_test_hook : String → M P TestStepResult
  run_test_hook id = do
    d ← at (get_definition_by_id id support.hook_registry)
    started_id ← next_id
    broadcast (Envelope.test_run_hook_started started_id test_run_started_id d.data_of.id)
    result ←
        (if options.dry_run
          then pure (result_of Status.skipped)
          else invoke_test_hook started_id (d.factory none false))
    broadcast (Envelope.test_run_hook_finished started_id result)
    pure result

  unfoldable pub run_test_hooks : List String → M P (List TestStepResult)
  run_test_hooks [] = pure []
  run_test_hooks (id ∷ ids) = do r ← run_test_hook id; rs ← run_test_hooks ids; pure (r ∷ rs)

  unfoldable pub run_before_all_hooks : M P (List TestStepResult)
  run_before_all_hooks = run_test_hooks (find_ids before_all [] support.hook_registry)

  unfoldable pub run_after_all_hooks : M P (List TestStepResult)
  run_after_all_hooks = run_test_hooks (reverse (find_ids after_all [] support.hook_registry))

  unfoldable pub run_before_test_suite_hooks : List String → M P (List TestStepResult)
  run_before_test_suite_hooks tags =
      run_test_hooks (find_ids before_feature tags support.hook_registry)

  unfoldable pub run_after_test_suite_hooks : List String → M P (List TestStepResult)
  run_after_test_suite_hooks tags =
      run_test_hooks (find_ids after_feature tags support.hook_registry)

  unfoldable pub run_test_case : AssembledTestCase → Bool → M P Bool
  run_test_case c failing = do
    retries ← retries_for_pickle c.pickle options
    runner ←
        make_test_case_runner depth c.pickle c.test_case retries
          (options.dry_run || (options.fail_fast && failing)) support
          (repeat_for_pickle c.pickle options)
    status ← run runner
    pure (not (is_status_failed options status))

  -- The loop over the suite's test cases, on `failed`
  unfoldable pub run_test_cases : List AssembledTestCase → Bool → Bool → M P Bool
  run_test_cases [] failing failed = pure failed
  run_test_cases (c ∷ cases) failing failed = do
    success ← run_test_case c (failed || failing)
    run_test_cases cases failing (failed || not success)

  -- The two blocks under `options.featureHooks`, each with the value of `failing` behind it
  abbrev pub run_suite_hooks :
      (List String → M P (List TestStepResult)) → AssembledTestSuite → Bool → M P Bool
  run_suite_hooks hooks suite failing =
      if options.feature_hooks
      then (do
        tags ← deref suite.gherkin_document.feature_tags
        results ← hooks tags
        pure (failing || is_failing (get_worst_test_step_result P results).status options.dry_run))
      else pure failing

  abbrev pub suite_body : AssembledTestSuite → Bool → M P Bool
  suite_body suite failing = do
    failing' ← run_suite_hooks run_before_test_suite_hooks suite failing
    failed ← run_test_cases suite.test_cases failing' false
    run_suite_hooks run_after_test_suite_hooks suite failing'
    pure (not failed)

  unfoldable pub run_test_suite : AssembledTestSuite → Bool → M P Bool
  run_test_suite suite failing = with_context (suite_body suite failing)
