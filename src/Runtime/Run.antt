-- ===== src/Runtime/Run.antt =====
-- A whole run: `SerialRuntimeAdapter::Run` (cucumber_cpp/library/runtime/SerialRuntimeAdapter.cpp),
-- `Coordinator::Run` (cucumber_cpp/library/runtime/Coordinator.cpp) and `MakeRuntime`
-- (cucumber_cpp/library/runtime/MakeRuntime.cpp).
pub mod Laws
use amp_cucumber_cpp_runner.Prelude.{
  ℕ, String, Bool, true, false, not, ◌||◌, List, [], ◌∷◌, if◌then◌else◌,
}
use amp_cucumber_cpp_runner.Messages.{Envelope}
use amp_cucumber_cpp_runner.Platform.{Platform}
use amp_cucumber_cpp_runner.World.{M, pure, catch_all, ◌>>=◌, ◌>>◌, broadcast, next_id}
use amp_cucumber_cpp_runner.Util.Worst.{get_worst_test_step_result}
use amp_cucumber_cpp_runner.Support.{SupportCodeLibrary}
use amp_cucumber_cpp_runner.Assemble.{PickleSource, AssembledTestSuite, assemble_test_suites}
use amp_cucumber_cpp_runner.Runtime.Worker.{
  RuntimeOptions, Worker, make_worker, is_failing, run_before_all_hooks, run_after_all_hooks,
  run_test_suite,
}

module _ {P : Platform} (worker : Worker P) where
  -- The loop over the suites, on `failing`. A suite that throws counts as failing.
  unfoldable pub run_test_suites : List AssembledTestSuite → Bool → M P Bool
  run_test_suites [] failing = pure failing
  run_test_suites (s ∷ suites) failing = do
    success ← catch_all (run_test_suite worker s failing) false
    run_test_suites suites (failing || not success)

  -- The suites, unless a hook before them failed
  unfoldable pub assemble_and_run : List PickleSource → Bool → M P Bool
  assemble_and_run sources failing = if failing then pure true else do
    suites ← assemble_test_suites worker.support worker.test_run_started_id sources
    run_test_suites suites false

  unfoldable pub run_serially : List PickleSource → M P Bool
  run_serially sources = do
    before_results ← run_before_all_hooks worker
    failing ←
        assemble_and_run sources
          (is_failing (get_worst_test_step_result P before_results).status worker.options.dry_run)
    after_results ← run_after_all_hooks worker
    pure (
        not (
          failing
          || is_failing (get_worst_test_step_result P after_results).status worker.options.dry_run))

module _ {P : Platform} (depth : ℕ) (options : RuntimeOptions P)
    (support : SupportCodeLibrary P) where
  -- `SerialRuntimeAdapter::Run`
  unfoldable pub run_adapter : String → List PickleSource → M P Bool
  run_adapter run_id sources = do
    worker ← make_worker depth run_id options support
    run_serially worker sources

  -- `Coordinator::Run`
  unfoldable pub run_coordinator : String → List PickleSource → M P Bool
  run_coordinator run_id sources = do
    broadcast (Envelope.test_run_started run_id)
    success ← run_adapter run_id sources
    broadcast (Envelope.test_run_finished run_id success)
    pure success

  -- `MakeRuntime`, and the run of what it makes
  unfoldable pub run_runtime : List PickleSource → M P Bool
  run_runtime sources = do run_id ← next_id; run_coordinator run_id sources
