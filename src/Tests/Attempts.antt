-- ===== src/Tests/Attempts.antt =====
-- Runs of a test case, after cucumber_cpp/library/runtime/test/TestCaseRunner.cpp.
use amp_cucumber_cpp_runner.Prelude.{ℕ, ◌≡◌, refl, Bool, false, Option, none, some, [], ◌∷◌}
use amp_cucumber_cpp_runner.Messages.{Status, Pickle, TestCase}
use amp_cucumber_cpp_runner.World.{ok, M, ◌>>=◌, with_context, next_id, broadcast}
use amp_cucumber_cpp_runner.Assemble.{hook_step}
use amp_cucumber_cpp_runner.Util.Worst.{get_worst_test_step_result}
use amp_cucumber_cpp_runner.Util.Body.{construct_and_execute}
use amp_cucumber_cpp_runner.Support.HookRegistry
use amp_cucumber_cpp_runner.Runtime.TestCaseRunner.{
  make_test_case_runner, run_hook, run_hook_or_step, run_step, get_worst_step_result, invoke_hook,
}
use amp_cucumber_cpp_runner.Runtime.TestCaseRunner.Attempts.{
  run, run_attempts, run_attempt, run_test_steps, run_test_step,
}
use amp_cucumber_cpp_runner.Tests.Sample.{plain, world, support}

abbrev pickle : Pickle
pickle = record { id = "p"; uri = "f"; name = "scenario"; steps = []; tags = []; line = none }

abbrev test_case : TestCase
test_case = record {
  id = "test-case";
  pickle_id = "p";
  test_run_started_id = none;
  test_steps = hook_step "hook" "step" ∷ [];
}

-- A run of the whole runner, opened to its last definition
unfoldable pub run_hook_case : ℕ → Option ℕ → Bool → M plain Status
unfolding make_test_case_runner run run_attempts run_attempt with_context next_id broadcast
    run_test_steps run_test_step run_step run_hook_or_step HookRegistry.get_definition_by_id
    run_hook get_worst_step_result invoke_hook get_worst_test_step_result construct_and_execute
    ◌>>=◌
run_hook_case retries repeat skip =
    make_test_case_runner 3 pickle test_case retries skip support repeat >>= λ runner. run runner

-- A failure stays in the result of a repeated test case.
repeat_retains_failure : (run_hook_case 0 (some 3) false world).0 ≡ ok Status.failed
unfolding run_hook_case
repeat_retains_failure = refl
