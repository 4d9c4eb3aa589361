-- ===== src/Tests/Witnesses.antt =====
-- The theorems about runs at concrete inputs: a suite over the sample platform.
use amp_cucumber_cpp_runner.Prelude.{
  ℕ, ◌≡◌, refl, ◌∷◌, [], ◌++◌, List, map, reverse, Bool, true, false, none, some, All, arith,
}
use amp_cucumber_cpp_runner.Messages.{GherkinDocument, Pickle, PickleStep, TestStep, TestCase}
use amp_cucumber_cpp_runner.World.Keeps.{Keeps}
use amp_cucumber_cpp_runner.World.Returns.{Returns, Succeeds}
use amp_cucumber_cpp_runner.Runtime.Worker.{run_test_case}
use amp_cucumber_cpp_runner.Runtime.Worker.Total.{IsValid, run_test_case-Succeeds}
use amp_cucumber_cpp_runner.World.Isolation.{SameContext}
use amp_cucumber_cpp_runner.Support.HookRegistry
use amp_cucumber_cpp_runner.Support.HookRegistry.{before, after, before_all, find_ids}
use amp_cucumber_cpp_runner.Support.StepRegistry
use amp_cucumber_cpp_runner.Support.StepRegistry.{load_steps}
use amp_cucumber_cpp_runner.Support.StepRegistry.Laws.{
  Holds, IsConsistent, IsIndexed, load_steps-IsConsistent, load_steps-IsIndexed,
}
use amp_cucumber_cpp_runner.Assemble.{
  hook_step, PickleSource, AssembledTestCase, assemble_test_case,
}
use amp_cucumber_cpp_runner.Assemble.Laws.{
  Assembled, hook_outline, step_outline, assemble_test_case-Assembled,
}
use amp_cucumber_cpp_runner.Runtime.TestCaseRunner.{TestCaseRunner, find_pickle_step}
use amp_cucumber_cpp_runner.Runtime.TestCaseRunner.Attempts.{run}
use amp_cucumber_cpp_runner.Runtime.TestCaseRunner.Total
use amp_cucumber_cpp_runner.Runtime.TestCaseRunner.Total.{IsRunnable}
use amp_cucumber_cpp_runner.Runtime.TestCaseRunner.Retries.{Ran, run-Ran}
use amp_cucumber_cpp_runner.Runtime.TestCaseRunner.Isolation.{run-SameContext}
use amp_cucumber_cpp_runner.Runtime.TestCaseRunner.Skip.{SameUser}
use amp_cucumber_cpp_runner.Runtime.Worker.{RuntimeOptions, Worker, run_test_cases, run_test_suite}
use amp_cucumber_cpp_runner.Runtime.Worker.Skip.{run_test_cases-SameUser}
use amp_cucumber_cpp_runner.Runtime.Worker.Isolation.{run_test_suite-SameContext}
use amp_cucumber_cpp_runner.Runtime.Run.{run_runtime}
use amp_cucumber_cpp_runner.Runtime.Run.Laws.{run_runtime-SameUser}
use amp_cucumber_cpp_runner.Tests.Sample.{loaded_steps, plain, world, support, entries, no_steps}
use amp_cucumber_cpp_runner.Runtime.TestCaseRunner.Severity.{Grown}
use amp_cucumber_cpp_runner.Runtime.TestCaseRunner.Retained.{run-Grown}

abbrev good_step : PickleStep
good_step = record { id = "ps"; text = "a good step"; data_table = none; doc_string = none }

abbrev pickle : Pickle
pickle = record {
  id = "p";
  uri = "f";
  name = "scenario";
  steps = good_step ∷ [];
  tags = [];
  line = none;
}

abbrev test_step : TestStep
test_step = record {
  id = "s1";
  hook_id = none;
  pickle_step_id = some "ps";
  step_definition_ids = some ("good" ∷ []);
  step_match_arguments_lists = some ([] ∷ []);
}

abbrev test_case : TestCase
test_case = record {
  id = "c";
  pickle_id = "p";
  test_run_started_id = none;
  test_steps = hook_step "hook" "s0" ∷ test_step ∷ [];
}

abbrev runner_of : ℕ → Bool → Bool → TestCaseRunner plain
runner_of maximum repeat skip = record {
  pickle = pickle;
  test_case = test_case;
  maximum_attempts = maximum;
  repeat = repeat;
  skip = skip;
  support = support;
  depth = 3;
}

test_steps-IsRunnable : All (IsRunnable support pickle) test_case.test_steps
unfolding load_steps StepRegistry.get_definition_by_id HookRegistry.get_definition_by_id
    find_pickle_step
test_steps-IsRunnable = (
  Total.hook "hook" refl (_, refl),
  (
    Total.step "ps" good_step ("good" ∷ []) ([] ∷ []) refl refl refl refl refl
        (Total.defined "good" [] _ refl),
    tt,
  ),
)

run-Ran_example :
    Returns (Ran (runner_of 3 false false) [] 3 0) (run (runner_of 3 false false) world)
run-Ran_example = run-Ran (runner_of 3 false false) world test_steps-IsRunnable (omega arith)

run-SameContext_example : Keeps SameContext (run (runner_of 2 true false))
run-SameContext_example = run-SameContext (runner_of 2 true false)

entries-IsConsistent : IsConsistent loaded_steps
unfolding load_steps
entries-IsConsistent = load_steps-IsConsistent entries no_steps tt

load_steps-IsIndexed_example : Holds IsIndexed (load_steps entries no_steps)
unfolding StepRegistry.get_definition_by_id
load_steps-IsIndexed_example = load_steps-IsIndexed entries no_steps (λ id. refl)

assemble_test_case-Assembled_example :
    Returns
      (λ c v.
        Assembled support pickle
          (map hook_outline (find_ids before [] support.hook_registry)
            ++ (map step_outline (good_step ∷ [])
                ++ map hook_outline (reverse (find_ids after [] support.hook_registry))))
          c.test_steps
          v
        × (c.pickle_id ≡ "p")
        × (c.test_run_started_id ≡ some "run"))
      (assemble_test_case support "run" pickle world)
assemble_test_case-Assembled_example =
    assemble_test_case-Assembled support "run" pickle world entries-IsConsistent

abbrev options_of : (dry_run fail_fast : Bool) → RuntimeOptions plain
options_of dry_run fail_fast = record {
  dry_run = dry_run;
  fail_fast = fail_fast;
  fail_global_hook_fast = false;
  retry = 0;
  strict = true;
  retry_tag_expression = none;
  feature_hooks = true;
  repeat = none;
  repeat_tag_expression = none;
}

abbrev worker_of : Bool → Worker plain
worker_of fail_fast = record {
  test_run_started_id = "run";
  options = options_of false fail_fast;
  support = support;
  depth = 3;
}

abbrev document : GherkinDocument
document = record { uri = some "f"; feature_tags = some [] }

abbrev sources : List PickleSource
sources = record { pickle = pickle; gherkin_document = document } ∷ []

abbrev cases : List AssembledTestCase
cases = record { pickle = pickle; test_case = test_case } ∷ []

run_test_cases-SameUser_example : Keeps SameUser (run_test_cases (worker_of true) cases false true)
run_test_cases-SameUser_example = run_test_cases-SameUser (worker_of true) cases false true refl

run_test_suite-SameContext_example : Keeps SameContext (
    run_test_suite
      (worker_of false)
      (record { gherkin_document = document; test_cases = cases })
      false)
run_test_suite-SameContext_example =
    run_test_suite-SameContext (worker_of false)
      (record { gherkin_document = document; test_cases = cases }) false

run_runtime-SameUser_example :
    Keeps SameUser (run_runtime 3 (options_of true false) support sources)
run_runtime-SameUser_example = run_runtime-SameUser 3 (options_of true false) support sources refl

-- Options of two retries for every pickle, and of no repetition.
abbrev retrying_worker : Worker plain
retrying_worker = record (worker_of true) {
  options = record (options_of false true) { retry = 2; retry_tag_expression = some none };
}

retrying-IsValid : IsValid retrying_worker.options
retrying-IsValid = record {
  accepted = refl;
  retry_tags = none;
  retry_tags-eq = refl;
  retry-lt = omega arith;
}

run_test_case-Succeeds_example :
    Succeeds
      (run_test_case retrying_worker (record { pickle = pickle; test_case = test_case }) false)
run_test_case-Succeeds_example =
    run_test_case-Succeeds retrying_worker retrying-IsValid
      (record { pickle = pickle; test_case = test_case }) false test_steps-IsRunnable

run-Grown_example :
    Returns
      (λ status v. Grown plain (plain.underlying status) world v)
      (run (runner_of 3 true false) world)
run-Grown_example =
    run-Grown (runner_of 3 true false) world refl test_steps-IsRunnable (omega arith)
