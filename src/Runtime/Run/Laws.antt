-- ===== src/Runtime/Run/Laws.antt =====
-- Whole runs: a dry run, and a run whose first hooks fail.
use amp_cucumber_cpp_runner.Prelude.{◌≡◌, String, Bool, true, false, List, [], ◌∷◌, ℕ, elim_Option}
use amp_cucumber_cpp_runner.Messages.{Pickle, PickleStep}
use amp_cucumber_cpp_runner.Platform.{Platform}
use amp_cucumber_cpp_runner.World.Keeps.{
  Keeps, >>=-Keeps, value-Keeps, pure-Keeps, if-Keeps, catch_all-Keeps,
}
use amp_cucumber_cpp_runner.World.Yields.{
  Yields, Yields→Keeps, Keeps→Yields, >>=-Yields, pure-Yields, throw-Yields,
}
use amp_cucumber_cpp_runner.Support.{SupportCodeLibrary}
use amp_cucumber_cpp_runner.Support.StepRegistry.{StepDefinition}
use amp_cucumber_cpp_runner.Assemble.{
  PickleSource, SuiteMap, AssembledTestSuite, assemble_hooks, assemble_steps, assemble_test_steps,
  assemble_test_case, assemble_sources, assemble_test_suites,
}
use amp_cucumber_cpp_runner.Runtime.TestCaseRunner.{check_repeat}
use amp_cucumber_cpp_runner.Runtime.TestCaseRunner.Skip.{
  SameUser, SameUser-IsPreorder, broadcast-SameUser, next_id-SameUser,
}
use amp_cucumber_cpp_runner.Runtime.Worker.{
  RuntimeOptions, Worker, make_worker, run_before_all_hooks, run_after_all_hooks,
}
use amp_cucumber_cpp_runner.Runtime.Worker.Skip.{run_test_hooks-SameUser, run_test_suite-SameUser}
use amp_cucumber_cpp_runner.Runtime.Run.{
  run_test_suites, assemble_and_run, run_serially, run_adapter, run_coordinator, run_runtime,
}

module _ {P : Platform} (support : SupportCodeLibrary P) where
  assemble_hooks-SameUser : (ids : List String) → Keeps SameUser (assemble_hooks {P = P} ids)
  unfolding assemble_hooks
  assemble_hooks-SameUser [] = pure-Keeps SameUser-IsPreorder _
  assemble_hooks-SameUser (hook_id ∷ ids) = >>=-Keeps SameUser-IsPreorder _ _ next_id-SameUser λ id.
      >>=-Keeps SameUser-IsPreorder _ _ (assemble_hooks-SameUser ids)
        λ rest. pure-Keeps SameUser-IsPreorder _

  assemble_steps-SameUser :
      (definitions : List (StepDefinition P)) (steps : List PickleStep)
      → Keeps SameUser (assemble_steps definitions steps)
  unfolding assemble_steps
  assemble_steps-SameUser definitions [] = pure-Keeps SameUser-IsPreorder _
  assemble_steps-SameUser definitions (s ∷ steps) =
      >>=-Keeps SameUser-IsPreorder _ _ next_id-SameUser λ id.
        >>=-Keeps SameUser-IsPreorder _ _ (assemble_steps-SameUser definitions steps)
          λ rest. pure-Keeps SameUser-IsPreorder _

  assemble_test_case-SameUser :
      (run_id : String) (pickle : Pickle)
      → Keeps SameUser (assemble_test_case support run_id pickle)
  unfolding assemble_test_case assemble_test_steps
  assemble_test_case-SameUser run_id pickle =
      >>=-Keeps SameUser-IsPreorder _ _ next_id-SameUser λ id.
        >>=-Keeps SameUser-IsPreorder _ _
          (>>=-Keeps SameUser-IsPreorder _ _ (assemble_hooks-SameUser _) λ before_steps.
            >>=-Keeps SameUser-IsPreorder _ _ (assemble_steps-SameUser _ _) λ steps.
              >>=-Keeps SameUser-IsPreorder _ _ (assemble_hooks-SameUser _)
                λ after_steps. pure-Keeps SameUser-IsPreorder _)
          λ steps. pure-Keeps SameUser-IsPreorder _

  assemble_sources-SameUser :
      (run_id : String) (sources : List PickleSource) (suites : SuiteMap)
      → Keeps SameUser (assemble_sources support run_id sources suites)
  unfolding assemble_sources
  assemble_sources-SameUser run_id [] suites = pure-Keeps SameUser-IsPreorder suites
  assemble_sources-SameUser run_id (s ∷ sources) suites =
      >>=-Keeps SameUser-IsPreorder _ _ (assemble_test_case-SameUser run_id s.pickle) λ c.
        >>=-Keeps SameUser-IsPreorder _ _ (broadcast-SameUser _) λ u.
          >>=-Keeps SameUser-IsPreorder _ _ (value-Keeps SameUser-IsPreorder _)
            λ uri. assemble_sources-SameUser run_id sources _

module _ {P : Platform} (worker : Worker P) where
  module _ (dry : worker.options.dry_run ≡ true) where
    run_test_suites-SameUser :
        (suites : List AssembledTestSuite) (failing : Bool)
        → Keeps SameUser (run_test_suites worker suites failing)
    unfolding run_test_suites
    run_test_suites-SameUser [] failing = pure-Keeps SameUser-IsPreorder failing
    run_test_suites-SameUser (s ∷ suites) failing =
        >>=-Keeps SameUser-IsPreorder _ _
          (catch_all-Keeps SameUser-IsPreorder _ false
            (run_test_suite-SameUser worker dry s failing))
          λ success. run_test_suites-SameUser suites _

    run_serially-SameUser :
        (sources : List PickleSource) → Keeps SameUser (run_serially worker sources)
    unfolding run_serially assemble_and_run assemble_test_suites run_before_all_hooks
        run_after_all_hooks
    run_serially-SameUser sources =
        >>=-Keeps SameUser-IsPreorder _ _ (run_test_hooks-SameUser worker dry _) λ before_results.
          >>=-Keeps SameUser-IsPreorder _ _
            (if-Keeps SameUser-IsPreorder _ _ _ (pure-Keeps SameUser-IsPreorder true) (
              >>=-Keeps SameUser-IsPreorder _ _
                (>>=-Keeps SameUser-IsPreorder _ _
                  (assemble_sources-SameUser worker.support _ sources [])
                  λ m. pure-Keeps SameUser-IsPreorder _)
                λ suites. run_test_suites-SameUser suites false))
            λ failing.
              >>=-Keeps SameUser-IsPreorder _ _ (run_test_hooks-SameUser worker dry _)
                λ after_results. pure-Keeps SameUser-IsPreorder _

-- A dry run executes no body: of no hook, be it global, of a feature, of a scenario or of a step, and
-- of no step. It leaves the state of the user's own code as it was, whatever it is run on.
pub run_runtime-SameUser :
    {P : Platform} (depth : ℕ) (options : RuntimeOptions P) (support : SupportCodeLibrary P)
    (sources : List PickleSource)
    → options.dry_run ≡ true
    → Keeps SameUser (run_runtime depth options support sources)
unfolding run_runtime run_coordinator run_adapter make_worker
run_runtime-SameUser depth options support sources dry =
    >>=-Keeps SameUser-IsPreorder _ _ next_id-SameUser λ run_id.
      >>=-Keeps SameUser-IsPreorder _ _ (broadcast-SameUser _) λ u.
        >>=-Keeps SameUser-IsPreorder _ _
          (Yields→Keeps (λ b. Unit) _
            (>>=-Yields SameUser-IsPreorder (λ (worker : Worker _). worker.options.dry_run ≡ true)
              (λ b. Unit) _ _
              (elim_Option (Yields SameUser (λ (worker : Worker _). worker.options.dry_run ≡ true))
                (check_repeat options.retry options.repeat) _ _
                (pure-Yields SameUser-IsPreorder _ _ dry) λ e. throw-Yields SameUser-IsPreorder _ e)
              λ worker dry'. Keeps→Yields _ (run_serially-SameUser worker dry' sources)))
          λ success.
            >>=-Keeps SameUser-IsPreorder _ _ (broadcast-SameUser _)
              λ v. pure-Keeps SameUser-IsPreorder success
