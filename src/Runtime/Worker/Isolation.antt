-- ===== src/Runtime/Worker/Isolation.antt =====
-- A suite's run and the contexts round it.
use amp_cucumber_cpp_runner.Prelude.{String, Bool, true, false, if◌then◌else◌, List, [], ◌∷◌}
use amp_cucumber_cpp_runner.Messages.{TestStepResult}
use amp_cucumber_cpp_runner.Platform.{Platform}
use amp_cucumber_cpp_runner.World.{World, M, Result}
use amp_cucumber_cpp_runner.World.Keeps.{
  Keeps, >>=-Keeps, at-Keeps, deref-Keeps, pure-Keeps, if-Keeps, throw-Keeps, elim_Option-Keeps,
}
use amp_cucumber_cpp_runner.World.Isolation.{
  SameParent, SameContext, SameParent-IsPreorder, SameContext-IsPreorder, SameParent-AllowsBodies,
  broadcast-SameParent, next_id-SameParent, with_context-SameContext, SameContext→SameParent,
}
use amp_cucumber_cpp_runner.Util.Body.{Body, no_nested}
use amp_cucumber_cpp_runner.Util.Body.Laws.{construct_and_execute-Keeps}
use amp_cucumber_cpp_runner.Assemble.{AssembledTestCase, AssembledTestSuite}
use amp_cucumber_cpp_runner.Runtime.TestCaseRunner.{make_test_case_runner}
use amp_cucumber_cpp_runner.Runtime.TestCaseRunner.Isolation.{run-SameContext}
use amp_cucumber_cpp_runner.Runtime.Worker.{
  Worker, retries_for_pickle, invoke_test_hook, run_test_hook, run_test_hooks, run_suite_hooks,
  run_before_test_suite_hooks, run_after_test_suite_hooks, run_test_case, run_test_cases,
  run_test_suite,
}

module _ {P : Platform} (worker : Worker P) where
  invoke_test_hook-SameParent :
      (id : String) (body : Body P) → Keeps SameParent (invoke_test_hook worker id body)
  unfolding invoke_test_hook
  invoke_test_hook-SameParent id body = record {
    from = λ w. same_state _ _ _ w _ (
        construct_and_execute-Keeps SameParent-IsPreorder SameParent-AllowsBodies no_nested
          (λ call v. SameParent-IsPreorder.same v) _ body w);
  }
    where
      same_state :
          (b : Bool) (x y : Result TestStepResult) (w v : World P)
          → SameParent w v
          → SameParent w (if◌then◌else◌ {A = Result TestStepResult × World P} b (x, v) (y, v)).1
      same_state true x y w v h = h
      same_state false x y w v h = h

  run_test_hook-SameParent : (id : String) → Keeps SameParent (run_test_hook worker id)
  unfolding run_test_hook
  run_test_hook-SameParent id =
      >>=-Keeps SameParent-IsPreorder _ _ (at-Keeps SameParent-IsPreorder _) λ d.
        >>=-Keeps SameParent-IsPreorder _ _ next_id-SameParent λ started_id.
          >>=-Keeps SameParent-IsPreorder _ _ (broadcast-SameParent _) λ u.
            >>=-Keeps SameParent-IsPreorder _ _
              (if-Keeps SameParent-IsPreorder _ _ _ (pure-Keeps SameParent-IsPreorder _)
                (invoke_test_hook-SameParent started_id _))
              λ result.
                >>=-Keeps SameParent-IsPreorder _ _ (broadcast-SameParent _)
                  λ v. pure-Keeps SameParent-IsPreorder result

  run_test_hooks-SameParent : (ids : List String) → Keeps SameParent (run_test_hooks worker ids)
  unfolding run_test_hooks
  run_test_hooks-SameParent [] = pure-Keeps SameParent-IsPreorder _
  run_test_hooks-SameParent (id ∷ ids) =
      >>=-Keeps SameParent-IsPreorder _ _ (run_test_hook-SameParent id) λ r.
        >>=-Keeps SameParent-IsPreorder _ _ (run_test_hooks-SameParent ids)
          λ rs. pure-Keeps SameParent-IsPreorder _

  run_test_case-SameContext :
      (c : AssembledTestCase) (failing : Bool) → Keeps SameContext (run_test_case worker c failing)
  unfolding run_test_case retries_for_pickle make_test_case_runner
  run_test_case-SameContext c failing =
      >>=-Keeps SameContext-IsPreorder _ _
        (if-Keeps SameContext-IsPreorder _ _ _ (pure-Keeps SameContext-IsPreorder _) (
          >>=-Keeps SameContext-IsPreorder _ _ (deref-Keeps SameContext-IsPreorder _)
            λ e. pure-Keeps SameContext-IsPreorder _))
        λ retries.
          >>=-Keeps SameContext-IsPreorder _ _
            (elim_Option-Keeps SameContext-IsPreorder _ _ _ (pure-Keeps SameContext-IsPreorder _)
              λ e. throw-Keeps SameContext-IsPreorder e)
            λ runner.
              >>=-Keeps SameContext-IsPreorder _ _ (run-SameContext runner)
                λ status. pure-Keeps SameContext-IsPreorder _

  run_test_cases-SameContext :
      (cases : List AssembledTestCase) (failing failed : Bool)
      → Keeps SameContext (run_test_cases worker cases failing failed)
  unfolding run_test_cases
  run_test_cases-SameContext [] failing failed = pure-Keeps SameContext-IsPreorder failed
  run_test_cases-SameContext (c ∷ cases) failing failed =
      >>=-Keeps SameContext-IsPreorder _ _ (run_test_case-SameContext c _)
        λ success. run_test_cases-SameContext cases failing _

  run_suite_hooks-SameParent :
      (hooks : List String → M P (List TestStepResult)) (suite : AssembledTestSuite)
      (failing : Bool)
      → ((tags : List String) → Keeps SameParent (hooks tags))
      → Keeps SameParent (run_suite_hooks worker hooks suite failing)
  run_suite_hooks-SameParent hooks suite failing h =
      if-Keeps SameParent-IsPreorder _ _ _
        (>>=-Keeps SameParent-IsPreorder _ _ (deref-Keeps SameParent-IsPreorder _) λ tags.
          >>=-Keeps SameParent-IsPreorder _ _ (h tags)
            λ results. pure-Keeps SameParent-IsPreorder _)
        (pure-Keeps SameParent-IsPreorder _)

  -- Whatever the bodies of its hooks and of its test cases do, the run of a suite leaves the context
  -- that it is given as it was, however it ends.
  pub run_test_suite-SameContext :
      (suite : AssembledTestSuite) (failing : Bool)
      → Keeps SameContext (run_test_suite worker suite failing)
  unfolding run_test_suite run_before_test_suite_hooks run_after_test_suite_hooks
  run_test_suite-SameContext suite failing = with_context-SameContext _ (
      >>=-Keeps SameParent-IsPreorder _ _
        (run_suite_hooks-SameParent _ suite failing λ tags. run_test_hooks-SameParent _)
        λ failing'.
          >>=-Keeps SameParent-IsPreorder _ _
            (SameContext→SameParent _ (run_test_cases-SameContext suite.test_cases failing' false))
            λ failed.
              >>=-Keeps SameParent-IsPreorder _ _
                (run_suite_hooks-SameParent _ suite failing' λ tags. run_test_hooks-SameParent _)
                λ b. pure-Keeps SameParent-IsPreorder _)
