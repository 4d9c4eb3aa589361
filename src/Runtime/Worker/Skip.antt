-- ===== src/Runtime/Worker/Skip.antt =====
-- Dry runs, and runs that are to fail fast, by a worker (cucumber_cpp/library/runtime/Worker.cpp).
use amp_cucumber_cpp_runner.Prelude.{
  ◌≡◌, refl, String, Bool, true, false, ◌&&◌, ◌||◌, Option, List, [], ◌∷◌, elim_Option, arith,
  if◌then◌else◌,
}
use amp_cucumber_cpp_runner.Messages.{Pickle, TestStepResult}
use amp_cucumber_cpp_runner.Platform.{Platform}
use amp_cucumber_cpp_runner.World.{M}
use amp_cucumber_cpp_runner.World.Keeps.{
  Keeps, >>=-Keeps, at-Keeps, deref-Keeps, pure-Keeps, if-Keeps,
}
use amp_cucumber_cpp_runner.World.Yields.{
  Yields, Yields→Keeps, >>=-Yields, pure-Yields, throw-Yields, Keeps→Yields,
}
use amp_cucumber_cpp_runner.Assemble.{AssembledTestCase, AssembledTestSuite}
use amp_cucumber_cpp_runner.Runtime.TestCaseRunner.{
  TestCaseRunner, make_test_case_runner, check_repeat,
}
use amp_cucumber_cpp_runner.Runtime.TestCaseRunner.Skip.{
  SameUser, SameUser-IsPreorder, broadcast-SameUser, next_id-SameUser, with_context-SameUser,
  run-SameUser,
}
use amp_cucumber_cpp_runner.Runtime.Worker.{
  Worker, retries_for_pickle, run_test_hook, run_test_hooks, run_before_test_suite_hooks,
  run_after_test_suite_hooks, run_suite_hooks, run_test_case, run_test_cases, run_test_suite,
}

module _ {P : Platform} (worker : Worker P) where
  open worker use {options, depth, support}

  retries_for_pickle-SameUser : (p : Pickle) → Keeps SameUser (retries_for_pickle p options)
  unfolding retries_for_pickle
  retries_for_pickle-SameUser p =
      if-Keeps SameUser-IsPreorder _ _ _ (pure-Keeps SameUser-IsPreorder _) (
        >>=-Keeps SameUser-IsPreorder _ _ (deref-Keeps SameUser-IsPreorder _)
          λ e. pure-Keeps SameUser-IsPreorder _)

  -- The runner that is made has the flag that it is given.
  make-Skips :
      (c : AssembledTestCase) (retries : _) (skip : Bool) (repeat : Option _)
      → skip ≡ true
      → Yields SameUser
          (λ runner. TestCaseRunner.skip runner ≡ true)
          (make_test_case_runner depth c.pickle c.test_case retries skip support repeat)
  unfolding make_test_case_runner
  make-Skips c retries skip repeat h =
      elim_Option (Yields SameUser (λ runner. runner.skip ≡ true)) (check_repeat retries repeat) _ _
        (pure-Yields SameUser-IsPreorder _ _ h) λ e. throw-Yields SameUser-IsPreorder _ e

  run_test_case-SameUser :
      (c : AssembledTestCase) (failing : Bool)
      → (options.dry_run || (options.fail_fast && failing)) ≡ true
      → Keeps SameUser (run_test_case worker c failing)
  unfolding run_test_case
  run_test_case-SameUser c failing h =
      >>=-Keeps SameUser-IsPreorder _ _ (retries_for_pickle-SameUser c.pickle) λ retries.
        Yields→Keeps _ _ (
          >>=-Yields SameUser-IsPreorder _ (λ b. Unit) _ _ (make-Skips c retries _ _ h)
            λ runner skips. Keeps→Yields _ (
              >>=-Keeps SameUser-IsPreorder _ _ (run-SameUser runner skips)
                λ status. pure-Keeps SameUser-IsPreorder _))

  -- In a dry run, and in a run that fails fast where something has failed before the suite or a test
  -- case of it before these, the test cases of a suite execute no body, and leave the user's state
  -- alone.
  pub run_test_cases-SameUser :
      (cases : List AssembledTestCase) (failing failed : Bool)
      → (options.dry_run || (options.fail_fast && (failed || failing))) ≡ true
      → Keeps SameUser (run_test_cases worker cases failing failed)
  unfolding run_test_cases
  run_test_cases-SameUser [] failing failed h = pure-Keeps SameUser-IsPreorder failed
  run_test_cases-SameUser (c ∷ cases) failing failed h =
      >>=-Keeps SameUser-IsPreorder _ _ (run_test_case-SameUser c (failed || failing) h)
        λ success. run_test_cases-SameUser cases failing _ (ground arith)

  module _ (dry : options.dry_run ≡ true) where
    run_test_hook-SameUser : (id : String) → Keeps SameUser (run_test_hook worker id)
    unfolding run_test_hook
    run_test_hook-SameUser id =
        >>=-Keeps SameUser-IsPreorder _ _ (at-Keeps SameUser-IsPreorder _) λ d.
          >>=-Keeps SameUser-IsPreorder _ _ next_id-SameUser λ started_id.
            >>=-Keeps SameUser-IsPreorder _ _ (broadcast-SameUser _) λ u.
              >>=-Keeps SameUser-IsPreorder _ _
                (if_true _ _ _ dry (pure-Keeps SameUser-IsPreorder _))
                λ result.
                  >>=-Keeps SameUser-IsPreorder _ _ (broadcast-SameUser _)
                    λ v. pure-Keeps SameUser-IsPreorder result
      where
        if_true :
            (b : Bool) (m k : M P TestStepResult)
            → b ≡ true
            → Keeps SameUser m
            → Keeps SameUser (if b then m else k)
        if_true b m k e q = rw e q

    pub run_test_hooks-SameUser : (ids : List String) → Keeps SameUser (run_test_hooks worker ids)
    unfolding run_test_hooks
    run_test_hooks-SameUser [] = pure-Keeps SameUser-IsPreorder _
    run_test_hooks-SameUser (id ∷ ids) =
        >>=-Keeps SameUser-IsPreorder _ _ (run_test_hook-SameUser id) λ r.
          >>=-Keeps SameUser-IsPreorder _ _ (run_test_hooks-SameUser ids)
            λ rs. pure-Keeps SameUser-IsPreorder _

    run_suite_hooks-SameUser :
        (hooks : List String → M P (List TestStepResult)) (suite : AssembledTestSuite)
        (failing : Bool)
        → ((tags : List String) → Keeps SameUser (hooks tags))
        → Keeps SameUser (run_suite_hooks worker hooks suite failing)
    run_suite_hooks-SameUser hooks suite failing h =
        if-Keeps SameUser-IsPreorder _ _ _
          (>>=-Keeps SameUser-IsPreorder _ _ (deref-Keeps SameUser-IsPreorder _) λ tags.
            >>=-Keeps SameUser-IsPreorder _ _ (h tags) λ results. pure-Keeps SameUser-IsPreorder _)
          (pure-Keeps SameUser-IsPreorder _)

    pub run_test_suite-SameUser :
        (suite : AssembledTestSuite) (failing : Bool)
        → Keeps SameUser (run_test_suite worker suite failing)
    unfolding run_test_suite run_before_test_suite_hooks run_after_test_suite_hooks
    run_test_suite-SameUser suite failing = with_context-SameUser _ (
        >>=-Keeps SameUser-IsPreorder _ _
          (run_suite_hooks-SameUser _ suite failing λ tags. run_test_hooks-SameUser _)
          λ failing'.
            >>=-Keeps SameUser-IsPreorder _ _
              (run_test_cases-SameUser suite.test_cases failing' false (rw dry refl))
              λ failed.
                >>=-Keeps SameUser-IsPreorder _ _
                  (run_suite_hooks-SameUser _ suite failing' λ tags. run_test_hooks-SameUser _)
                  λ b. pure-Keeps SameUser-IsPreorder _)
