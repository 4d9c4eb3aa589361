-- ===== src/Runtime/TestCaseRunner/Keeps.antt =====
-- What the hooks and steps of a test case keep, whatever the user's code does.
use amp_cucumber_cpp_runner.Prelude.{String, Bool, List, [], ◌∷◌}
use amp_cucumber_cpp_runner.Messages.{Envelope, PickleStep, TestStep, TestStepResult}
use amp_cucumber_cpp_runner.Platform.{Platform}
use amp_cucumber_cpp_runner.World.{World, broadcast, next_id}
use amp_cucumber_cpp_runner.World.Keeps.{
  IsPreorder, Keeps, keeps_rules, >>=-Keeps, elim_Option-Keeps,
}
use amp_cucumber_cpp_runner.Util.TestStepResult.{TestStepStarted, step_started}
use amp_cucumber_cpp_runner.Util.Body.{Body, no_nested}
use amp_cucumber_cpp_runner.Util.Body.Laws.{AllowsBodies, construct_and_execute-Keeps}
use amp_cucumber_cpp_runner.Support.HookRegistry.{HookDefinition, HookType}
use amp_cucumber_cpp_runner.Runtime.NestedTestCaseRunner
use amp_cucumber_cpp_runner.Runtime.NestedTestCaseRunner.Laws.{step-Keeps}
use amp_cucumber_cpp_runner.Runtime.TestCaseRunner.{
  TestCaseRunner, Progress, invoke_step, invoke_hook, run_hook, run_hook_ids, run_step_hooks,
  run_step_body, run_hooks_and_step, suggest, run_step, run_hook_or_step,
}

-- A relation that a test case's hooks and steps respect in all that is done on their behalf.
pub record AllowsSteps {P : Platform} (R : World P → World P → Type 0) : Type 0 where
  pub bodies : AllowsBodies R
  pub issuing : Keeps R next_id
  pub suggesting : (id step_id : String) → Keeps R (broadcast (Envelope.suggestion id step_id))

module _ {P : Platform} {R : World P → World P → Type 0} (pre : IsPreorder R)
    (allows : AllowsSteps R) (runner : TestCaseRunner P) where
  invoke_step-Keeps :
      (started : TestStepStarted) (body : Body P) → Keeps R (invoke_step runner started body)
  unfolding invoke_step
  invoke_step-Keeps started body = record {
    from =
        construct_and_execute-Keeps pre allows.bodies
          (NestedTestCaseRunner.step P runner.support started runner.depth 1)
          (step-Keeps pre allows.bodies runner.support started runner.depth 1)
          (step_started started) body;
  }

  invoke_hook-Keeps :
      (started : TestStepStarted) (body : Body P) → Keeps R (invoke_hook runner started body)
  unfolding invoke_hook
  invoke_hook-Keeps started body = record {
    from =
        construct_and_execute-Keeps pre allows.bodies no_nested (λ call v. pre.same v)
          (step_started started) body;
  }

  run_hook-Keeps :
      (d : HookDefinition P) (b : Bool) (started : TestStepStarted) (e : Bool)
      (results : List TestStepResult)
      → Keeps R (run_hook runner d b started e results)
  unfolding run_hook
  run_hook-Keeps d b started e results = search (keeps_rules, invoke_hook-Keeps)

  run_hook_ids-Keeps :
      (started : TestStepStarted) (ids : List String) → Keeps R (run_hook_ids runner started ids)
  unfolding run_hook_ids
  run_hook_ids-Keeps started [] = search keeps_rules
  run_hook_ids-Keeps started (id ∷ ids) = >>=-Keeps pre _ _ (search keeps_rules) λ d.
      >>=-Keeps pre _ _ (search (invoke_hook-Keeps))
        λ r. >>=-Keeps pre _ _ (run_hook_ids-Keeps started ids) λ rs. search keeps_rules

  run_step_hooks-Keeps :
      (type : HookType) (started : TestStepStarted) → Keeps R (run_step_hooks runner type started)
  unfolding run_step_hooks
  run_step_hooks-Keeps type started = run_hook_ids-Keeps started _

  run_step_body-Keeps :
      (pickle_step : PickleStep) (test_step : TestStep) (started : TestStepStarted)
      (ids : List String) (before_results : List TestStepResult)
      → Keeps R (run_step_body runner pickle_step test_step started ids before_results)
  unfolding run_step_body
  run_step_body-Keeps pickle_step test_step started ids before_results =
      search (keeps_rules, invoke_step-Keeps) depth 12

  run_hooks_and_step-Keeps :
      (pickle_step : PickleStep) (test_step : TestStep) (started : TestStepStarted)
      (ids : List String)
      → Keeps R (run_hooks_and_step runner pickle_step test_step started ids)
  unfolding run_hooks_and_step
  run_hooks_and_step-Keeps pickle_step test_step started ids =
      search (keeps_rules, run_step_hooks-Keeps, run_step_body-Keeps) depth 9

  suggest-Keeps : (pickle_step : PickleStep) → Keeps R (suggest runner pickle_step)
  unfolding suggest
  suggest-Keeps pickle_step =
      >>=-Keeps pre _ _ allows.issuing
        λ id. >>=-Keeps pre _ _ (search (allows.suggesting)) λ u. search keeps_rules

  run_step-Keeps :
      (pickle_step : PickleStep) (test_step : TestStep) (started : TestStepStarted)
      (results : List TestStepResult)
      → Keeps R (run_step runner pickle_step test_step started results)
  unfolding run_step
  run_step-Keeps pickle_step test_step started results =
      search (keeps_rules, suggest-Keeps, run_hooks_and_step-Keeps) depth 9

  pub run_hook_or_step-Keeps :
      (test_step : TestStep) (started : TestStepStarted) (p : Progress)
      → Keeps R (run_hook_or_step runner test_step started p)
  unfolding run_hook_or_step
  run_hook_or_step-Keeps test_step started p =
      elim_Option-Keeps pre test_step.hook_id _ _ (search (keeps_rules, run_step-Keeps) depth 9)
        (λ hook_id. search (keeps_rules, run_hook-Keeps) depth 9)
