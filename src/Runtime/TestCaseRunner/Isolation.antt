-- ===== src/Runtime/TestCaseRunner/Isolation.antt =====
-- A test case's run and the contexts round it.
use amp_cucumber_cpp_runner.Prelude.{elim_Bool, ℕ, zero, suc, ◌+◌, String, Bool, List, [], ◌∷◌}
use amp_cucumber_cpp_runner.Messages.{TestStep, TestStepResult}
use amp_cucumber_cpp_runner.Platform.{Platform}
use amp_cucumber_cpp_runner.World.Keeps.{Keeps, >>=-Keeps, pure-Keeps}
use amp_cucumber_cpp_runner.World.Isolation.{
  SameParent, SameContext, SameParent-IsPreorder, SameContext-IsPreorder, SameParent-AllowsBodies,
  broadcast-SameParent, next_id-SameParent, with_context-SameContext,
}
use amp_cucumber_cpp_runner.Runtime.TestCaseRunner.{TestCaseRunner, Progress}
use amp_cucumber_cpp_runner.Runtime.TestCaseRunner.Attempts.{
  run_test_step, run_test_steps, run_attempt, run_attempts, run,
}
use amp_cucumber_cpp_runner.Runtime.TestCaseRunner.Keeps.{AllowsSteps, run_hook_or_step-Keeps}

SameParent-AllowsSteps : {P : Platform} → AllowsSteps (SameParent {P = P})
SameParent-AllowsSteps = record {
  bodies = SameParent-AllowsBodies;
  issuing = next_id-SameParent;
  suggesting = λ id step_id. broadcast-SameParent _;
}

module _ {P : Platform} (runner : TestCaseRunner P) where
  run_test_step-SameParent :
      (id : String) (s : TestStep) (p : Progress) → Keeps SameParent (run_test_step runner id s p)
  unfolding run_test_step
  run_test_step-SameParent id s p =
      >>=-Keeps SameParent-IsPreorder _ _ (broadcast-SameParent _) λ u.
        >>=-Keeps SameParent-IsPreorder _ _
          (run_hook_or_step-Keeps SameParent-IsPreorder SameParent-AllowsSteps runner s _ p)
          λ p'.
            >>=-Keeps SameParent-IsPreorder _ _ (broadcast-SameParent _)
              λ v. pure-Keeps SameParent-IsPreorder p'

  run_test_steps-SameParent :
      (id : String) (steps : List TestStep) (p : Progress)
      → Keeps SameParent (run_test_steps runner id steps p)
  unfolding run_test_steps
  run_test_steps-SameParent id [] p = pure-Keeps SameParent-IsPreorder p
  run_test_steps-SameParent id (s ∷ steps) p =
      >>=-Keeps SameParent-IsPreorder _ _ (run_test_step-SameParent id s p)
        λ p'. run_test_steps-SameParent id steps p'

  run_attempt-SameContext :
      (attempt : ℕ) (more : Bool) → Keeps SameContext (run_attempt runner attempt more)
  unfolding run_attempt
  run_attempt-SameContext attempt more = with_context-SameContext _ (
      >>=-Keeps SameParent-IsPreorder _ _ next_id-SameParent λ id.
        >>=-Keeps SameParent-IsPreorder _ _ (broadcast-SameParent _) λ u.
          >>=-Keeps SameParent-IsPreorder _ _ (run_test_steps-SameParent id _ _) λ p.
            >>=-Keeps SameParent-IsPreorder _ _ (broadcast-SameParent _)
              λ v. pure-Keeps SameParent-IsPreorder _)

  run_attempts-SameContext :
      (left attempt : ℕ) (overall : TestStepResult)
      → Keeps SameContext (run_attempts runner left attempt overall)
  unfolding run_attempts
  run_attempts-SameContext zero attempt overall = pure-Keeps SameContext-IsPreorder _
  run_attempts-SameContext (suc left) attempt overall =
      >>=-Keeps SameContext-IsPreorder _ _ (run_attempt-SameContext attempt _) λ a.
        elim_Bool (Keeps SameContext) a.will_retry _ _
          (run_attempts-SameContext left (attempt + 1) _) (pure-Keeps SameContext-IsPreorder _)

  -- Whatever the bodies of its hooks and steps do, in any attempt, the run of a test case leaves
  -- the context that it is given, its own entries and all that enclose it, as it was.
  pub run-SameContext : Keeps SameContext (run runner)
  unfolding run
  run-SameContext = run_attempts-SameContext _ 0 _
