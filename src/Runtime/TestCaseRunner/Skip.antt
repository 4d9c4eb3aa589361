-- ===== src/Runtime/TestCaseRunner/Skip.antt =====
-- Test cases that are to be skipped (cucumber_cpp/library/runtime/TestCaseRunner.cpp).
use amp_cucumber_cpp_runner.Prelude.{
  ℕ, zero, suc, ◌+◌, ◌≡◌, refl, ◌∙◌, String, Bool, true, false, List, [], ◌∷◌, All, All-append,
  elim_Option, elim_Bool, if◌then◌else◌,
}
use amp_cucumber_cpp_runner.Messages.{Envelope, TestStepResult, TestStep, PickleStep, is_passed}
use amp_cucumber_cpp_runner.Platform.{Platform}
use amp_cucumber_cpp_runner.Context.{enter}
use amp_cucumber_cpp_runner.World.{World, M, broadcast, next_id, with_context}
use amp_cucumber_cpp_runner.World.Keeps.{
  IsPreorder, Keeps, >>=-Keeps, at-Keeps, value-Keeps, deref-Keeps, pure-Keeps,
}
use amp_cucumber_cpp_runner.World.Yields.{
  Yields, Yields→Keeps, if-Yields, pure-Yields, >>=-Yields, >>-Yields,
}
use amp_cucumber_cpp_runner.Util.TestStepResult.{TestStepStarted}
use amp_cucumber_cpp_runner.Util.Worst.Laws.{IsFirstWorst, here, later, get_worst-IsFirstWorst}
use amp_cucumber_cpp_runner.Support.HookRegistry.{HookDefinition}
use amp_cucumber_cpp_runner.Runtime.TestCaseRunner.{
  TestCaseRunner, Progress, no_progress, get_worst_step_result, is_skipping_steps, run_hook,
  suggest, run_step, run_hook_or_step,
}
use amp_cucumber_cpp_runner.Runtime.TestCaseRunner.Attempts.{
  run_test_step, run_test_steps, run_attempt, run_attempts, run,
}

module _ {P : Platform} where
  -- The user's state is the same, and so is the number of bodies that have been executed, each of
  -- which has been measured once.
  abbrev pub SameUser : World P → World P → Type 0
  SameUser w v = (v.user ≡ w.user) × (v.measured ≡ w.measured)

  pub SameUser-IsPreorder : IsPreorder SameUser
  SameUser-IsPreorder = record {
    same = λ w. (refl, refl);
    trans = λ u v w p q. (q.0 ∙ p.0, q.1 ∙ p.1);
  }

  pub broadcast-SameUser : (e : Envelope) → Keeps SameUser (broadcast {P = P} e)
  unfolding broadcast
  broadcast-SameUser e = record { from = λ w. (refl, refl) }

  pub next_id-SameUser : Keeps SameUser (next_id {P = P})
  unfolding next_id
  next_id-SameUser = record { from = λ w. (refl, refl) }

  pub with_context-SameUser :
      {A : Type 0} (m : M P A) → Keeps SameUser m → Keeps SameUser (with_context m)
  unfolding with_context
  with_context-SameUser m h = record { from = λ w. h.from (record w { context = enter w.context }) }

abbrev NotPassed : TestStepResult → Type 0
NotPassed r = is_passed r.status ≡ false

module _ {P : Platform} (runner : TestCaseRunner P) (skips : runner.skip ≡ true) where
  worst_is :
      (Q : TestStepResult → Type 0) (m : TestStepResult) (xs : List TestStepResult)
      → IsFirstWorst P m xs
      → All Q xs
      → Q m
  worst_is Q m xs (here ys a) (q, qs) = q
  worst_is Q m xs (later x {xs = ys} k f) (q, qs) = worst_is Q m ys f qs

  skipping :
      (results : List TestStepResult)
      → All NotPassed results
      → is_skipping_steps runner results ≡ true
  unfolding get_worst_step_result
  skipping [] h = rw skips refl
  skipping (r ∷ rs) h = rw (worst_is NotPassed _ _ (get_worst-IsFirstWorst P r rs) h) refl

  run_hook-SameUser :
      (d : HookDefinition P) (b : Bool) (started : TestStepStarted) (e : Bool)
      (results : List TestStepResult)
      → Yields SameUser NotPassed (run_hook runner d b started e results)
  unfolding run_hook
  run_hook-SameUser d b started e results =
      rw skips (pure-Yields SameUser-IsPreorder NotPassed _ refl)

  suggest-SameUser :
      (pickle_step : PickleStep) → Yields SameUser NotPassed (suggest runner pickle_step)
  unfolding suggest
  suggest-SameUser pickle_step = >>-Yields SameUser-IsPreorder NotPassed _ _ next_id-SameUser λ id.
      >>-Yields SameUser-IsPreorder NotPassed _ _ (broadcast-SameUser _)
        λ u. pure-Yields SameUser-IsPreorder NotPassed _ refl

  run_step-SameUser :
      (pickle_step : PickleStep) (s : TestStep) (started : TestStepStarted)
      (results : List TestStepResult)
      → All NotPassed results
      → Yields SameUser NotPassed (run_step runner pickle_step s started results)
  unfolding run_step
  run_step-SameUser pickle_step s started results h =
      >>-Yields SameUser-IsPreorder NotPassed _ _ (deref-Keeps SameUser-IsPreorder _) λ ids.
        if-Yields NotPassed _ _ _ (suggest-SameUser pickle_step) (
          if-Yields NotPassed _ _ _ (pure-Yields SameUser-IsPreorder NotPassed _ refl)
            (if_true _ _ _ (skipping results h) (pure-Yields SameUser-IsPreorder NotPassed _ refl)))
    where
      if_true :
          (b : Bool) (m k : M P TestStepResult)
          → b ≡ true
          → Yields SameUser NotPassed m
          → Yields SameUser NotPassed (if b then m else k)
      if_true b m k e q = rw e q

  abbrev AllNotPassed : Progress → Type 0
  AllNotPassed p = All NotPassed p.results

  run_hook_or_step-SameUser :
      (s : TestStep) (started : TestStepStarted) (p : Progress)
      → AllNotPassed p
      → Yields SameUser AllNotPassed (run_hook_or_step runner s started p)
  unfolding run_hook_or_step
  run_hook_or_step-SameUser s started p h =
      elim_Option (Yields SameUser AllNotPassed) s.hook_id _ _
        (>>-Yields SameUser-IsPreorder _ _ _ (value-Keeps SameUser-IsPreorder _) λ id.
          >>-Yields SameUser-IsPreorder _ _ _ (deref-Keeps SameUser-IsPreorder _) λ pickle_step.
            >>=-Yields SameUser-IsPreorder NotPassed _ _ _
              (run_step-SameUser pickle_step s started p.results h)
              λ r q.
                pure-Yields SameUser-IsPreorder _ _ (All-append NotPassed p.results _ h (q, tt)))
        λ hook_id. >>-Yields SameUser-IsPreorder _ _ _ (at-Keeps SameUser-IsPreorder _) λ d.
          >>=-Yields SameUser-IsPreorder NotPassed _ _ _ (run_hook-SameUser d _ started _ _)
            λ r q. pure-Yields SameUser-IsPreorder _ _ (All-append NotPassed p.results _ h (q, tt))

  run_test_step-SameUser :
      (id : String) (s : TestStep) (p : Progress)
      → AllNotPassed p
      → Yields SameUser AllNotPassed (run_test_step runner id s p)
  unfolding run_test_step
  run_test_step-SameUser id s p h = >>-Yields SameUser-IsPreorder _ _ _ (broadcast-SameUser _) λ u.
      >>=-Yields SameUser-IsPreorder AllNotPassed _ _ _ (run_hook_or_step-SameUser s _ p h) λ p' q.
        >>-Yields SameUser-IsPreorder _ _ _ (broadcast-SameUser _)
          λ u. pure-Yields SameUser-IsPreorder AllNotPassed p' q

  run_test_steps-SameUser :
      (id : String) (steps : List TestStep) (p : Progress)
      → AllNotPassed p
      → Yields SameUser AllNotPassed (run_test_steps runner id steps p)
  unfolding run_test_steps
  run_test_steps-SameUser id [] p h = pure-Yields SameUser-IsPreorder AllNotPassed p h
  run_test_steps-SameUser id (s ∷ steps) p h =
      >>=-Yields SameUser-IsPreorder AllNotPassed _ _ _ (run_test_step-SameUser id s p h)
        λ p' q. run_test_steps-SameUser id steps p' q

  run_attempt-SameUser :
      (attempt : ℕ) (more : Bool) → Keeps SameUser (run_attempt runner attempt more)
  unfolding run_attempt
  run_attempt-SameUser attempt more = with_context-SameUser _ (
      >>=-Keeps SameUser-IsPreorder _ _ next_id-SameUser λ id.
        >>=-Keeps SameUser-IsPreorder _ _ (broadcast-SameUser _) λ u.
          >>=-Keeps SameUser-IsPreorder _ _
            (Yields→Keeps AllNotPassed _ (run_test_steps-SameUser id _ no_progress tt))
            λ p.
              >>=-Keeps SameUser-IsPreorder _ _ (broadcast-SameUser _)
                λ v. pure-Keeps SameUser-IsPreorder _)

  run_attempts-SameUser :
      (left attempt : ℕ) (overall : TestStepResult)
      → Keeps SameUser (run_attempts runner left attempt overall)
  unfolding run_attempts
  run_attempts-SameUser zero attempt overall = pure-Keeps SameUser-IsPreorder _
  run_attempts-SameUser (suc left) attempt overall =
      >>=-Keeps SameUser-IsPreorder _ _ (run_attempt-SameUser attempt _) λ a.
        elim_Bool (Keeps SameUser) a.will_retry _ _ (run_attempts-SameUser left (attempt + 1) _)
          (pure-Keeps SameUser-IsPreorder _)

  -- The run of a test case that is to be skipped executes no body of a hook or a step, and leaves
  -- what the user's own code holds as it was.
  pub run-SameUser : Keeps SameUser (run runner)
  unfolding run
  run-SameUser = run_attempts-SameUser _ 0 _
