-- ===== src/Runtime/TestCaseRunner/Attempts.antt =====
-- `TestCaseRunner::RunAttempt` and `TestCaseRunner::Run` (cucumber_cpp/library/runtime/TestCaseRunner.cpp).
use amp_cucumber_cpp_runner.Prelude.{
  ℕ, zero, suc, ◌+◌, String, Bool, true, false, ◌&&◌, ◌||◌, List, [], ◌∷◌, ltb, if◌then◌else◌,
}
use amp_cucumber_cpp_runner.Messages.{Status, TestStepResult, TestStep, Envelope, is_failed}
use amp_cucumber_cpp_runner.Platform.{Platform}
use amp_cucumber_cpp_runner.World.{M, pure, ◌>>=◌, ◌>>◌, broadcast, next_id, with_context}
use amp_cucumber_cpp_runner.Util.Worst.{result_of, get_worst_test_step_result}
use amp_cucumber_cpp_runner.Runtime.TestCaseRunner.{
  TestCaseRunner, Progress, no_progress, Attempt, get_worst_step_result, run_hook_or_step,
}

-- The result that a round of the loop has added last
abbrev pub last_result : List TestStepResult → TestStepResult
last_result [] = result_of Status.unknown
last_result (r ∷ []) = r
last_result (r ∷ s ∷ rs) = last_result (s ∷ rs)

module _ {P : Platform} (runner : TestCaseRunner P) where
  open runner use {test_case, maximum_attempts, repeat}

  -- One round of the loop over `testCase.testSteps`
  unfoldable pub run_test_step : String → TestStep → Progress → M P Progress
  run_test_step started_id test_step p = do
    broadcast (Envelope.test_step_started started_id test_step.id)
    p' ←
        run_hook_or_step runner test_step
          (record { test_case_started_id = started_id; test_step_id = test_step.id }) p
    broadcast (Envelope.test_step_finished started_id test_step.id (last_result p'.results))
    pure p'

  unfoldable pub run_test_steps : String → List TestStep → Progress → M P Progress
  run_test_steps started_id [] p = pure p
  run_test_steps started_id (s ∷ steps) p = do
    p' ← run_test_step started_id s p
    run_test_steps started_id steps p'

  -- `willRetry`, from whether more attempts are available and from the results
  abbrev pub will_retry_after : Bool → List TestStepResult → Bool
  will_retry_after more results =
      more && (repeat || is_failed (get_worst_step_result runner results).status)

  abbrev pub finish_attempt : String → Bool → List TestStepResult → M P Attempt
  finish_attempt started_id more results = do
    broadcast (Envelope.test_case_finished started_id (will_retry_after more results))
    pure (record { will_retry = will_retry_after more results; results = results })

  abbrev pub attempt_body : ℕ → Bool → M P Attempt
  attempt_body attempt more = do
    started_id ← next_id
    broadcast (Envelope.test_case_started started_id test_case.id attempt)
    p ← run_test_steps started_id test_case.test_steps no_progress
    finish_attempt started_id more p.results

  unfoldable pub run_attempt : ℕ → Bool → M P Attempt
  run_attempt attempt more = with_context (attempt_body attempt more)

  abbrev pub worse : TestStepResult → TestStepResult → TestStepResult
  worse overall result = get_worst_test_step_result P (overall ∷ result ∷ [])

  abbrev pub final_status : TestStepResult → TestStepResult → Status
  final_status overall result = if repeat then overall.status else result.status

  -- The loop of `Run`, with so many rounds left, from that attempt on
  unfoldable pub run_attempts : ℕ → ℕ → TestStepResult → M P Status
  run_attempts zero attempt overall = pure Status.unknown
  run_attempts (suc left) attempt overall = do
    a ← run_attempt attempt (ltb (attempt + 1) maximum_attempts)
    let result = get_worst_step_result runner a.results
    elim a.will_retry [
      | true ↦ run_attempts left (attempt + 1) (worse overall result)
      | false ↦ pure (final_status (worse overall result) result)
    ]

  unfoldable pub run : M P Status
  run = run_attempts maximum_attempts 0 (result_of Status.passed)
