-- ===== src/Runtime/TestCaseRunner/Retained.antt =====
-- The status of a repeated test case against the results that it broadcasts.
use amp_cucumber_cpp_runner.Prelude.{
  ℕ, zero, suc, ◌+◌, ◌<◌, ◌≤◌, ◌≡◌, refl, sym, ◌∙◌, inl, inr, Bool, true, false, List, [], ◌∷◌,
  arith, All, String, ltb, Bool-cases, if◌then◌else◌,
}
use amp_cucumber_cpp_runner.Messages.{Status, TestStepResult, Envelope}
use amp_cucumber_cpp_runner.Platform.{Platform}
use amp_cucumber_cpp_runner.Context.{Context, enter}
use amp_cucumber_cpp_runner.World.{World, broadcast, next_id, with_context, Result, ok, err}
use amp_cucumber_cpp_runner.World.Returns.{
  Returns, Returns-weaken, Returns-both, pure-Returns, >>=-Returns,
}
use amp_cucumber_cpp_runner.Util.Worst.{result_of}
use amp_cucumber_cpp_runner.Util.Worst.Laws.{rank, get_worst-IsFirstWorst, IsFirstWorst-All}
use amp_cucumber_cpp_runner.Runtime.TestCaseRunner.{
  TestCaseRunner, Attempt, get_worst_step_result, no_progress,
}
use amp_cucumber_cpp_runner.Runtime.TestCaseRunner.Attempts.{
  run_test_steps, will_retry_after, attempt_body, run_attempt, worse, final_status, run_attempts,
  run,
}
use amp_cucumber_cpp_runner.Runtime.TestCaseRunner.Total.{IsRunnable}
use amp_cucumber_cpp_runner.Runtime.TestCaseRunner.Retries.{
  Attempted, run_attempt-Attempted, more_of_retried,
}
use amp_cucumber_cpp_runner.Runtime.TestCaseRunner.Severity.{
  Grown, Grown-IsPreorder, Grown-mono, broadcast-Grown, broadcast_after_quiet, broadcast-Returns,
  Bounded, Longer, Covered, run_test_steps-Covered,
}

module _ {P : Platform} (runner : TestCaseRunner P) where
  abbrev AttemptCovered : World P → Attempt → World P → Type 0
  AttemptCovered w a v = (k : ℕ) → Bounded P k a.results → Grown P k w v

  attempt_body-Covered :
      (attempt : ℕ) (more : Bool) (w : World P)
      → All (IsRunnable runner.support runner.pickle) runner.test_case.test_steps
      → Returns (AttemptCovered w) (attempt_body runner attempt more w)
  unfolding next_id
  attempt_body-Covered attempt more w h =
      >>=-Returns (λ id v. Grown P 0 w v) _ next_id _ w ((Grown-IsPreorder P 0).same w)
        λ id v1 g1.
          >>=-Returns (λ u v. Grown P 0 w v) _ (broadcast _) _ v1
            (broadcast-Returns P (Grown P 0 w)
              (Envelope.test_case_started id runner.test_case.id attempt) v1
              (broadcast_after_quiet P 0 (Envelope.test_case_started id runner.test_case.id attempt)
                w v1 v1 g1 ((Grown-IsPreorder P 0).same v1) (omega arith)))
            λ u v2 g2.
              >>=-Returns (λ p v. Longer runner no_progress p × Covered runner v2 p v) _
                (run_test_steps runner id runner.test_case.test_steps no_progress) _ v2
                (run_test_steps-Covered runner id runner.test_case.test_steps no_progress v2 h)
                λ p v3 (longer, c).
                  >>=-Returns (λ u v. (k : ℕ) → Bounded P k p.results → Grown P k w v) _
                    (broadcast _) _ v3
                    (broadcast-Returns P (λ v. (k : ℕ) → Bounded P k p.results → Grown P k w v)
                      (Envelope.test_case_finished id (will_retry_after runner more p.results)) v3
                      λ k b. finish k _ v2 v3 g2 (c k b))
                    λ u v4 d. pure-Returns _ _ v4 d
    where
      finish :
          (k : ℕ) (e : Bool × String) (v u : World P)
          → Grown P 0 w v
          → Grown P k v u
          → Grown P k w (broadcast (Envelope.test_case_finished e.1 e.0) u).1
      finish k e v u g h =
          (Grown-IsPreorder P k).trans w v (broadcast (Envelope.test_case_finished e.1 e.0) u).1
            (Grown-mono P 0 k w v (omega arith) g)
            ((Grown-IsPreorder P k).trans v u (broadcast (Envelope.test_case_finished e.1 e.0) u).1
              h (broadcast-Grown P k (Envelope.test_case_finished e.1 e.0) u (omega arith)))

  run_attempt-Covered :
      (attempt : ℕ) (more : Bool) (w : World P)
      → All (IsRunnable runner.support runner.pickle) runner.test_case.test_steps
      → Returns (AttemptCovered w) (run_attempt runner attempt more w)
  unfolding run_attempt with_context
  run_attempt-Covered attempt more w h =
      go _ _ _ (attempt_body-Covered attempt more (record w { context = enter w.context }) h)
    where
      go :
          (r : Result Attempt) (v : World P) (c : Context P.Value)
          → Returns (AttemptCovered w) (r, v)
          → Returns (AttemptCovered w) (r, record v { context = c })
      go (ok a) v c q = q
      go (err e) v c q = q

  worst-Bounded :
      (results : List TestStepResult)
      → Bounded P (rank P (get_worst_step_result runner results)) results
  unfolding get_worst_step_result
  worst-Bounded [] = tt
  worst-Bounded (r ∷ rs) = IsFirstWorst-All P _ _ (get_worst-IsFirstWorst P r rs)

  rank-worse :
      (overall result : TestStepResult)
      → (rank P overall ≤ rank P (worse runner overall result))
        × (rank P result ≤ rank P (worse runner overall result))
  rank-worse overall result =
      let (a, (b, t)) = IsFirstWorst-All P _ _ (get_worst-IsFirstWorst P overall (result ∷ [])) in
      (a, b)

module _ {P : Platform} (runner : TestCaseRunner P) (repeats : runner.repeat ≡ true)
    (runnable : All (IsRunnable runner.support runner.pickle) runner.test_case.test_steps) where
  open runner use {maximum_attempts}

  -- The answer is no less severe than the overall result so far, nor than what is broadcast from
  -- here on.
  abbrev Retains : TestStepResult → World P → Status → World P → Type 0
  Retains overall w status v =
      (rank P overall ≤ P.underlying status) × Grown P (P.underlying status) w v

  Retains-after :
      (overall : TestStepResult) (results : List TestStepResult) (w v u : World P) (status : Status)
      → AttemptCovered runner w (record { will_retry = true; results = results }) v
      → Retains (worse runner overall (get_worst_step_result runner results)) v status u
      → Retains overall w status u
  Retains-after overall results w v u status covered (above, grown) =
      let (a, b) = rank-worse runner overall (get_worst_step_result runner results) in
      (
        omega (arith, a, above),
        (Grown-IsPreorder P (P.underlying status)).trans w v u
            (Grown-mono P _ _ w v (omega (arith, b, above))
              (covered _ (worst-Bounded runner results)))
            grown,
      )

  Retains-finally :
      (overall : TestStepResult) (results : List TestStepResult) (w v : World P)
      → AttemptCovered runner w (record { will_retry = false; results = results }) v
      → Retains overall w
          (final_status runner
            (worse runner overall (get_worst_step_result runner results))
            (get_worst_step_result runner results))
          v
  Retains-finally overall results w v covered =
      let (a, b) = rank-worse runner overall (get_worst_step_result runner results) in
      if_true runner.repeat _ _ repeats
        (a, Grown-mono P _ _ w v b (covered _ (worst-Bounded runner results)))
    where
      if_true :
          (b : Bool) (x y : Status)
          → b ≡ true
          → Retains overall w x v
          → Retains overall w (if b then x else y) v
      if_true b x y e r = rw e r

  attempt_then-Retains :
      (left attempt : ℕ) (overall : TestStepResult) (w : World P)
      → ((v : World P)
          → attempt + 1 < maximum_attempts
          → (result : TestStepResult)
          → Returns (Retains result v) (run_attempts runner left (attempt + 1) result v))
      → Returns (Retains overall w) (run_attempts runner (suc left) attempt overall w)
  unfolding run_attempts
  attempt_then-Retains left attempt overall w again =
      >>=-Returns
        (λ a v.
          AttemptCovered runner w a v
          × Attempted runner runnable w.events attempt (ltb (attempt + 1) maximum_attempts) a v)
        _ (run_attempt runner attempt (ltb (attempt + 1) maximum_attempts)) _ w
        (Returns-both _ _ _ _ (run_attempt-Covered runner attempt _ w runnable)
          (run_attempt-Attempted runner runnable attempt _ w))
        λ a v (covered, (g, e)). elim (Bool-cases a.will_retry) [
          | inl retried ↦
              let result = worse runner overall (get_worst_step_result runner a.results) in
              rw retried (
                Returns-weaken (Retains result v) (Retains overall w)
                  (run_attempts runner left (attempt + 1) result) v
                  (again v (more_of_retried runner runnable attempt a.results (sym e ∙ retried))
                    result)
                  λ status u. Retains-after overall a.results w v u status covered)
          | inr over ↦ rw over (pure-Returns _ _ v (Retains-finally overall a.results w v covered))
        ]

  run_attempts-Retains :
      (left attempt : ℕ) (overall : TestStepResult) (w : World P)
      → suc left + attempt ≡ maximum_attempts
      → Returns (Retains overall w) (run_attempts runner (suc left) attempt overall w)
  run_attempts-Retains zero attempt overall w h =
      attempt_then-Retains zero attempt overall w λ v more result. absurd (omega (arith, more))
  run_attempts-Retains (suc left) attempt overall w h =
      attempt_then-Retains (suc left) attempt overall w
        λ v more result. run_attempts-Retains left (attempt + 1) result v (omega (arith, h))

  run_all-Retains :
      (left : ℕ) (overall : TestStepResult) (w : World P)
      → 0 < left
      → left ≡ maximum_attempts
      → Returns (Retains overall w) (run_attempts runner left 0 overall w)
  run_all-Retains zero overall w positive h = absurd (omega arith)
  run_all-Retains (suc left) overall w positive h =
      run_attempts-Retains left 0 overall w (omega (arith, h))

-- A test case that is repeated retains every failure: run to its end, with steps that the registries
-- know and at least one attempt allowed, it answers a status that is no less severe than the result
-- of any step or hook that it has broadcast in any of its attempts.
pub run-Grown :
    {P : Platform} (runner : TestCaseRunner P) (w : World P)
    → runner.repeat ≡ true
    → All (IsRunnable runner.support runner.pickle) runner.test_case.test_steps
    → 0 < runner.maximum_attempts
    → Returns (λ status v. Grown P (P.underlying status) w v) (run runner w)
unfolding run
run-Grown {P} runner w repeats runnable positive =
    Returns-weaken (Retains runner repeats runnable (result_of Status.passed) w)
      (λ status v. Grown P (P.underlying status) w v)
      (run_attempts runner runner.maximum_attempts 0 (result_of Status.passed)) w
      (run_all-Retains runner repeats runnable _ _ w positive refl) λ status v (above, grown). grown
