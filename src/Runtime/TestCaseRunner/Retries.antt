-- ===== src/Runtime/TestCaseRunner/Retries.antt =====
-- How often a test case runs, and with which result.
use amp_cucumber_cpp_runner.Prelude.{
  ℕ, zero, suc, ◌+◌, ◌<◌, ◌≡◌, refl, sym, ◌∙◌, ◌≢◌, ◌⊎◌, inl, inr, Bool, true, false, List, [], ◌∷◌,
  ◌++◌, append_assoc, arith, All, ltb, Bool-cases, ltb-false→le,
}
use amp_cucumber_cpp_runner.Messages.{Status, TestStepResult, Envelope}
use amp_cucumber_cpp_runner.Platform.{Platform}
use amp_cucumber_cpp_runner.Context.{Context, enter}
use amp_cucumber_cpp_runner.World.{World, M, broadcast, next_id, with_context, Result, ok, err}
use amp_cucumber_cpp_runner.World.Returns.{
  Returns, Returns-mono, Keeps→Returns, pure-Returns, >>=-Returns,
}
use amp_cucumber_cpp_runner.Runtime.TestCaseRunner.{
  TestCaseRunner, Attempt, get_worst_step_result, no_progress,
}
use amp_cucumber_cpp_runner.Runtime.TestCaseRunner.Attempts.{
  run_test_steps, will_retry_after, attempt_body, run_attempt, worse, final_status, run_attempts,
  run,
}
use amp_cucumber_cpp_runner.Runtime.TestCaseRunner.Trace.{
  CaseEvent, started, finished, trace, attempt_trace, trace-append, run_test_steps-SameTrace,
}
use amp_cucumber_cpp_runner.Runtime.TestCaseRunner.Total.{IsRunnable, run_test_steps-Succeeds}

module _ {P : Platform} where
  -- The trace has grown by those events.
  abbrev pub Grows : List Envelope → List CaseEvent → World P → Type 0
  Grows es cs v = trace v.events ≡ trace es ++ cs

  with_context-Returns :
      {A : Type 0} (es : List Envelope) (cs : A → List CaseEvent) (S : A → Type 0) (m : M P A)
      (w : World P)
      → Returns (λ a v. Grows es (cs a) v × S a) (m (record w { context = enter w.context }))
      → Returns (λ a v. Grows es (cs a) v × S a) (with_context m w)
  unfolding with_context
  with_context-Returns {A} es cs S m w h = go (m (record w { context = enter w.context })).0 _ _ h
    where
      go :
          (r : Result A) (v : World P) (c : Context P.Value)
          → Returns (λ a v. Grows es (cs a) v × S a) (r, v)
          → Returns (λ a v. Grows es (cs a) v × S a) (r, record v { context = c })
      go (ok a) v c h = h
      go (err e) v c h = h

  Grows-broadcast :
      (es : List Envelope) (cs : List CaseEvent) (w : World P) (e : Envelope)
      → Grows es cs w
      → Grows es (cs ++ trace (e ∷ [])) (broadcast {P = P} e w).1
  unfolding broadcast
  Grows-broadcast es cs w e h = trace-append w.events (e ∷ []) ∙ rw h (append_assoc (trace es) cs _)

module _ {P : Platform} (runner : TestCaseRunner P) where
  -- After so many retried attempts, of those that are left, and one more: the last one, or one with
  -- another status than failed where failed attempts are retried.
  abbrev pub Ran : List Envelope → ℕ → ℕ → Status → World P → Type 0
  Ran es left attempt status v =
      (n : ℕ) × ((n < left)
        × Grows es (attempt_trace n attempt) v
        × ((suc n ≡ left) ⊎ ((runner.repeat ≡ false) × (status ≢ Status.failed))))

module _ {P : Platform} (runner : TestCaseRunner P)
    (runnable : All (IsRunnable runner.support runner.pickle) runner.test_case.test_steps) where
  open runner use {test_case, maximum_attempts, repeat}

  -- What an attempt broadcasts, and that its answer is the one that the results call for
  abbrev pub Attempted : List Envelope → ℕ → Bool → Attempt → World P → Type 0
  Attempted es attempt more a v =
      Grows es (started attempt ∷ finished a.will_retry ∷ []) v
      × (a.will_retry ≡ will_retry_after runner more a.results)

  attempt_body-Attempted :
      (attempt : ℕ) (more : Bool) (w : World P)
      → Returns (Attempted w.events attempt more) (attempt_body runner attempt more w)
  unfolding broadcast next_id
  attempt_body-Attempted attempt more w =
      >>=-Returns (λ id v. trace v.events ≡ trace w.events) _ next_id _ w refl
        λ id v1 e1.
          >>=-Returns (λ u v. Grows w.events (started attempt ∷ []) v) _ (broadcast _) _ v1
            (trace-append v1.events _ ∙ rw e1 refl)
            λ u v2 e2.
              >>=-Returns (λ p v. Grows w.events (started attempt ∷ []) v) _
                (run_test_steps runner id test_case.test_steps no_progress) _ v2
                (Keeps→Returns _ _ v2 (run_test_steps-SameTrace runner id _ _)
                  (run_test_steps-Succeeds runner id _ _ runnable) λ p v e. e ∙ e2)
                λ p v3 e3.
                  >>=-Returns
                    (λ u v.
                      Grows w.events
                        (started attempt ∷ finished (will_retry_after runner more p.results) ∷ [])
                        v)
                    _ (broadcast _) _ v3 (Grows-broadcast w.events _ v3 _ e3)
                    λ u v4 e4. pure-Returns _ _ v4 (e4, refl)

  pub run_attempt-Attempted :
      (attempt : ℕ) (more : Bool) (w : World P)
      → Returns (Attempted w.events attempt more) (run_attempt runner attempt more w)
  unfolding run_attempt
  run_attempt-Attempted attempt more w =
      with_context-Returns w.events _ (λ a. a.will_retry ≡ will_retry_after runner more a.results) _
        w (attempt_body-Attempted attempt more _)

  -- An attempt that is not retried is the last, or its status is not failed.
  last_or_passed :
      (left attempt : ℕ) (overall : TestStepResult) (results : List TestStepResult)
      → suc left + attempt ≡ maximum_attempts
      → will_retry_after runner (ltb (attempt + 1) maximum_attempts) results ≡ false
      → (1 ≡ suc left)
        ⊎ ((repeat ≡ false)
            × (final_status runner overall (get_worst_step_result runner results) ≢ Status.failed))
  last_or_passed left attempt overall results h e =
      elim (Bool-cases (ltb (attempt + 1) maximum_attempts)) [
        | inl more ↦ inr (ground (arith, more))
        | inr no_more ↦ inl (omega (arith, ltb-false→le _ _ no_more))
      ]

  pub more_of_retried :
      (attempt : ℕ) (results : List TestStepResult)
      → will_retry_after runner (ltb (attempt + 1) maximum_attempts) results ≡ true
      → attempt + 1 < maximum_attempts
  more_of_retried attempt results e = ground arith

  Ran-retried :
      (es : List Envelope) (left attempt : ℕ) (v : World P)
      → Grows es (started attempt ∷ finished true ∷ []) v
      → (status : Status) (u : World P) → Ran runner v.events left (attempt + 1) status u
      → Ran runner es (suc left) attempt status u
  Ran-retried es left attempt v g status u (n, (less, e, inl last)) =
      (suc n, (omega arith, e ∙ rw g (append_assoc (trace es) _ _), inl (omega arith)))
  Ran-retried es left attempt v g status u (n, (less, e, inr other)) =
      (suc n, (omega arith, e ∙ rw g (append_assoc (trace es) _ _), inr other))

  run_attempts_once :
      (left attempt : ℕ) (overall : TestStepResult) (w : World P)
      → suc left + attempt ≡ maximum_attempts
      → ((a : Attempt) (v : World P)
          → attempt + 1 < maximum_attempts
          → (result : TestStepResult)
          → Returns
              (Ran runner v.events left (attempt + 1))
              (run_attempts runner left (attempt + 1) result v))
      → Returns
          (Ran runner w.events (suc left) attempt)
          (run_attempts runner (suc left) attempt overall w)
  unfolding run_attempts
  run_attempts_once left attempt overall w h again =
      >>=-Returns (Attempted w.events attempt (ltb (attempt + 1) maximum_attempts)) _
        (run_attempt runner attempt _) _ w (run_attempt-Attempted attempt _ w)
        λ a v (g, e). elim (Bool-cases a.will_retry) [
          | inl retried ↦ rw retried (
              Returns-mono _ _ _ _
                (again a v (more_of_retried attempt a.results (sym e ∙ retried)) _)
                (Ran-retried w.events left attempt v (g ∙ rw retried refl)))
          | inr over ↦ rw over (
              pure-Returns _ _ v (
                0,
                (
                  omega arith,
                  g ∙ rw over refl,
                  last_or_passed left attempt
                      (worse runner overall (get_worst_step_result runner a.results)) a.results h
                      (sym e ∙ over),
                ),
              ))
        ]

  run_attempts-Ran :
      (left attempt : ℕ) (overall : TestStepResult) (w : World P)
      → suc left + attempt ≡ maximum_attempts
      → Returns
          (Ran runner w.events (suc left) attempt)
          (run_attempts runner (suc left) attempt overall w)
  run_attempts-Ran zero attempt overall w h =
      run_attempts_once zero attempt overall w h λ a v more result. absurd (omega (arith, more))
  run_attempts-Ran (suc left) attempt overall w h =
      run_attempts_once (suc left) attempt overall w h
        λ a v more result. run_attempts-Ran left (attempt + 1) result v (omega (arith, h))

  run_all-Ran :
      (left : ℕ) (overall : TestStepResult) (w : World P)
      → 0 < left
      → left ≡ maximum_attempts
      → Returns (Ran runner w.events left 0) (run_attempts runner left 0 overall w)
  run_all-Ran zero overall w positive h = absurd (omega arith)
  run_all-Ran (suc left) overall w positive h = run_attempts-Ran left 0 overall w (omega (arith, h))

-- A test case whose steps are known to the registries, and which may be attempted at least once, is
-- run to its end: an exception never leaves it, whatever its hooks and steps throw. It broadcasts
-- the start and the end of n retried attempts, numbered from zero, and of one more attempt, which
-- is not to be retried, with n + 1 at most the number of attempts allowed; and either it has made
-- all of these, or it is not a repeated test case and the status that it answers is not failed.
pub run-Ran :
    {P : Platform} (runner : TestCaseRunner P) (w : World P)
    → All (IsRunnable runner.support runner.pickle) runner.test_case.test_steps
    → 0 < runner.maximum_attempts
    → Returns (Ran runner w.events runner.maximum_attempts 0) (run runner w)
unfolding run
run-Ran runner w runnable positive = run_all-Ran runner runnable _ _ w positive refl
