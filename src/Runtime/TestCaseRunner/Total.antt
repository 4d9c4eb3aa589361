-- ===== src/Runtime/TestCaseRunner/Total.antt =====
-- Which test cases run without an exception (cucumber_cpp/library/runtime/TestCaseRunner.cpp).
use amp_cucumber_cpp_runner.Prelude.{
  ℕ, suc, ◌≡◌, refl, inl, inr, Bool, true, ◌&&◌, some, none, List, [], ◌∷◌, String, arith, All,
  if◌then◌else◌, Bool-cases, elim_none, elim_some, length, ltb,
}
use amp_cucumber_cpp_runner.Messages.{
  Pickle, PickleStep, TestStep, TestStepResult, StepMatchArgument,
}
use amp_cucumber_cpp_runner.Platform.{Platform}
use amp_cucumber_cpp_runner.World.{M}
use amp_cucumber_cpp_runner.World.Returns.{
  broadcast-Succeeds, next_id-Succeeds, Succeeds, pure-Succeeds, if-Succeeds, >>=-Succeeds,
  at->>=-Succeeds, value->>=-Succeeds, deref->>=-Succeeds,
}
use amp_cucumber_cpp_runner.Util.TestStepResult.{TestStepStarted}
use amp_cucumber_cpp_runner.Util.Body.{Body}
use amp_cucumber_cpp_runner.Support.{SupportCodeLibrary}
use amp_cucumber_cpp_runner.Support.HookRegistry.{HookDefinition, HookType}
use amp_cucumber_cpp_runner.Support.HookRegistry.Laws.{IsRegistered, find_ids-All-IsRegistered}
use amp_cucumber_cpp_runner.Support.StepRegistry
use amp_cucumber_cpp_runner.Support.StepRegistry.{StepDefinition}
use amp_cucumber_cpp_runner.Runtime.TestCaseRunner.{
  TestCaseRunner, Progress, find_pickle_step, invoke_step, invoke_hook, run_hook, run_hook_ids,
  run_step_hooks, run_step_body, run_hooks_and_step, suggest, run_step, run_hook_or_step,
  follows_skipped_step, is_skipping_steps,
}
use amp_cucumber_cpp_runner.Runtime.TestCaseRunner.Attempts.{run_test_step, run_test_steps}

module _ {P : Platform} where
  -- The ids of the definitions that match a step, and the lists of arguments, one for each: if there
  -- is just one, the registry knows it.
  pub data IsMatched (support : SupportCodeLibrary P)
      : List String → List (List StepMatchArgument) → Type 0 where
    undefined : IsMatched support [] []
    defined :
        (id : String) (arguments : List StepMatchArgument) (d : StepDefinition P)
        → StepRegistry.get_definition_by_id id support.step_registry ≡ some d
        → IsMatched support (id ∷ []) (arguments ∷ [])
    ambiguous :
        (id id' : String) (ids : List String) (lists : List (List StepMatchArgument))
        → IsMatched support (id ∷ id' ∷ ids) lists

  -- What a step of a test case must be for its pickle and for the registries.
  pub data IsRunnable (support : SupportCodeLibrary P) (pickle : Pickle) (s : TestStep)
      : Type 0 where
    hook :
        (hook_id : String)
        → s.hook_id ≡ some hook_id
        → IsRegistered support.hook_registry hook_id
        → IsRunnable support pickle s
    step :
        (id : String) (pickle_step : PickleStep) (ids : List String)
        (lists : List (List StepMatchArgument))
        → s.hook_id ≡ none
        → s.pickle_step_id ≡ some id
        → find_pickle_step id pickle.steps ≡ some pickle_step
        → s.step_definition_ids ≡ some ids
        → s.step_match_arguments_lists ≡ some lists
        → IsMatched support ids lists
        → IsRunnable support pickle s

module _ {P : Platform} (runner : TestCaseRunner P) where
  invoke_step-Succeeds :
      (started : TestStepStarted) (body : Body P) → Succeeds (invoke_step runner started body)
  unfolding invoke_step
  invoke_step-Succeeds started body = record { from = λ w. tt }

  invoke_hook-Succeeds :
      (started : TestStepStarted) (body : Body P) → Succeeds (invoke_hook runner started body)
  unfolding invoke_hook
  invoke_hook-Succeeds started body = record { from = λ w. tt }

  run_hook-Succeeds :
      (d : HookDefinition P) (b : Bool) (started : TestStepStarted) (e : Bool)
      (results : List TestStepResult)
      → Succeeds (run_hook runner d b started e results)
  unfolding run_hook
  run_hook-Succeeds d b started e results =
      if-Succeeds _ _ _ (pure-Succeeds _) (invoke_hook-Succeeds _ _)

  run_hook_ids-Succeeds :
      (started : TestStepStarted) (ids : List String)
      → All (IsRegistered runner.support.hook_registry) ids
      → Succeeds (run_hook_ids runner started ids)
  unfolding run_hook_ids
  run_hook_ids-Succeeds started [] h = pure-Succeeds _
  run_hook_ids-Succeeds started (id ∷ ids) ((d, e), h) = at->>=-Succeeds _ d _ e (
      >>=-Succeeds _ _ (invoke_hook-Succeeds _ _)
        λ r. >>=-Succeeds _ _ (run_hook_ids-Succeeds started ids h) λ rs. pure-Succeeds _)

  run_step_hooks-Succeeds :
      (type : HookType) (started : TestStepStarted) → Succeeds (run_step_hooks runner type started)
  unfolding run_step_hooks
  run_step_hooks-Succeeds type started =
      run_hook_ids-Succeeds started _ (find_ids-All-IsRegistered type _ _)

  run_step_body-Succeeds :
      (pickle_step : PickleStep) (s : TestStep) (started : TestStepStarted) (id : String)
      (arguments : List StepMatchArgument) (d : StepDefinition P) (results : List TestStepResult)
      → s.step_match_arguments_lists ≡ some (arguments ∷ [])
      → StepRegistry.get_definition_by_id id runner.support.step_registry ≡ some d
      → Succeeds (run_step_body runner pickle_step s started (id ∷ []) results)
  unfolding run_step_body
  run_step_body-Succeeds pickle_step s started id arguments d results hl hd =
      if-Succeeds _ _ _ (pure-Succeeds _) (
        deref->>=-Succeeds _ id _ refl (
          at->>=-Succeeds _ d _ hd (
            deref->>=-Succeeds _ (arguments ∷ []) _ hl (
              deref->>=-Succeeds _ arguments _ refl
                (>>=-Succeeds _ _ (invoke_step-Succeeds _ _) λ r. pure-Succeeds _)))))

  run_hooks_and_step-Succeeds :
      (pickle_step : PickleStep) (s : TestStep) (started : TestStepStarted) (id : String)
      (arguments : List StepMatchArgument) (d : StepDefinition P)
      → s.step_match_arguments_lists ≡ some (arguments ∷ [])
      → StepRegistry.get_definition_by_id id runner.support.step_registry ≡ some d
      → Succeeds (run_hooks_and_step runner pickle_step s started (id ∷ []))
  unfolding run_hooks_and_step
  run_hooks_and_step-Succeeds pickle_step s started id arguments d hl hd =
      >>=-Succeeds _ _ (run_step_hooks-Succeeds _ _) λ before_results.
        >>=-Succeeds _ _
          (run_step_body-Succeeds pickle_step s started id arguments d before_results hl hd)
          λ rs. >>=-Succeeds _ _ (run_step_hooks-Succeeds _ _) λ as'. pure-Succeeds _

  suggest-Succeeds : (pickle_step : PickleStep) → Succeeds (suggest runner pickle_step)
  unfolding suggest
  suggest-Succeeds pickle_step =
      >>=-Succeeds _ _ next_id-Succeeds
        λ id. >>=-Succeeds _ _ (broadcast-Succeeds _) λ u. pure-Succeeds _

  -- A step that follows a skipped one is skipped.
  skipping_of_follows :
      (results : List TestStepResult)
      → follows_skipped_step runner results ≡ true
      → is_skipping_steps runner results ≡ true
  skipping_of_follows [] h = ground arith
  skipping_of_follows (r ∷ rs) h = ground arith

  if-Succeeds-true :
      {A : Type 0} (b : Bool) (m k : M P A) → b ≡ true → Succeeds m → Succeeds (if b then m else k)
  if-Succeeds-true b m k h s = rw h s

  one_below : (n : ℕ) → (ltb 1 (suc (suc n)) && true) ≡ true
  one_below n = ground arith

  run_step-Succeeds :
      (pickle_step : PickleStep) (s : TestStep) (started : TestStepStarted)
      (results : List TestStepResult) (ids : List String) (lists : List (List StepMatchArgument))
      → s.step_definition_ids ≡ some ids
      → s.step_match_arguments_lists ≡ some lists
      → IsMatched runner.support ids lists
      → Succeeds (run_step runner pickle_step s started results)
  unfolding run_step
  run_step-Succeeds pickle_step s started results ids lists hi hl undefined =
      deref->>=-Succeeds _ _ _ hi (elim (Bool-cases (follows_skipped_step runner results)) [
        | inl follows ↦ rw (follows, skipping_of_follows results follows) (pure-Succeeds _)
        | inr other ↦ rw other (suggest-Succeeds pickle_step)
      ])
  run_step-Succeeds pickle_step s started results ids lists hi hl (defined id arguments d hd) =
      deref->>=-Succeeds _ _ _ hi (
        if-Succeeds _ _ _ (pure-Succeeds _)
          (run_hooks_and_step-Succeeds pickle_step s started id arguments d hl hd))
  run_step-Succeeds pickle_step s started results ids lists hi hl (ambiguous id id' ids' lists') =
      elim (Bool-cases (follows_skipped_step runner results)) [
        | inl follows ↦
            rw (follows, skipping_of_follows results follows)
              (deref->>=-Succeeds _ _ _ hi (
                if-Succeeds _ _ _ (suggest-Succeeds pickle_step)
                  (if-Succeeds _ _ _ (pure-Succeeds _) (pure-Succeeds _))))
        | inr other ↦ rw other (
            deref->>=-Succeeds _ _ _ hi (
              if-Succeeds _ _ _ (suggest-Succeeds pickle_step)
                (if-Succeeds-true _ _ _ (one_below (length ids')) (pure-Succeeds _))))
      ]

  pub run_hook_or_step-Succeeds :
      (s : TestStep) (started : TestStepStarted) (p : Progress)
      → IsRunnable runner.support runner.pickle s
      → Succeeds (run_hook_or_step runner s started p)
  unfolding run_hook_or_step
  run_hook_or_step-Succeeds s started p (hook hook_id h (d, e)) =
      elim_some Succeeds _ hook_id _ _ h (
        at->>=-Succeeds _ d _ e
          (>>=-Succeeds _ _ (run_hook-Succeeds d _ started _ _) λ r. pure-Succeeds _))
  run_hook_or_step-Succeeds s started p (step id pickle_step ids lists h hp hf hi hl m) =
      elim_none Succeeds _ _ _ h (
        value->>=-Succeeds _ id _ hp (
          deref->>=-Succeeds _ pickle_step _ hf (
            >>=-Succeeds _ _ (run_step-Succeeds pickle_step s started p.results ids lists hi hl m)
              λ r. pure-Succeeds _)))

  run_test_step-Succeeds :
      (id : String) (s : TestStep) (p : Progress)
      → IsRunnable runner.support runner.pickle s
      → Succeeds (run_test_step runner id s p)
  unfolding run_test_step
  run_test_step-Succeeds id s p h = >>=-Succeeds _ _ (broadcast-Succeeds _) λ u.
      >>=-Succeeds _ _ (run_hook_or_step-Succeeds s _ p h)
        λ p'. >>=-Succeeds _ _ (broadcast-Succeeds _) λ v. pure-Succeeds _

  pub run_test_steps-Succeeds :
      (id : String) (steps : List TestStep) (p : Progress)
      → All (IsRunnable runner.support runner.pickle) steps
      → Succeeds (run_test_steps runner id steps p)
  unfolding run_test_steps
  run_test_steps-Succeeds id [] p h = pure-Succeeds _
  run_test_steps-Succeeds id (s ∷ steps) p (h, hs) =
      >>=-Succeeds _ _ (run_test_step-Succeeds id s p h)
        λ p'. run_test_steps-Succeeds id steps p' hs
