-- ===== src/Runtime/NestedTestCaseRunner/Laws.antt =====
-- What nested steps keep.
use amp_cucumber_cpp_runner.Prelude.{
  ℕ, zero, suc, ◌+◌, String, Option, none, some, List, [], ◌∷◌, arith,
}
use amp_cucumber_cpp_runner.Platform.{Platform}
use amp_cucumber_cpp_runner.World.{World}
use amp_cucumber_cpp_runner.World.Keeps.{IsPreorder}
use amp_cucumber_cpp_runner.Util.TestStepResult.{StepResult, TestStepStarted, step_started}
use amp_cucumber_cpp_runner.Util.Body.{NestedCall, NestedRunner}
use amp_cucumber_cpp_runner.Util.Body.Laws.{AllowsBodies, NestedKeeps, construct_and_execute-Keeps}
use amp_cucumber_cpp_runner.Support.{SupportCodeLibrary}
use amp_cucumber_cpp_runner.Support.StepRegistry
use amp_cucumber_cpp_runner.Support.StepRegistry.{StepDefinition}
use amp_cucumber_cpp_runner.Runtime.NestedTestCaseRunner.{
  throw_unless_passed, run_definition, run_matched, matched, first_list, step,
}

module _ {P : Platform} {R : World P → World P → Type 0} (pre : IsPreorder R)
    (allows : AllowsBodies R) (support : SupportCodeLibrary P) (started : TestStepStarted) where
  throw_unless_passed-Keeps :
      (nesting : ℕ) (text : String) (w : World P) (r : StepResult) (w' : World P)
      → R w w'
      → R w (throw_unless_passed P support started nesting text (r, w')).1
  throw_unless_passed-Keeps nesting text w r w' h = ground arith

  run_definition-Keeps :
      (inner : NestedRunner P) (nesting : ℕ) (call : NestedCall) (d : Option (StepDefinition P))
      (w : World P)
      → NestedKeeps R inner
      → R w (run_definition P support started inner nesting call d w).1
  run_definition-Keeps inner nesting call none w h = pre.same w
  run_definition-Keeps inner nesting call (some d) w h =
      throw_unless_passed-Keeps nesting call.text w _ _ (
        construct_and_execute-Keeps pre allows inner h (step_started started)
          (d.factory call.data_table call.doc_string
            (first_list (matched P support started call.text).1))
          w)

  run_matched-Keeps :
      (inner : NestedRunner P) (nesting : ℕ) (call : NestedCall) (ids : List String) (w : World P)
      → NestedKeeps R inner
      → R w (run_matched P support started inner nesting call ids w).1
  run_matched-Keeps inner nesting call [] w h = pre.same w
  run_matched-Keeps inner nesting call (id ∷ []) w h =
      run_definition-Keeps inner nesting call
        (StepRegistry.get_definition_by_id id support.step_registry) w h
  run_matched-Keeps inner nesting call (_ ∷ _ ∷ _) w h = pre.same w

  pub step-Keeps : (depth nesting : ℕ) → NestedKeeps R (step P support started depth nesting)
  unfolding step
  step-Keeps zero nesting call w = pre.same w
  step-Keeps (suc depth) nesting call w =
      run_matched-Keeps (step P support started depth (nesting + 1)) nesting call
        (matched P support started call.text).0 w (step-Keeps depth (nesting + 1))
