-- ===== src/Util/Body/Outcome.antt =====
-- The status that the execution of a body ends with.
use amp_cucumber_cpp_runner.Prelude.{
  ◌≡◌, refl, ap, sym, ◌∙◌, ◌≢◌, ◌⊎◌, inl, inr, String, Bool, true, false, Option, none, some,
  elim_Option, elim_Bool, elim_none, elim_some, arith,
}
use amp_cucumber_cpp_runner.Context
use amp_cucumber_cpp_runner.Platform.{Platform}
use amp_cucumber_cpp_runner.World.{World}
use amp_cucumber_cpp_runner.Engine.Attachment.{Media, attach_text, attach_data}
use amp_cucumber_cpp_runner.Util.TestStepResultStatus.{StepStatus}
use amp_cucumber_cpp_runner.Util.TestStepResult.{StepResult, StepOrHookStarted}
use amp_cucumber_cpp_runner.Util.Body.{
  Body, finish, throw, report, attach, attach_stream, contains, get, assign, erase, ask, tell,
  nested, Thrown, nested_error, step_skipped, step_pending, fatal_error, standard, other,
  stack_exhausted, TestPart, NestedCall, NestedRunner, report_test_part_result, handle_errors,
  execute, initial, caught, construct_and_execute,
}

module _ (P : Platform) where
  -- The status that an exception leaves.
  handle_errors-status :
      (e : Thrown) (r : StepResult)
      → ((handle_errors P e r).status ≡ StepStatus.failed)
        ⊎ ((m : String) × ((e ≡ step_skipped m) ⊎ (e ≡ step_pending m)))
  unfolding handle_errors
  handle_errors-status (nested_error nesting status text) r = inl (ground arith)
  handle_errors-status (step_skipped m) r = inr (m, inl refl)
  handle_errors-status (step_pending m) r = inr (m, inr refl)
  handle_errors-status (fatal_error m) r = inl refl
  handle_errors-status (standard type what) r = inl refl
  handle_errors-status other r = inl refl
  handle_errors-status stack_exhausted r = inl refl

  handle_errors-not_passed :
      (e : Thrown) (r : StepResult) → (handle_errors P e r).status ≢ StepStatus.passed
  unfolding handle_errors
  handle_errors-not_passed (nested_error nesting status text) r h = ground arith
  handle_errors-not_passed (step_skipped m) r h = ground arith
  handle_errors-not_passed (step_pending m) r h = ground arith
  handle_errors-not_passed (fatal_error m) r h = ground arith
  handle_errors-not_passed (standard type what) r h = ground arith
  handle_errors-not_passed other r h = ground arith
  handle_errors-not_passed stack_exhausted r h = ground arith

  report-failed :
      (part : TestPart) (r : StepResult)
      → r.status ≡ StepStatus.failed
      → (report_test_part_result P part r).status ≡ StepStatus.failed
  unfolding report_test_part_result
  report-failed part r h = ground arith

  report_of_failed :
      (part : TestPart) (r : StepResult)
      → part.failed ≡ true
      → (report_test_part_result P part r).status ≡ StepStatus.failed
  unfolding report_test_part_result
  report_of_failed part r h = rw h refl

module _ {P : Platform} (nest : NestedRunner P) (started : StepOrHookStarted) where
  abbrev Failing : Option Thrown × StepResult × World P → Type 0
  Failing (thrown, r, w) = r.status ≡ StepStatus.failed

  -- Once a result has failed, nothing that the body does changes that.
  execute-Failing :
      (body : Body P) (r : StepResult) (w : World P)
      → r.status ≡ StepStatus.failed
      → Failing (execute P nest started body r w)
  unfolding execute
  execute-Failing finish r w f = f
  execute-Failing (throw e) r w f = f
  execute-Failing (report part k h) r w f =
      elim_Bool Failing part.fatally_failed _ _
        (execute-Failing (h (fatal_error part.message)) _ w (report-failed P part r f))
        (execute-Failing k _ w (report-failed P part r f))
  execute-Failing (attach text media k) r w f = execute-Failing k r _ f
  execute-Failing (attach_stream text media k) r w f = execute-Failing k r _ f
  execute-Failing (contains key k) r w f = execute-Failing (k _) r w f
  execute-Failing (get key k h) r w f =
      elim_Option Failing (Context.get key w.context) _ _
        (execute-Failing (h (standard "KeyNotFound" key)) r w f) (λ v. execute-Failing (k v) r w f)
  execute-Failing (assign key v k) r w f = execute-Failing k r _ f
  execute-Failing (erase key k) r w f = execute-Failing k r _ f
  execute-Failing (ask k) r w f = execute-Failing (k w.user) r w f
  execute-Failing (tell u k) r w f = execute-Failing k r _ f
  execute-Failing (nested call k h) r w f =
      elim_Option Failing (nest call w).0 _ _ (execute-Failing k r (nest call w).1 f)
        (λ e. execute-Failing (h e) r (nest call w).1 f)

  -- Executed from that state, the body comes to an assertion that fails.
  pub data Fails : Body P → World P → Type 0 where
    here :
        (part : TestPart) (k : Body P) (h : Thrown → Body P) (w : World P)
        → part.failed ≡ true
        → Fails (report part k h) w
    report_fatal :
        (part : TestPart) (k : Body P) (h : Thrown → Body P) (w : World P)
        → part.fatally_failed ≡ true
        → Fails (h (fatal_error part.message)) w
        → Fails (report part k h) w
    report_other :
        (part : TestPart) (k : Body P) (h : Thrown → Body P) (w : World P)
        → part.fatally_failed ≡ false
        → Fails k w
        → Fails (report part k h) w
    in_attach :
        (text : String) (media : Media) (k : Body P) (w : World P)
        → Fails k (attach_text text media started w).1
        → Fails (attach text media k) w
    in_attach_stream :
        (text : String) (media : Media) (k : Body P) (w : World P)
        → Fails k (attach_data text media started w).1
        → Fails (attach_stream text media k) w
    in_contains :
        (key : String) (k : Bool → Body P) (w : World P)
        → Fails (k (Context.contains key w.context)) w
        → Fails (contains key k) w
    in_get :
        (key : String) (k : P.Value → Body P) (h : Thrown → Body P) (v : P.Value) (w : World P)
        → Context.get key w.context ≡ some v
        → Fails (k v) w
        → Fails (get key k h) w
    in_get_unknown :
        (key : String) (k : P.Value → Body P) (h : Thrown → Body P) (w : World P)
        → Context.get key w.context ≡ none
        → Fails (h (standard "KeyNotFound" key)) w
        → Fails (get key k h) w
    in_assign :
        (key : String) (v : P.Value) (k : Body P) (w : World P)
        → Fails k (record w { context = Context.assign key v w.context })
        → Fails (assign key v k) w
    in_erase :
        (key : String) (k : Body P) (w : World P)
        → Fails k (record w { context = Context.erase key w.context })
        → Fails (erase key k) w
    in_ask : (k : P.User → Body P) (w : World P) → Fails (k w.user) w → Fails (ask k) w
    in_tell :
        (u : P.User) (k : Body P) (w : World P)
        → Fails k (record w { user = u })
        → Fails (tell u k) w
    in_nested :
        (call : NestedCall) (k : Body P) (h : Thrown → Body P) (w : World P)
        → (nest call w).0 ≡ none
        → Fails k (nest call w).1
        → Fails (nested call k h) w
    in_nested_thrown :
        (call : NestedCall) (k : Body P) (h : Thrown → Body P) (e : Thrown) (w : World P)
        → (nest call w).0 ≡ some e
        → Fails (h e) (nest call w).1
        → Fails (nested call k h) w

  Fails-Failing :
      (body : Body P) (r : StepResult) (w : World P)
      → Fails body w
      → Failing (execute P nest started body r w)
  unfolding execute
  Fails-Failing _ r _ (here part k h w p) =
      elim_Bool Failing part.fatally_failed _ _
        (execute-Failing (h (fatal_error part.message)) _ w (report_of_failed P part r p))
        (execute-Failing k _ w (report_of_failed P part r p))
  Fails-Failing _ r _ (report_fatal part k h w p f) = rw p (Fails-Failing _ _ w f)
  Fails-Failing _ r _ (report_other part k h w p f) = rw p (Fails-Failing k _ w f)
  Fails-Failing _ r _ (in_attach text media k w f) = Fails-Failing k r _ f
  Fails-Failing _ r _ (in_attach_stream text media k w f) = Fails-Failing k r _ f
  Fails-Failing _ r _ (in_contains key k w f) = Fails-Failing (k _) r w f
  Fails-Failing _ r _ (in_get key k h v w e f) =
      elim_some Failing (Context.get key w.context) v _ _ e (Fails-Failing (k v) r w f)
  Fails-Failing _ r _ (in_get_unknown key k h w e f) =
      elim_none Failing (Context.get key w.context) _ _ e (Fails-Failing _ r w f)
  Fails-Failing _ r _ (in_assign key v k w f) = Fails-Failing k r _ f
  Fails-Failing _ r _ (in_erase key k w f) = Fails-Failing k r _ f
  Fails-Failing _ r _ (in_ask k w f) = Fails-Failing (k w.user) r w f
  Fails-Failing _ r _ (in_tell u k w f) = Fails-Failing k r _ f
  Fails-Failing _ r _ (in_nested call k h w e f) =
      elim_none Failing (nest call w).0 _ _ e (Fails-Failing k r _ f)
  Fails-Failing _ r _ (in_nested_thrown call k h e' w e f) =
      elim_some Failing (nest call w).0 e' _ _ e (Fails-Failing (h e') r _ f)

  -- What `caught` makes of a failed result
  caught-failed :
      (thrown : Option Thrown) (r : StepResult)
      → r.status ≡ StepStatus.failed
      → ((caught P nest started thrown r).status ≡ StepStatus.failed)
        ⊎ ((m : String) × ((thrown ≡ some (step_skipped m)) ⊎ (thrown ≡ some (step_pending m))))
  caught-failed none r f = inl f
  caught-failed (some e) r f = elim (handle_errors-status P e r) [
    | inl failed ↦ inl failed
    | inr (m, inl skipped) ↦ inr (m, inl (ap some skipped))
    | inr (m, inr pending) ↦ inr (m, inr (ap some pending))
  ]

  caught-passed :
      (thrown : Option Thrown) (r : StepResult)
      → (caught P nest started thrown r).status ≡ StepStatus.passed
      → (thrown ≡ none) × (r.status ≡ StepStatus.passed)
  caught-passed none r h = (refl, h)
  caught-passed (some e) r h = absurd (handle_errors-not_passed P e r h)

  -- A body whose execution comes to a failing assertion ends with the status failed, whatever it
  -- does before and after, unless it ends by the exception of `Skipped` or of `Pending`.
  pub Fails-failed :
      (body : Body P) (w : World P)
      → Fails body w
      → ((construct_and_execute P nest started body w).0.status ≡ StepStatus.failed)
        ⊎ ((m : String) × (((execute P nest started body (initial P nest started) w).0
                ≡ some (step_skipped m))
              ⊎ ((execute P nest started body (initial P nest started) w).0
                  ≡ some (step_pending m))))
  unfolding construct_and_execute
  Fails-failed body w f = caught-failed _ _ (Fails-Failing body _ w f)

  distinct : StepStatus.passed ≢ StepStatus.failed
  distinct h = ground arith

  -- A body that ends with the status passed has thrown nothing, and has come to no failing assertion.
  pub passed-not_Fails :
      (body : Body P) (w : World P)
      → (construct_and_execute P nest started body w).0.status ≡ StepStatus.passed
      → ((execute P nest started body (initial P nest started) w).0 ≡ none) × ¬ (Fails body w)
  unfolding construct_and_execute
  passed-not_Fails body w h =
      let (none_thrown, passed) = caught-passed _ _ h in
      (none_thrown, λ f. distinct (sym passed ∙ Fails-Failing body _ w f))
