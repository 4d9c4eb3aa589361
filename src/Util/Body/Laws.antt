-- ===== src/Util/Body/Laws.antt =====
-- What executions keep, whatever the user's code does.
use amp_cucumber_cpp_runner.Prelude.{elim_Option, elim_Bool, ◌+◌, String, Option}
use amp_cucumber_cpp_runner.Messages.{Attachment, Envelope}
use amp_cucumber_cpp_runner.Context
use amp_cucumber_cpp_runner.Platform.{Platform}
use amp_cucumber_cpp_runner.World.{World, broadcast}
use amp_cucumber_cpp_runner.World.Keeps.{IsPreorder}
use amp_cucumber_cpp_runner.Util.TestStepResult.{StepResult, StepOrHookStarted}
use amp_cucumber_cpp_runner.Util.Body.{
  Body, finish, throw, report, attach, attach_stream, contains, get, assign, erase, ask, tell,
  nested, Thrown, fatal_error, standard, NestedCall, NestedRunner, report_test_part_result, execute,
  construct_and_execute,
}

-- A relation that every single call of a body on the library respects.
pub record AllowsBodies {P : Platform} (R : World P → World P → Type 0) : Type 0 where
  pub attaching : (a : Attachment) (w : World P) → R w (broadcast (Envelope.attachment a) w).1
  pub assigning :
      (key : String) (v : P.Value) (w : World P)
      → R w (record w { context = Context.assign key v w.context })
  pub erasing :
      (key : String) (w : World P) → R w (record w { context = Context.erase key w.context })
  pub telling : (u : P.User) (w : World P) → R w (record w { user = u })
  pub measuring : (w : World P) → R w (record w { measured = w.measured + 1 })

abbrev pub NestedKeeps : {P : Platform} → (World P → World P → Type 0) → NestedRunner P → Type 0
NestedKeeps {P} R nest = (call : NestedCall) (w : World P) → R w (nest call w).1

module _ {P : Platform} {R : World P → World P → Type 0} (pre : IsPreorder R)
    (allows : AllowsBodies R) (nest : NestedRunner P) (nest_keeps : NestedKeeps R nest)
    (started : StepOrHookStarted) where
  execute-Keeps :
      (body : Body P) (r : StepResult) (w : World P) → R w (execute P nest started body r w).2
  unfolding execute
  execute-Keeps finish r w = pre.same w
  execute-Keeps (throw e) r w = pre.same w
  execute-Keeps (report part k h) r w =
      elim_Bool (λ (t : Option Thrown × StepResult × World P). R w t.2) part.fatally_failed _ _
        (execute-Keeps (h (fatal_error part.message)) (report_test_part_result P part r) w)
        (execute-Keeps k (report_test_part_result P part r) w)
  execute-Keeps (attach text media k) r w =
      pre.trans _ _ _ (allows.attaching _ w) (execute-Keeps k r _)
  execute-Keeps (attach_stream text media k) r w =
      pre.trans _ _ _ (allows.attaching _ w) (execute-Keeps k r _)
  execute-Keeps (contains key k) r w = execute-Keeps (k (Context.contains key w.context)) r w
  execute-Keeps (get key k h) r w =
      elim_Option (λ (t : Option Thrown × StepResult × World P). R w t.2)
        (Context.get key w.context) _ _ (execute-Keeps (h (standard "KeyNotFound" key)) r w)
        (λ v. execute-Keeps (k v) r w)
  execute-Keeps (assign key v k) r w =
      pre.trans _ _ _ (allows.assigning key v w) (execute-Keeps k r _)
  execute-Keeps (erase key k) r w = pre.trans _ _ _ (allows.erasing key w) (execute-Keeps k r _)
  execute-Keeps (ask k) r w = execute-Keeps (k w.user) r w
  execute-Keeps (tell u k) r w = pre.trans _ _ _ (allows.telling u w) (execute-Keeps k r _)
  execute-Keeps (nested call k h) r w =
      elim_Option (λ (t : Option Thrown × StepResult × World P). R w t.2) (nest call w).0 _ _
        (pre.trans _ _ _ (nest_keeps call w) (execute-Keeps k r (nest call w).1))
        (λ e. pre.trans _ _ _ (nest_keeps call w) (execute-Keeps (h e) r (nest call w).1))

  pub construct_and_execute-Keeps :
      (body : Body P) (w : World P) → R w (construct_and_execute P nest started body w).1
  unfolding construct_and_execute
  construct_and_execute-Keeps body w = pre.trans _ _ _ (execute-Keeps body _ w) (allows.measuring _)
