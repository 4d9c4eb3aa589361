-- ===== src/Util/Body.antt =====
-- The body of a step or a hook, and its execution: cucumber_cpp/library/util/Body.cpp and
-- cucumber_cpp/library/util/ExecuteAndCatchExceptions.hpp. The user's code is a tree of the calls
-- that it can make on the library. Where a call can throw, the tree goes on after the exception
-- too: with what the body's own handlers and destructors (`TearDown` among them) do.
pub mod Laws
pub mod Outcome
use amp_cucumber_cpp_runner.Prelude.{
  ℕ, zero, suc, ◌+◌, ◌/◌, ◌%◌, String, ◌<>◌, Bool, true, false, Option, none, some, str_eq,
  if◌then◌else◌,
}
use amp_cucumber_cpp_runner.Messages.{
  is_passed, Exception, TestStepResult, PickleTable, PickleDocString,
}
use amp_cucumber_cpp_runner.Context
use amp_cucumber_cpp_runner.Platform.{Platform}
use amp_cucumber_cpp_runner.World.{World, broadcast}
use amp_cucumber_cpp_runner.Util.TestStepResultStatus.{StepStatus}
use amp_cucumber_cpp_runner.Util.TestStepResult.{StepResult, StepOrHookStarted}
use amp_cucumber_cpp_runner.Util.Duration.{nanoseconds_per_second}
use amp_cucumber_cpp_runner.Engine.Attachment.{Media, attach_text, attach_data}

-- What leaves a body, by the handlers of `HandleErrors`: a `std::exception` has the name of its
-- type and its text.
pub data Thrown : Type 0 where
  nested_error : (nesting : ℕ) (status : TestStepResult) (text : String) → Thrown
  step_skipped step_pending fatal_error : (message : String) → Thrown
  standard : (type what : String) → Thrown
  other : Thrown
  -- No handler is reached: nested steps go deeper than the model follows them.
  stack_exhausted : Thrown

-- `testing::TestPartResult`
pub record TestPart : Type 0 where
  pub failed : Bool
  pub fatally_failed : Bool
  pub file_name : String
  pub line_number : ℕ
  pub message : String

-- The arguments of `NestedTestCaseRunner::Step`
pub record NestedCall : Type 0 where
  pub text : String
  pub data_table : Option PickleTable
  pub doc_string : Option PickleDocString

pub data Body (P : Platform) : Type 0 where
  -- the end of the body
  finish : Body P
  throw : Thrown → Body P
  -- an assertion's outcome, reported to the listener of the innermost body
  report : TestPart → Body P → (Thrown → Body P) → Body P
  attach attach_stream : String → Media → Body P → Body P
  contains : String → (Bool → Body P) → Body P
  get : String → (P.Value → Body P) → (Thrown → Body P) → Body P
  assign : String → P.Value → Body P → Body P
  erase : String → Body P → Body P
  -- a look at, and a change of, what the user's own code holds
  ask : (P.User → Body P) → Body P
  tell : P.User → Body P → Body P
  -- `StepBase::Step`
  nested : NestedCall → Body P → (Thrown → Body P) → Body P

-- What a nested step throws, if it throws.
abbrev pub NestedRunner : Platform → Type 0
NestedRunner P = NestedCall → World P → Option Thrown × World P

-- A hook's body has no nested runner, and no `nested` in it.
abbrev pub no_nested : {P : Platform} → NestedRunner P
no_nested call w = (some stack_exhausted, w)

module _ (P : Platform) where
  abbrev failure_text : TestPart → String
  failure_text part =
      P.relative_path part.file_name
      <> ":"
      <> P.to_decimal part.line_number
      <> ": Failure\n"
      <> part.message

  -- The effect of `ReportTestPartResult` on the result, before it throws on a fatal failure.
  unfoldable pub report_test_part_result : TestPart → StepResult → StepResult
  report_test_part_result part r =
      if part.failed
      then record r {
        status = StepStatus.failed;
        message =
            some (elim r.message [
              | some m ↦ m <> "\n" <> failure_text part
              | none ↦ failure_text part
            ]);
      }
      else r

  abbrev spaces : ℕ → String
  spaces zero = ""
  spaces (suc n) = " " <> spaces n

  abbrev nested_heading : ℕ → TestStepResult → String → String
  nested_heading nesting status text =
      spaces nesting <> " " <> P.status_name status.status <> " nested step: \"* " <> text <> "\""

  abbrev nested_message : ℕ → TestStepResult → String → String
  nested_message nesting status text = elim status.message [
    | some m ↦ nested_heading nesting status text <> "\n" <> spaces nesting <> " " <> m
    | none ↦ nested_heading nesting status text
  ]

  abbrev or_keep : String → Option String → Option String
  or_keep message old = if str_eq message "" then old else some message

  unfoldable pub handle_errors : Thrown → StepResult → StepResult
  handle_errors (nested_error nesting status text) r =
      if is_passed status.status then record r { status = StepStatus.failed } else record r {
        status = StepStatus.failed;
        message = some (nested_message nesting status text);
      }
  handle_errors (step_skipped m) r = record r {
    status = StepStatus.skipped;
    message = or_keep m r.message;
  }
  handle_errors (step_pending m) r = record r {
    status = StepStatus.pending;
    message = or_keep m r.message;
  }
  handle_errors (fatal_error m) r = record r { status = StepStatus.failed }
  handle_errors (standard type what) r = record r {
    status = StepStatus.failed;
    exception = some (record { type = type; message = what });
  }
  handle_errors other r = record r {
    status = StepStatus.failed;
    exception = some (record { type = "unknown"; message = "unknown exception" });
  }
  handle_errors stack_exhausted r = record r { status = StepStatus.failed }

  module _ (nest : NestedRunner P) (started : StepOrHookStarted) where
    -- `bodyFactory(testStepResult)->Execute(args)`: what it throws, the result that it was given,
    -- as its assertions left it, and the state.
    unfoldable pub execute : Body P → StepResult → World P → Option Thrown × StepResult × World P
    execute finish r w = (none, r, w)
    execute (throw e) r w = (some e, r, w)
    execute (report part k h) r w = elim part.fatally_failed [
      | true ↦ execute (h (fatal_error part.message)) (report_test_part_result part r) w
      | false ↦ execute k (report_test_part_result part r) w
    ]
    execute (attach text media k) r w = execute k r (attach_text text media started w).1
    execute (attach_stream text media k) r w = execute k r (attach_data text media started w).1
    execute (contains key k) r w = execute (k (Context.contains key w.context)) r w
    execute (get key k h) r w = elim (Context.get key w.context) [
      | none ↦ execute (h (standard "KeyNotFound" key)) r w
      | some v ↦ execute (k v) r w
    ]
    execute (assign key v k) r w =
        execute k r (record w { context = Context.assign key v w.context })
    execute (erase key k) r w = execute k r (record w { context = Context.erase key w.context })
    execute (ask k) r w = execute (k w.user) r w
    execute (tell u k) r w = execute k r (record w { user = u })
    execute (nested call k h) r w =
        let (thrown, w') = nest call w in
        elim thrown [ none ↦ execute k r w' | some e ↦ execute (h e) r w' ]

    abbrev pub initial : StepResult
    initial = record {
      duration = record { seconds = 0; nanos = 0 };
      message = none;
      status = StepStatus.passed;
      exception = none;
    }

    abbrev pub caught : Option Thrown → StepResult → StepResult
    caught none r = r
    caught (some e) r = handle_errors e r

    abbrev pub timed : ℕ → StepResult → StepResult
    timed nanoseconds r = record r {
      duration = record {
        seconds = nanoseconds / nanoseconds_per_second;
        nanos = nanoseconds % nanoseconds_per_second;
      };
    }

    unfoldable pub construct_and_execute : Body P → World P → StepResult × World P
    unfolding execute handle_errors report_test_part_result
    construct_and_execute body w =
        let (thrown, r, w') = execute body initial w in
        (timed (P.elapsed w'.measured) (caught thrown r), record w' { measured = w'.measured + 1 })
