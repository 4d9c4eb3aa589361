-- ===== src/Formatter/Junit.antt =====
-- `JunitXmlFormatter` (cucumber_cpp/library/formatter/JunitXmlFormatter.cpp): the report of a run as
-- a suite of test cases.
pub mod Counts
pub mod Document
use mathlib.Core.Option
use amp_cucumber_cpp_runner.Prelude.{
  ℕ, ◌+◌, ◌*◌, ◌%◌, String, ◌<>◌, Bool, true, false, Option, none, some, List, [], ◌∷◌, ◌++◌, map,
  str_eq, if◌then◌else◌,
}
use amp_cucumber_cpp_runner.Messages.{Status, Duration, is_passed, is_skipped}
use amp_cucumber_cpp_runner.Platform.{Platform}
use amp_cucumber_cpp_runner.Util.Duration.{duration_to_milliseconds}
use amp_cucumber_cpp_runner.Api.TestNames.{trim}

-- `cucumber::messages::Exception` and the fields of a result that are reported
pub record ReportedException : Type 0 where
  pub type : String
  pub message : Option String
  pub stack_trace : Option String

pub record SevereResult : Type 0 where
  pub status : Status
  pub message : Option String
  pub exception : Option ReportedException

-- A finished step of a test case: its pickle step and its Gherkin step, where it is no hook
pub record FinishedStep : Type 0 where
  pub texts : Option (String × String)
  pub status : Status

-- What `cucumber::query` answers about a test case that was started: among it the name that its
-- naming strategy makes, and the most severe result
pub record StartedCase : Type 0 where
  pub feature_name : Option String
  pub uri : String
  pub long_name : String
  pub duration : Option Duration
  pub most_severe : Option SevereResult
  pub steps : List FinishedStep

-- What it answers about the run, with the number of test cases per most severe status
pub record Query : Type 0 where
  pub started : List StartedCase
  pub count : Status → ℕ
  pub tests : ℕ
  pub duration : Option Duration
  pub timestamp : Option String

-- What fmt, the standard library and the XML library make of values: a text that is filled up with
-- dots to a width, in small letters, and a number of milliseconds in seconds
pub record Texts : Type 0 where
  pub pad : ℕ → String → String
  pub lower : String → String
  pub seconds : ℕ → String

pub data FailureKind : Type 0 where
  failure skipped : FailureKind

pub record ReportFailure : Type 0 where
  pub kind : FailureKind
  pub type : Option String
  pub message : Option String
  pub stack : Option String

pub record ReportTestCase : Type 0 where
  pub classname : String
  pub name : String
  pub time : ℕ
  pub reported : Option ReportFailure
  pub output : String

pub record ReportSuite : Type 0 where
  pub time : ℕ
  pub tests : ℕ
  pub skipped_tests : ℕ
  pub failures : ℕ
  pub errors : ℕ
  pub test_cases : List ReportTestCase
  pub timestamp : Option String

abbrev kind_of : Status → FailureKind
kind_of status = if is_skipped status then skipped else failure

abbrev exception_message : Option ReportedException → Option String
exception_message none = none
exception_message (some exception) = exception.message

abbrev stack_or : Option ReportedException → Option String → Option String
stack_or none message = message
stack_or (some exception) message = exception.stack_trace

-- `MakeFailure`, of the most severe result
abbrev pub make_failure : Option SevereResult → Option ReportFailure
make_failure none = none
make_failure (some result) =
    if is_passed result.status
    then none
    else some (record {
      kind = kind_of result.status;
      type = Option.map (λ exception. exception.type) result.exception;
      message = exception_message result.exception;
      stack = stack_or result.exception result.message;
    })

abbrev duration_or_zero : Option Duration → ℕ
duration_or_zero none = duration_to_milliseconds (record { seconds = 0; nanos = 0 })
duration_or_zero (some duration) = duration_to_milliseconds duration

abbrev name_or {ℓ} : {A : Type ℓ} → Option A → A → A
name_or none default = default
name_or (some a) default = a

module _ (P : Platform) (texts : Texts) where
  -- `FormatStep`
  abbrev format_step : String → String → Status → String
  format_step keyword text status =
      texts.pad 76 (trim keyword <> " " <> trim text) <> texts.lower (P.status_name status)

  -- The lines of `MakeOutput`: one for each step that is no hook
  abbrev step_lines : List FinishedStep → List String
  step_lines [] = []
  step_lines (step ∷ steps) = elim step.texts [
    | none ↦ step_lines steps
    | some (keyword, text) ↦ format_step keyword text step.status ∷ step_lines steps
  ]

  abbrev join_lines : List String → String
  join_lines [] = ""
  join_lines (line ∷ []) = line
  join_lines (line ∷ next ∷ lines) = line <> "\n" <> join_lines (next ∷ lines)

  -- `MakeOutput`
  abbrev make_output : List FinishedStep → String
  make_output steps = "\n" <> join_lines (step_lines steps) <> "\n"

  abbrev pub make_test_case : Option String → StartedCase → ReportTestCase
  make_test_case class_name started = record {
    classname = name_or class_name (name_or started.feature_name started.uri);
    name = started.long_name;
    time = duration_or_zero started.duration;
    reported = make_failure started.most_severe;
    output = make_output started.steps;
  }

  -- `MakeTestCases`
  unfoldable pub make_test_cases : Option String → List StartedCase → List ReportTestCase
  make_test_cases class_name [] = []
  make_test_cases class_name (started ∷ cases) =
      make_test_case class_name started ∷ make_test_cases class_name cases

  -- `MakeReport`
  unfoldable pub make_report : Query → Option String → ReportSuite
  unfolding make_test_cases
  make_report query class_name = record {
    time = duration_or_zero query.duration;
    tests = query.tests;
    skipped_tests = query.count Status.skipped;
    failures =
        query.count Status.unknown
        + query.count Status.pending
        + query.count Status.undefined
        + query.count Status.ambiguous
        + query.count Status.failed;
    errors = 0;
    test_cases = make_test_cases class_name query.started;
    timestamp = query.timestamp;
  }
