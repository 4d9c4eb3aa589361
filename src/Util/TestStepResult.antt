-- ===== src/Util/TestStepResult.antt =====
-- `util::TestStepResult` (cucumber_cpp/library/util/TestStepResult.hpp), what starts a step or a
-- hook, and the translation of a result to the messages' type.
use amp_cucumber_cpp_runner.Prelude.{String, Option}
use amp_cucumber_cpp_runner.Messages.{Duration, Exception, TestStepResult}
use amp_cucumber_cpp_runner.Util.TestStepResultStatus.{StepStatus, transform_status}

pub record StepResult : Type 0 where
  pub duration : Duration
  pub message : Option String
  pub status : StepStatus
  pub exception : Option Exception

abbrev pub transform_result : StepResult → TestStepResult
transform_result r = record {
  duration = r.duration;
  message = r.message;
  status = transform_status r.status;
  exception = r.exception;
}

pub record TestStepStarted : Type 0 where
  pub test_case_started_id : String
  pub test_step_id : String

-- `util::TestRunHookStarted`. Its field holds the id of the hook's start, in spite of its name:
-- `TransformTestRunHookStarted` fills it so.
pub record TestRunHookStarted : Type 0 where
  pub test_run_started_id : String

pub data StepOrHookStarted : Type 0 where
  step_started : TestStepStarted → StepOrHookStarted
  hook_started : TestRunHookStarted → StepOrHookStarted
