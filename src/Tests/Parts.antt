-- ===== src/Tests/Parts.antt =====
-- The theorems about the parts that runs are made of, at concrete inputs.
use amp_cucumber_cpp_runner.Prelude.{
  arith, ◌+◌, ◌<◌, ◌≡◌, refl, ◌⊎◌, ◌∷◌, [], ◌++◌, true, false, none, some, String, List,
}
use amp_cucumber_cpp_runner.Messages.{Status, Duration, TestStepResult}
use amp_cucumber_cpp_runner.Messages.{Envelope}
use amp_cucumber_cpp_runner.Util.Broadcaster.{
  Broadcaster, add_listener, remove_listener, Event, happen_all,
}
use amp_cucumber_cpp_runner.Util.Broadcaster.Laws.{received, received_of_lifetime}
use amp_cucumber_cpp_runner.Util.Duration
use amp_cucumber_cpp_runner.Util.Duration.Laws.{nano_seconds-add}
use amp_cucumber_cpp_runner.Util.Worst.{result_of, get_worst_test_step_result}
use amp_cucumber_cpp_runner.Util.Worst.Laws.{IsFirstWorst, get_worst-IsFirstWorst}
use amp_cucumber_cpp_runner.Util.TestStepResultStatus.{StepStatus}
use amp_cucumber_cpp_runner.Util.TestStepResult.{StepOrHookStarted, step_started}
use amp_cucumber_cpp_runner.Util.Body.{
  Body, step_skipped, step_pending, TestPart, no_nested, execute, initial, construct_and_execute,
}
use amp_cucumber_cpp_runner.Util.Body.Outcome.{here, Fails-failed}
use amp_cucumber_cpp_runner.Tests.Sample.{plain, world}

abbrev broken : TestStepResult
broken = record {
  duration = record { seconds = 1; nanos = 500_000_000 };
  message = none;
  status = Status.failed;
  exception = some (record { type = "std::runtime_error"; message = "broken" });
}

-- A failing assertion behind which the body goes on to its end, and a body of nothing.
abbrev failing_part : TestPart
failing_part = record {
  failed = true;
  fatally_failed = false;
  file_name = "steps.cpp";
  line_number = 7;
  message = "Expected equality";
}

abbrev expecting : Body plain
expecting = Body.report failing_part Body.finish Body.throw

abbrev started : StepOrHookStarted
started = step_started (record { test_case_started_id = "tcs"; test_step_id = "s1" })

Fails-failed_example :
    ((construct_and_execute plain no_nested started expecting world).0.status ≡ StepStatus.failed)
    ⊎ ((m : String) × (((execute plain no_nested started expecting
              (initial plain no_nested started)
              world).0
            ≡ some (step_skipped m))
          ⊎ ((execute plain no_nested started expecting (initial plain no_nested started) world).0
              ≡ some (step_pending m))))
Fails-failed_example =
    Fails-failed no_nested started expecting world
      (here failing_part Body.finish Body.throw world refl)

finish_passes :
    (construct_and_execute plain no_nested started Body.finish world).0.status ≡ StepStatus.passed
unfolding construct_and_execute
finish_passes = refl

get_worst-IsFirstWorst_example :
    IsFirstWorst plain
      (get_worst_test_step_result plain
        (result_of Status.passed ∷ broken ∷ result_of Status.failed ∷ []))
      (result_of Status.passed ∷ broken ∷ result_of Status.failed ∷ [])
get_worst-IsFirstWorst_example =
    get_worst-IsFirstWorst plain (result_of Status.passed) (broken ∷ result_of Status.failed ∷ [])

abbrev long : Duration
long = record { seconds = 3; nanos = 700_000_000 }

nano_seconds-add_example :
    (Duration.duration_to_nano_seconds (Duration.add long long)
      ≡ Duration.duration_to_nano_seconds long + Duration.duration_to_nano_seconds long)
    × ((Duration.add long long).nanos < Duration.nanoseconds_per_second)
unfolding Duration.duration_to_nano_seconds
nano_seconds-add_example = nano_seconds-add long long (omega arith)

abbrev broadcaster : Broadcaster
broadcaster = record {
  archive = [];
  listeners = record { address = 1; on_event = true } ∷ [];
  calls = [];
}

abbrev first : Envelope
first = Envelope.test_run_started "run"

abbrev second : Envelope
second = Envelope.test_run_finished "run" true

-- While the listener lives, another one comes, and one that was there goes.
abbrev life : List Event
life =
    Event.sent first
    ∷ Event.added (record { address = 7; on_event = true })
    ∷ Event.removed 1
    ∷ Event.sent second
    ∷ []

received_of_lifetime_example :
    received 2
      (happen_all (Event.sent second ∷ []) (
        remove_listener 2 (
          happen_all life
            (add_listener (record { address = 2; on_event = true }) broadcaster)))).calls
    ≡ received 2 broadcaster.calls ++ (first ∷ second ∷ [])
received_of_lifetime_example =
    received_of_lifetime 2 life (Event.sent second ∷ []) broadcaster (refl, tt)
      (tt, (refl, (refl, (tt, tt)))) (tt, tt)
