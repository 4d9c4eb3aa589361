-- ===== src/Util/TestStepResultStatus.antt =====
-- `util::TestStepResultStatus` (cucumber_cpp/library/util/TestStepResultStatus.hpp) and its
-- translation to the messages' status.
use amp_cucumber_cpp_runner.Prelude.{ℕ}
use amp_cucumber_cpp_runner.Messages.{Status}

pub data StepStatus : Type 0 where
  unknown passed skipped pending undefined ambiguous failed : StepStatus

-- The number of an enumerator.
abbrev pub position : StepStatus → ℕ
position unknown = 0
position passed = 1
position skipped = 2
position pending = 3
position undefined = 4
position ambiguous = 5
position failed = 6

abbrev pub transform_status : StepStatus → Status
transform_status unknown = Status.unknown
transform_status passed = Status.passed
transform_status skipped = Status.skipped
transform_status pending = Status.pending
transform_status undefined = Status.undefined
transform_status ambiguous = Status.ambiguous
transform_status failed = Status.failed
