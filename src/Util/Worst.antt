-- ===== src/Util/Worst.antt =====
-- `util::GetWorstTestStepResult` (cucumber_cpp/library/util/GetWorstTestStepResult.cpp).
pub mod Laws
use amp_cucumber_cpp_runner.Prelude.{Bool, none, List, [], ◌∷◌, ltb, if◌then◌else◌}
use amp_cucumber_cpp_runner.Messages.{Status, Duration, TestStepResult}
use amp_cucumber_cpp_runner.Platform.{Platform}

-- `cucumber::messages::TestStepResult{ .status = status }`
abbrev pub result_of : Status → TestStepResult
result_of s = record {
  duration = record { seconds = 0; nanos = 0 };
  message = none;
  status = s;
  exception = none;
}

module _ (P : Platform) where
  abbrev pub compare : TestStepResult → TestStepResult → Bool
  compare a b = ltb (P.underlying a.status) (P.underlying b.status)

  -- `std::ranges::max_element` over a range that begins with `best`
  unfoldable pub max_element : TestStepResult → List TestStepResult → TestStepResult
  max_element best [] = best
  max_element best (x ∷ xs) = max_element (if compare best x then x else best) xs

  unfoldable pub get_worst_test_step_result : List TestStepResult → TestStepResult
  unfolding max_element
  get_worst_test_step_result [] = result_of Status.passed
  get_worst_test_step_result (x ∷ xs) = max_element x xs
