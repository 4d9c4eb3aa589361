-- ===== src/Util/Duration.antt =====
-- Durations (cucumber_cpp/library/util/Duration.cpp and the division in `TimestampNow` of
-- cucumber_cpp/library/util/Timestamp.cpp). The parts of a message are of 64 bits, and their sums
-- wrap. Counts of `std::chrono` are natural numbers here, which they are below 2^63.
pub mod Laws
use amp_cucumber_cpp_runner.Prelude.{ℕ, ◌+◌, ◌*◌, ◌/◌, ◌%◌}
use amp_cucumber_cpp_runner.Messages.{Duration}

abbrev pub milliseconds_per_second : ℕ
milliseconds_per_second = 1000

abbrev pub nanoseconds_per_millisecond : ℕ
nanoseconds_per_millisecond = 1_000_000

abbrev pub nanoseconds_per_second : ℕ
nanoseconds_per_second = 1_000_000_000

-- `std::chrono::duration_cast` between seconds, milliseconds and nanoseconds
unfoldable pub to_millis : ℕ → ℕ → ℕ
to_millis seconds nanos = seconds * milliseconds_per_second + nanos / nanoseconds_per_millisecond

unfoldable pub milliseconds_to_duration : ℕ → Duration
milliseconds_to_duration millis = record {
  seconds = millis / milliseconds_per_second;
  nanos = (millis % milliseconds_per_second) * nanoseconds_per_millisecond;
}

unfoldable pub duration_to_milliseconds : Duration → ℕ
unfolding to_millis
duration_to_milliseconds d = to_millis d.seconds d.nanos

unfoldable pub duration_to_nano_seconds : Duration → ℕ
duration_to_nano_seconds d = d.seconds * nanoseconds_per_second + d.nanos

-- 2^64, for the parts of a message
abbrev pub part_modulus : ℕ
part_modulus = 18_446_744_073_709_551_616

unfoldable pub add : Duration → Duration → Duration
add lhs rhs =
    let total_nanos : ℕ = (lhs.nanos + rhs.nanos) % part_modulus in
    let seconds : ℕ = (lhs.seconds + rhs.seconds) % part_modulus in
    record {
      seconds = (seconds + total_nanos / nanoseconds_per_second) % part_modulus;
      nanos = total_nanos % nanoseconds_per_second;
    }
