-- ===== src/Util/Duration/Laws.antt =====
-- Sums and conversions of durations (cucumber_cpp/library/util/Duration.cpp).
use amp_cucumber_cpp_runner.Prelude.{ℕ, ◌≡◌, ◌+◌, ◌<◌, arith}
use amp_cucumber_cpp_runner.Messages.{Duration}
use amp_cucumber_cpp_runner.Util.Duration.{
  nanoseconds_per_second, milliseconds_to_duration, duration_to_milliseconds,
  duration_to_nano_seconds, add,
}

-- Of two durations whose nanoseconds together are fewer than 2^63, which is some 292 years, the sum
-- stands for the sum of their nanoseconds, and its nanosecond part is less than a second.
pub nano_seconds-add :
    (a b : Duration)
    → duration_to_nano_seconds a + duration_to_nano_seconds b < 9_223_372_036_854_775_808
    → (duration_to_nano_seconds (add a b) ≡ duration_to_nano_seconds a + duration_to_nano_seconds b)
      × ((add a b).nanos < nanoseconds_per_second)
unfolding duration_to_nano_seconds add
nano_seconds-add a b h = omega (arith, h)

-- A count of milliseconds comes back from the duration made of it, whose nanosecond part is less
-- than a second.
pub milliseconds-of_milliseconds :
    (millis : ℕ)
    → (duration_to_milliseconds (milliseconds_to_duration millis) ≡ millis)
      × ((milliseconds_to_duration millis).nanos < nanoseconds_per_second)
unfolding duration_to_milliseconds milliseconds_to_duration
milliseconds-of_milliseconds millis = omega arith
