-- ===== src/Formatter/Usage/Mean.antt =====
-- The mean of durations lies between them.
use native.Mathlib.Nat.{mul-suc, suc-mul, le-div_iff_mul-le, div-lt_iff_lt-mul}
use amp_cucumber_cpp_runner.Prelude.{ℕ, suc, ◌*◌, ◌/◌, ◌≤◌, ◌≡◌, List, [], ◌∷◌, length, All, arith}
use amp_cucumber_cpp_runner.Formatter.Usage.{
  UsageMatch, nanoseconds, valid_durations, total, mean_of, calculate_mean_duration,
}

total-least : (low : ℕ) (ns : List ℕ) → All (λ n. low ≤ n) ns → low * length ns ≤ total ns
total-least low [] h = omega arith
total-least low (n ∷ ns) (h, hs) = omega (arith, mul-suc low (length ns), h, total-least low ns hs)

total-greatest : (high : ℕ) (ns : List ℕ) → All (λ n. n ≤ high) ns → total ns ≤ high * length ns
total-greatest high [] h = omega arith
total-greatest high (n ∷ ns) (h, hs) =
    omega (arith, mul-suc high (length ns), h, total-greatest high ns hs)

mean_of-between :
    (ns : List ℕ) (low high mean : ℕ)
    → mean_of ns ≡ nanoseconds mean
    → All (λ n. low ≤ n) ns
    → All (λ n. n ≤ high) ns
    → (low ≤ mean) × (mean ≤ high)
mean_of-between [] low high mean e hl hh = cc e
mean_of-between (n ∷ ns) low high mean e hl hh =
    let sum = total (n ∷ ns) in
    let count = length (n ∷ ns) in
    let is_mean : sum / count ≡ mean = cc e in
    let least = total-least low (n ∷ ns) hl in
    let greatest = total-greatest high (n ∷ ns) hh in
    let below = (le-div_iff_mul-le {k = count} {x = low} {y = sum} (omega arith)).1 least in
    let above =
      (div-lt_iff_lt-mul {k = count} {x = sum} {y = suc high} (omega arith)).1
        (omega (arith, suc-mul high count, greatest)) in
    (omega (arith, below, is_mean), omega (arith, above, is_mean))

-- Where the mean of the matches is a number, it lies between any bounds on the durations of those
-- matches that have been executed.
pub calculate_mean_duration-between :
    (matches : List UsageMatch) (low high mean : ℕ)
    → calculate_mean_duration matches ≡ nanoseconds mean
    → All (λ n. low ≤ n) (valid_durations matches)
    → All (λ n. n ≤ high) (valid_durations matches)
    → (low ≤ mean) × (mean ≤ high)
unfolding calculate_mean_duration
calculate_mean_duration-between [] low high mean e hl hh = cc e
calculate_mean_duration-between (used ∷ matches) low high mean e hl hh =
    mean_of-between (valid_durations (used ∷ matches)) low high mean e hl hh
