-- ===== src/Util/Worst/Laws.antt =====
-- Which of several results is the worst (cucumber_cpp/library/util/GetWorstTestStepResult.cpp).
use amp_cucumber_cpp_runner.Prelude.{
  ℕ, ◌≡◌, refl, ◌⊎◌, inl, inr, ◌≤◌, ◌<◌, List, [], ◌∷◌, arith, All, Bool-cases, ltb→lt,
  ltb-false→le,
}
use amp_cucumber_cpp_runner.Messages.{Status, TestStepResult}
use amp_cucumber_cpp_runner.Util.TestStepResultStatus.{StepStatus}
use amp_cucumber_cpp_runner.Platform.{Platform, IsOrdered}
use amp_cucumber_cpp_runner.Util.Worst.{compare, max_element, get_worst_test_step_result}

module _ (P : Platform) where
  abbrev pub rank : TestStepResult → ℕ
  rank r = P.underlying r.status

  -- `worst` stands in the list, every result before it is better, and none after it is worse.
  pub data IsFirstWorst (worst : TestStepResult) : List TestStepResult → Type 0 where
    here :
        (xs : List TestStepResult)
        → All (λ x. rank x ≤ rank worst) xs
        → IsFirstWorst worst (worst ∷ xs)
    later :
        (x : TestStepResult) {xs : List TestStepResult}
        → rank x < rank worst
        → IsFirstWorst worst xs
        → IsFirstWorst worst (x ∷ xs)

  -- A result that is no worse may be put behind the first one.
  insert_second :
      (m best x : TestStepResult) {xs : List TestStepResult}
      → rank x ≤ rank best
      → IsFirstWorst m (best ∷ xs)
      → IsFirstWorst m (best ∷ x ∷ xs)
  insert_second m best x h (here xs a) = here (x ∷ xs) (h, a)
  insert_second m best x h (later b k f) = later best k (later x (omega arith) f)

  rank-head :
      (m x : TestStepResult) {xs : List TestStepResult} → IsFirstWorst m (x ∷ xs) → rank x ≤ rank m
  rank-head m x (here xs a) = omega arith
  rank-head m x (later b k f) = omega arith

  max_element-IsFirstWorst :
      (best : TestStepResult) (xs : List TestStepResult)
      → IsFirstWorst (max_element P best xs) (best ∷ xs)
  unfolding max_element
  max_element-IsFirstWorst best [] = here [] tt
  max_element-IsFirstWorst best (x ∷ xs) = elim (Bool-cases (compare P best x)) [
    | inl worse ↦ rw worse (
        let ih = max_element-IsFirstWorst x xs in
        later best (omega (arith, ltb→lt _ _ worse, rank-head _ x ih)) ih)
    | inr no_worse ↦
        rw no_worse
          (insert_second _ best x (ltb-false→le _ _ no_worse) (max_element-IsFirstWorst best xs))
  ]

  -- Of results that are not none, `GetWorstTestStepResult` takes the first among the most severe.
  pub get_worst-IsFirstWorst :
      (x : TestStepResult) (xs : List TestStepResult)
      → IsFirstWorst (get_worst_test_step_result P (x ∷ xs)) (x ∷ xs)
  unfolding get_worst_test_step_result
  get_worst-IsFirstWorst x xs = max_element-IsFirstWorst x xs

  pub IsFirstWorst-All :
      (m : TestStepResult) (xs : List TestStepResult)
      → IsFirstWorst m xs
      → All (λ x. rank x ≤ rank m) xs
  IsFirstWorst-All m xs (here ys a) = (omega arith, a)
  IsFirstWorst-All m xs (later x {xs = ys} k f) = (omega arith, IsFirstWorst-All m ys f)

module _ (P : Platform) (ordered : IsOrdered P) where
  abbrev pub Clean : TestStepResult → Type 0
  Clean r = (r.status ≡ Status.passed) ⊎ (r.status ≡ Status.unknown)

  passed_below :
      (s : Status)
      → P.underlying s ≤ P.underlying Status.passed
      → (s ≡ Status.passed) ⊎ (s ≡ Status.unknown)
  passed_below Status.unknown h = inr refl
  passed_below Status.passed h = inl refl
  passed_below Status.skipped h =
      absurd
        (omega (arith, ordered.underlying-lt StepStatus.passed StepStatus.skipped (omega arith)))
  passed_below Status.pending h =
      absurd
        (omega (arith, ordered.underlying-lt StepStatus.passed StepStatus.pending (omega arith)))
  passed_below Status.undefined h =
      absurd
        (omega (arith, ordered.underlying-lt StepStatus.passed StepStatus.undefined (omega arith)))
  passed_below Status.ambiguous h =
      absurd
        (omega (arith, ordered.underlying-lt StepStatus.passed StepStatus.ambiguous (omega arith)))
  passed_below Status.failed h =
      absurd
        (omega (arith, ordered.underlying-lt StepStatus.passed StepStatus.failed (omega arith)))
