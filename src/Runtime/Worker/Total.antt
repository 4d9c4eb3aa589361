-- ===== src/Runtime/Worker/Total.antt =====
-- Which test cases a worker runs without an exception (cucumber_cpp/library/runtime/Worker.cpp).
use amp_cucumber_cpp_runner.Prelude.{
  ℕ, ◌+◌, ◌<◌, ◌≡◌, refl, inl, inr, Bool, true, false, ◌&&◌, ◌||◌, Option, none, some, All,
  Option-cases, ◌==◌, if◌then◌else◌, arith, Bool-cases,
}
use amp_cucumber_cpp_runner.Messages.{Pickle}
use amp_cucumber_cpp_runner.Platform.{Platform}
use amp_cucumber_cpp_runner.World.{World, ◌>>=◌}
use amp_cucumber_cpp_runner.World.Returns.{
  Returns, Returns-mono, Succeeds, pure-Returns, >>=-Returns,
}
use amp_cucumber_cpp_runner.Assemble.{AssembledTestCase}
use amp_cucumber_cpp_runner.Runtime.TestCaseRunner.{
  TestCaseRunner, size_modulus, attempts_allowed, check_repeat, has_value, make_test_case_runner,
}
use amp_cucumber_cpp_runner.Runtime.TestCaseRunner.Attempts.{run}
use amp_cucumber_cpp_runner.Runtime.TestCaseRunner.Total.{IsRunnable}
use amp_cucumber_cpp_runner.Runtime.TestCaseRunner.Retries.{run-Ran}
use amp_cucumber_cpp_runner.Runtime.Worker.{
  RuntimeOptions, Worker, retries_for_pickle, repeat_for_pickle, run_test_case,
}

-- Options that the worker's constructor accepts, with an expression for the tags to retry, and a
-- number of retries whose attempts do not overflow.
pub record IsValid {P : Platform} (o : RuntimeOptions P) : Type 0 where
  pub accepted : check_repeat o.retry o.repeat ≡ none
  pub retry_tags : P.TagExpression
  pub retry_tags-eq : o.retry_tag_expression ≡ some retry_tags
  pub retry-lt : 1 + o.retry < size_modulus

-- A repetition that is accepted is accepted with fewer options too.
check_repeat-none : (retries : ℕ) → check_repeat retries none ≡ none
check_repeat-none retries = refl

check_repeat_zero :
    (retries : ℕ) (repeat : Option ℕ)
    → check_repeat retries repeat ≡ none
    → check_repeat 0 repeat ≡ none
check_repeat_zero retries none h = refl
check_repeat_zero retries (some n) h = ground arith

attempts-positive :
    (retries : ℕ) (skip : Bool) (repeat : Option ℕ)
    → check_repeat retries repeat ≡ none
    → 1 + retries < size_modulus
    → 0 < attempts_allowed retries skip repeat
attempts-positive retries true repeat h less = omega arith
attempts-positive retries false none h less = omega arith
attempts-positive retries false (some n) h less = ground arith

-- A runner whose steps can be run, and that may make an attempt.
abbrev Ready : {P : Platform} → TestCaseRunner P → Type 0
Ready runner =
    All (IsRunnable runner.support runner.pickle) runner.test_case.test_steps
    × (0 < runner.maximum_attempts)

module _ {P : Platform} (worker : Worker P) (valid : IsValid worker.options) where
  open worker use {options, depth, support}

  repeat-accepted :
      (pickle : Pickle) (retries : ℕ)
      → check_repeat retries options.repeat ≡ none
      → check_repeat retries (repeat_for_pickle pickle options) ≡ none
  repeat-accepted pickle retries h = elim (Option-cases options.repeat_tag_expression) [
    | inl no_tags ↦ rw no_tags h
    | inr (e, tags) ↦ elim (Bool-cases (P.evaluate e pickle.tags)) [
      | inl applies ↦ rw (tags, applies) h
      | inr other ↦ rw (tags, other) refl
    ]
  ]

  abbrev Acceptable : ℕ → Type 0
  Acceptable retries = (check_repeat retries options.repeat ≡ none) × (1 + retries < size_modulus)

  chosen-Acceptable :
      (b : Bool) (x y : ℕ) → Acceptable x → Acceptable y → Acceptable (if b then x else y)
  chosen-Acceptable true x y hx hy = hx
  chosen-Acceptable false x y hx hy = hy

  retries-Acceptable :
      (pickle : Pickle) (w : World P)
      → Returns (λ retries v. Acceptable retries) (retries_for_pickle pickle options w)
  unfolding retries_for_pickle ◌>>=◌
  retries-Acceptable pickle w =
      let none_left = check_repeat_zero options.retry options.repeat valid.accepted in
      elim (Bool-cases (options.retry == 0)) [
        | inl no_retry ↦ rw no_retry (none_left, omega arith)
        | inr retry ↦
            rw (retry, valid.retry_tags-eq)
              (chosen-Acceptable (P.evaluate valid.retry_tags pickle.tags) options.retry 0
                (valid.accepted, valid.retry-lt) (none_left, omega arith))
      ]

  make-Ready :
      (c : AssembledTestCase) (retries : ℕ) (skip : Bool) (repeat : Option ℕ) (w : World P)
      → All (IsRunnable support c.pickle) c.test_case.test_steps
      → check_repeat retries repeat ≡ none
      → 1 + retries < size_modulus
      → Returns
          (λ runner v. Ready runner)
          (make_test_case_runner depth c.pickle c.test_case retries skip support repeat w)
  unfolding make_test_case_runner
  make-Ready c retries skip repeat w runnable accepted less =
      rw (make_test_case_runner, accepted)
        (pure-Returns (λ runner v. Ready runner)
          (record {
            pickle = c.pickle;
            test_case = c.test_case;
            maximum_attempts = attempts_allowed retries skip repeat;
            repeat = has_value repeat;
            skip = skip;
            support = support;
            depth = depth;
          })
          w (runnable, attempts-positive retries skip repeat accepted less))

  -- With options that are valid, a test case whose steps are known to the registries is run to its
  -- end by the worker, which answers whether it was a success, and never throws: whatever the tags
  -- say about retries and repetitions, and whatever the user's code does.
  pub run_test_case-Succeeds :
      (c : AssembledTestCase) (failing : Bool)
      → All (IsRunnable support c.pickle) c.test_case.test_steps
      → Succeeds (run_test_case worker c failing)
  unfolding run_test_case
  run_test_case-Succeeds c failing runnable = record {
    from = λ w.
        >>=-Returns (λ retries v. Acceptable retries) _ _ _ w (retries-Acceptable c.pickle w)
          λ retries v (accepted, less).
            >>=-Returns (λ runner u. Ready runner) _ _ _ v
              (make-Ready c retries (options.dry_run || (options.fail_fast && failing))
                (repeat_for_pickle c.pickle options) v runnable
                (repeat-accepted c.pickle retries accepted) less)
              λ runner u (steps, positive).
                >>=-Returns (λ status x. Unit) _ (run runner) _ u
                  (Returns-mono _ _ _ _ (run-Ran runner u steps positive) λ status x ran. tt)
                  λ status x t. pure-Returns _ _ x tt;
  }
