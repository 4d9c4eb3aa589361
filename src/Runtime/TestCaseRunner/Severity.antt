-- ===== src/Runtime/TestCaseRunner/Severity.antt =====
-- How severe the results are that the steps of an attempt broadcast.
use amp_cucumber_cpp_runner.Prelude.{
  ℕ, ◌≤◌, ◌≡◌, refl, sym, ◌∙◌, List, [], ◌∷◌, ◌++◌, append_assoc, append-nil, arith, All,
  All-append, All-mono, String, elim_Option,
}
use amp_cucumber_cpp_runner.Messages.{TestStepResult, TestStep, Envelope}
use amp_cucumber_cpp_runner.Platform.{Platform}
use amp_cucumber_cpp_runner.World.{World, M, broadcast, next_id, Result, ok, err}
use amp_cucumber_cpp_runner.World.Keeps.{IsPreorder, Keeps}
use amp_cucumber_cpp_runner.World.Returns.{Returns, Returns-weaken, pure-Returns, >>=-Returns}
use amp_cucumber_cpp_runner.World.Yields.{Yields, OnOk, >>-Yields, pure-Yields}
use amp_cucumber_cpp_runner.Util.TestStepResult.{TestStepStarted}
use amp_cucumber_cpp_runner.Util.Worst.Laws.{rank}
use amp_cucumber_cpp_runner.Runtime.TestCaseRunner.{TestCaseRunner, Progress, run_hook_or_step}
use amp_cucumber_cpp_runner.Runtime.TestCaseRunner.Attempts.{
  last_result, run_test_step, run_test_steps,
}
use amp_cucumber_cpp_runner.Runtime.TestCaseRunner.Keeps.{AllowsSteps, run_hook_or_step-Keeps}
use amp_cucumber_cpp_runner.Runtime.TestCaseRunner.Total.{IsRunnable, run_hook_or_step-Succeeds}

module _ (P : Platform) where
  -- The severity of the result in a message that a step or hook has finished.
  abbrev pub severity : Envelope → ℕ
  severity (Envelope.test_step_finished started_id step_id r) = P.underlying r.status
  severity _ = 0

  abbrev pub AtMost : ℕ → List Envelope → Type 0
  AtMost k = All (λ e. severity e ≤ k)

  -- New messages have been broadcast, none of a greater severity.
  abbrev pub Grown : ℕ → World P → World P → Type 0
  Grown k w v = (new : List Envelope) × ((v.events ≡ w.events ++ new) × AtMost k new)

  pub Grown-IsPreorder : (k : ℕ) → IsPreorder (Grown k)
  Grown-IsPreorder k = record {
    same = λ w. ([], (sym (append-nil w.events), tt));
    trans = λ u v w (xs, (e, p)) (ys, (f, q)).
        (xs ++ ys, (f ∙ rw e (append_assoc u.events xs ys), All-append _ xs ys p q));
  }

  pub Grown-mono : (j k : ℕ) (w v : World P) → j ≤ k → Grown j w v → Grown k w v
  Grown-mono j k w v h (new, (e, p)) = (new, (e, All-mono _ _ new (λ x q. omega (arith, q, h)) p))

  pub broadcast-Grown :
      (k : ℕ) (e : Envelope) (w : World P) → severity e ≤ k → Grown k w (broadcast {P = P} e w).1
  unfolding broadcast
  broadcast-Grown k e w h = (e ∷ [], (refl, (h, tt)))

  -- Two quiet stretches, and a message behind them
  pub broadcast_after_quiet :
      (k : ℕ) (e : Envelope) (w v u : World P)
      → Grown 0 w v
      → Grown 0 v u
      → severity e ≤ k
      → Grown k w (broadcast {P = P} e u).1
  broadcast_after_quiet k e w v u g h s =
      (Grown-IsPreorder k).trans w v (broadcast e u).1 (Grown-mono 0 k w v (omega arith) g) (
        (Grown-IsPreorder k).trans v u (broadcast e u).1 (Grown-mono 0 k v u (omega arith) h)
          (broadcast-Grown k e u s))

  pub broadcast-Returns :
      (Q : World P → Type 0) (e : Envelope) (w : World P)
      → Q (broadcast {P = P} e w).1
      → Returns (λ u v. Q v) (broadcast {P = P} e w)
  unfolding broadcast
  broadcast-Returns Q e w q = q

  Quiet-AllowsSteps : AllowsSteps (Grown 0)
  unfolding next_id
  Quiet-AllowsSteps = record {
    bodies = record {
      attaching = λ a w. broadcast-Grown 0 (Envelope.attachment a) w (omega arith);
      assigning = λ key v w. (Grown-IsPreorder 0).same w;
      erasing = λ key w. (Grown-IsPreorder 0).same w;
      telling = λ u w. (Grown-IsPreorder 0).same w;
      measuring = λ w. (Grown-IsPreorder 0).same w;
    };
    issuing = record { from = λ w. (Grown-IsPreorder 0).same w };
    suggesting = λ id step_id. record {
      from = λ w. broadcast-Grown 0 (Envelope.suggestion id step_id) w (omega arith);
    };
  }

  abbrev pub Bounded : ℕ → List TestStepResult → Type 0
  Bounded k = All (λ r. rank P r ≤ k)

  Bounded-left : (k : ℕ) (xs ys : List TestStepResult) → Bounded k (xs ++ ys) → Bounded k xs
  Bounded-left k [] ys h = tt
  Bounded-left k (x ∷ xs) ys (h, hs) = (h, Bounded-left k xs ys hs)

  last-Bounded :
      (k : ℕ) (xs : List TestStepResult) (r : TestStepResult)
      → Bounded k (xs ++ (r ∷ []))
      → rank P (last_result (xs ++ (r ∷ []))) ≤ k
  last-Bounded k [] r (h, t) = h
  last-Bounded k (x ∷ []) r (h, (k', t)) = k'
  last-Bounded k (x ∷ y ∷ xs) r (h, hs) = last-Bounded k (y ∷ xs) r hs

module _ {P : Platform} (runner : TestCaseRunner P) where
  -- One more result
  abbrev Extends : Progress → Progress → Type 0
  Extends p p' = (r : TestStepResult) × (p'.results ≡ p.results ++ (r ∷ []))

  Any-IsPreorder : IsPreorder (λ (w v : World P). Unit)
  Any-IsPreorder = record { same = λ w. tt; trans = λ u v w p q. tt }

  anything : {A : Type 0} (m : M P A) → Keeps (λ (w v : World P). Unit) m
  anything m = record { from = λ w. tt }

  run_hook_or_step-Extends :
      (s : TestStep) (started : TestStepStarted) (p : Progress)
      → Yields (λ w v. Unit) (Extends p) (run_hook_or_step runner s started p)
  unfolding run_hook_or_step
  run_hook_or_step-Extends s started p =
      elim_Option (Yields (λ (w v : World P). Unit) (Extends p)) s.hook_id _ _
        (>>-Yields Any-IsPreorder _ _ _ (anything _) λ id.
          >>-Yields Any-IsPreorder _ _ _ (anything _) λ pickle_step.
            >>-Yields Any-IsPreorder _ _ _ (anything _)
              λ r. pure-Yields Any-IsPreorder _ _ (r, refl))
        λ hook_id. >>-Yields Any-IsPreorder _ _ _ (anything _) λ d.
          >>-Yields Any-IsPreorder _ _ _ (anything _) λ r. pure-Yields Any-IsPreorder _ _ (r, refl)

  -- What was broadcast is at most as severe as any bound on the results.
  abbrev pub Covered : World P → Progress → World P → Type 0
  Covered w p v = (k : ℕ) → Bounded P k p.results → Grown P k w v

  abbrev pub Longer : Progress → Progress → Type 0
  Longer p p' = (new : List TestStepResult) × (p'.results ≡ p.results ++ new)

  hook_or_step-Returns :
      (s : TestStep) (started : TestStepStarted) (p : Progress) (w : World P)
      → IsRunnable runner.support runner.pickle s
      → Returns (λ p' v. Grown P 0 w v × Extends p p') (run_hook_or_step runner s started p w)
  hook_or_step-Returns s started p w h =
      go _ _
        ((run_hook_or_step-Keeps (Grown-IsPreorder P 0) (Quiet-AllowsSteps P) runner s started
            p).from
          w)
        ((run_hook_or_step-Extends s started p).from w).1
        ((run_hook_or_step-Succeeds runner s started p h).from w)
    where
      go :
          (r : Result Progress) (v : World P)
          → Grown P 0 w v
          → OnOk (Extends p) r
          → Returns (λ p' v. Unit) (r, v)
          → Returns (λ p' v. Grown P 0 w v × Extends p p') (r, v)
      go (ok p') v g e t = (g, e)
      go (err e) v g x t = t

  run_test_step-Covered :
      (id : String) (s : TestStep) (p : Progress) (w : World P)
      → IsRunnable runner.support runner.pickle s
      → Returns (λ p' v. Longer p p' × Covered w p' v) (run_test_step runner id s p w)
  unfolding run_test_step
  run_test_step-Covered id s p w h =
      >>=-Returns (λ u v. Grown P 0 w v) _ (broadcast _) _ w
        (broadcast-Returns P (Grown P 0 w) (Envelope.test_step_started id s.id) w
          (broadcast-Grown P 0 _ w (omega arith)))
        λ u v1 g1.
          >>=-Returns _ _ (run_hook_or_step runner s _ p) _ v1 (hook_or_step-Returns s _ p v1 h)
            λ p' v2 (g2, (r, e)).
              >>=-Returns (λ u v. Covered w p' v) _ (broadcast _) _ v2
                (broadcast-Returns P (Covered w p')
                  (Envelope.test_step_finished id s.id (last_result p'.results)) v2
                  λ k b. broadcast_after_quiet P k _ w v1 v2 g1 g2 (last_of p' r e k b))
                λ u v3 c. pure-Returns _ _ v3 ((r ∷ [], e), c)
    where
      last_of :
          (p' : Progress) (r : TestStepResult)
          → p'.results ≡ p.results ++ (r ∷ [])
          → (k : ℕ) → Bounded P k p'.results
          → rank P (last_result p'.results) ≤ k
      last_of p' r e k b = rw e (last-Bounded P k p.results r (rw e at b))

  pub run_test_steps-Covered :
      (id : String) (steps : List TestStep) (p : Progress) (w : World P)
      → All (IsRunnable runner.support runner.pickle) steps
      → Returns (λ p' v. Longer p p' × Covered w p' v) (run_test_steps runner id steps p w)
  unfolding run_test_steps
  run_test_steps-Covered id [] p w h =
      pure-Returns _ _ w (([], sym (append-nil _)), λ k b. (Grown-IsPreorder P k).same w)
  run_test_steps-Covered id (s ∷ steps) p w (h, hs) =
      >>=-Returns _ _ (run_test_step runner id s p) _ w (run_test_step-Covered id s p w h)
        λ p1 v1 ((new1, e1), c1).
          Returns-weaken (λ p2 v2. Longer p1 p2 × Covered v1 p2 v2)
            (λ p2 v2. Longer p p2 × Covered w p2 v2) (run_test_steps runner id steps p1) v1
            (run_test_steps-Covered id steps p1 v1 hs)
            λ p2 v2 ((new2, e2), c2). (
              (new1 ++ new2, e2 ∙ rw e1 (append_assoc p.results new1 new2)),
              λ k b.
                  (Grown-IsPreorder P k).trans w v1 v2
                    (c1 k (Bounded-left P k p1.results new2 (rw e2 at b))) (c2 k b),
            )
