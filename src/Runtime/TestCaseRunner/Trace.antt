-- ===== src/Runtime/TestCaseRunner/Trace.antt =====
-- The starts and the ends of attempts among the messages that have been broadcast.
use amp_cucumber_cpp_runner.Prelude.{
  ℕ, zero, suc, ◌+◌, ◌≡◌, refl, sym, ◌∙◌, Bool, true, false, List, [], ◌∷◌, ◌++◌, append_assoc,
  append-nil, String,
}
use amp_cucumber_cpp_runner.Messages.{Envelope, TestStep}
use amp_cucumber_cpp_runner.Platform.{Platform}
use amp_cucumber_cpp_runner.World.{World, broadcast, next_id}
use amp_cucumber_cpp_runner.World.Keeps.{IsPreorder, Keeps, >>=-Keeps, pure-Keeps}
use amp_cucumber_cpp_runner.Runtime.TestCaseRunner.{TestCaseRunner, Progress}
use amp_cucumber_cpp_runner.Runtime.TestCaseRunner.Attempts.{run_test_step, run_test_steps}
use amp_cucumber_cpp_runner.Runtime.TestCaseRunner.Keeps.{AllowsSteps, run_hook_or_step-Keeps}

pub data CaseEvent : Type 0 where
  started : (attempt : ℕ) → CaseEvent
  finished : (will_be_retried : Bool) → CaseEvent

abbrev pub case_event : Envelope → List CaseEvent
case_event (Envelope.test_case_started id case_id attempt) = started attempt ∷ []
case_event (Envelope.test_case_finished id retried) = finished retried ∷ []
case_event _ = []

abbrev pub trace : List Envelope → List CaseEvent
trace [] = []
trace (e ∷ es) = case_event e ++ trace es

-- So many attempts that are retried, from one number on, and one more that is not.
abbrev pub attempt_trace : ℕ → ℕ → List CaseEvent
attempt_trace zero attempt = started attempt ∷ finished false ∷ []
attempt_trace (suc n) attempt = started attempt ∷ finished true ∷ attempt_trace n (attempt + 1)

pub trace-append : (es fs : List Envelope) → trace (es ++ fs) ≡ trace es ++ trace fs
trace-append [] fs = refl
trace-append (e ∷ es) fs = rw (trace-append es fs) (sym (append_assoc (case_event e) _ _))

module _ {P : Platform} where
  abbrev pub SameTrace : World P → World P → Type 0
  SameTrace w v = trace v.events ≡ trace w.events

  pub SameTrace-IsPreorder : IsPreorder SameTrace
  SameTrace-IsPreorder = record { same = λ w. refl; trans = λ u v w p q. q ∙ p }

  broadcast-SameTrace : (e : Envelope) → case_event e ≡ [] → Keeps SameTrace (broadcast {P = P} e)
  unfolding broadcast
  broadcast-SameTrace e h = record {
    from = λ w. trace-append w.events (e ∷ []) ∙ rw (h, append-nil (trace w.events)) refl;
  }

  pub SameTrace-AllowsSteps : AllowsSteps SameTrace
  unfolding next_id
  SameTrace-AllowsSteps = record {
    bodies = record {
      attaching = λ a. (broadcast-SameTrace (Envelope.attachment a) refl).from;
      assigning = λ key v w. refl;
      erasing = λ key w. refl;
      telling = λ u w. refl;
      measuring = λ w. refl;
    };
    issuing = record { from = λ w. refl };
    suggesting = λ id step_id. broadcast-SameTrace (Envelope.suggestion id step_id) refl;
  }

  module _ (runner : TestCaseRunner P) where
    run_test_step-SameTrace :
        (id : String) (s : TestStep) (p : Progress) → Keeps SameTrace (run_test_step runner id s p)
    unfolding run_test_step
    run_test_step-SameTrace id s p =
        >>=-Keeps SameTrace-IsPreorder _ _ (broadcast-SameTrace _ refl) λ u.
          >>=-Keeps SameTrace-IsPreorder _ _
            (run_hook_or_step-Keeps SameTrace-IsPreorder SameTrace-AllowsSteps runner s _ p)
            λ p'.
              >>=-Keeps SameTrace-IsPreorder _ _ (broadcast-SameTrace _ refl)
                λ v. pure-Keeps SameTrace-IsPreorder p'

    pub run_test_steps-SameTrace :
        (id : String) (steps : List TestStep) (p : Progress)
        → Keeps SameTrace (run_test_steps runner id steps p)
    unfolding run_test_steps
    run_test_steps-SameTrace id [] p = pure-Keeps SameTrace-IsPreorder p
    run_test_steps-SameTrace id (s ∷ steps) p =
        >>=-Keeps SameTrace-IsPreorder _ _ (run_test_step-SameTrace id s p)
          λ p'. run_test_steps-SameTrace id steps p'
