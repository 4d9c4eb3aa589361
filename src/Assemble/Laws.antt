-- ===== src/Assemble/Laws.antt =====
-- The steps of an assembled test case: their order, and that the test case can be run.
use amp_cucumber_cpp_runner.Prelude.{
  ◌≡◌, refl, ap, ◌∙◌, String, Option, some, none, List, [], ◌∷◌, ◌++◌, map, reverse, All,
  All-append, map-append, Bool-cases, inl, inr, str_eq, eq_refl, All-mono, All-reverse, length,
  length-append, arith,
}
use amp_cucumber_cpp_runner.Messages.{Pickle, PickleStep, TestStep, StepMatchArgument}
use amp_cucumber_cpp_runner.Platform.{Platform}
use amp_cucumber_cpp_runner.World.{World, next_id}
use amp_cucumber_cpp_runner.World.Returns.{Returns, >>=-Returns, pure-Returns}
use amp_cucumber_cpp_runner.Support.{SupportCodeLibrary}
use amp_cucumber_cpp_runner.Support.HookRegistry.{before, after, find_ids}
use amp_cucumber_cpp_runner.Support.HookRegistry.Laws.{IsRegistered, find_ids-All-IsRegistered}
use amp_cucumber_cpp_runner.Support.StepRegistry.{StepDefinition}
use amp_cucumber_cpp_runner.Support.StepRegistry.Laws.{IsKnown, IsConsistent}
use amp_cucumber_cpp_runner.Support.MatchStepDefinitions.{
  match_step_definitions, append_match, to_match_argument,
}
use amp_cucumber_cpp_runner.Runtime.TestCaseRunner.{find_pickle_step}
use amp_cucumber_cpp_runner.Runtime.TestCaseRunner.Total.{
  IsMatched, IsRunnable, hook, step, undefined, defined, ambiguous,
}
use amp_cucumber_cpp_runner.Assemble.{
  pickle_step_of, assemble_hooks, assemble_steps, assemble_test_steps, assemble_test_case,
}

-- Which hook a test step runs, or which step of the pickle.
abbrev pub outline : TestStep → Option String × Option String
outline s = (s.hook_id, s.pickle_step_id)

abbrev pub hook_outline : String → Option String × Option String
hook_outline id = (some id, none)

abbrev pub step_outline : PickleStep → Option String × Option String
step_outline s = (none, some s.id)

module _ {P : Platform} (support : SupportCodeLibrary P) where
  -- What the loop over the definitions leaves: known ids, and as many lists of arguments.
  abbrev Paired : List String × List (List StepMatchArgument) → Type 0
  Paired (ids, lists) = All (IsKnown support.step_registry) ids × (length ids ≡ length lists)

  append_match-Paired :
      (d : StepDefinition P) (arguments : List _)
      (acc : List String × List (List StepMatchArgument))
      → IsKnown support.step_registry d.id
      → Paired acc
      → Paired (append_match d.id arguments acc)
  append_match-Paired d arguments (ids, lists) k (h, e) = (
    All-append _ ids _ h (k, tt),
    length-append ids _
        ∙ rw e (omega (arith, length-append lists (map to_match_argument arguments ∷ []))),
  )

  match-Paired :
      (definitions : List (StepDefinition P)) (text : String)
      (acc : List String × List (List StepMatchArgument))
      → All (λ d. IsKnown support.step_registry d.id) definitions
      → Paired acc
      → Paired (match_step_definitions definitions text acc)
  unfolding match_step_definitions
  match-Paired [] text acc h p = p
  match-Paired (d ∷ ds) text acc (k, h) p =
      elim (P.match d.regex text)
        as (λ o. Paired (
          match_step_definitions ds text
            (elim o [ none ↦ acc | some arguments ↦ append_match d.id arguments acc ]))) [
              | none ↦ match-Paired ds text acc h p
              | some arguments ↦ match-Paired ds text _ h (append_match-Paired d arguments acc k p)
            ]

  IsMatched-of_Paired :
      (ids : List String) (lists : List (List StepMatchArgument))
      → Paired (ids, lists)
      → IsMatched support ids lists
  IsMatched-of_Paired [] [] p = undefined
  IsMatched-of_Paired [] (l ∷ lists) (h, e) = absurd (omega (arith, e))
  IsMatched-of_Paired (id ∷ []) [] (h, e) = absurd (omega (arith, e))
  IsMatched-of_Paired (id ∷ []) (l ∷ []) (((d, k), t), e) = defined id l d k
  IsMatched-of_Paired (id ∷ []) (l ∷ l' ∷ lists) (h, e) = absurd (omega (arith, e))
  IsMatched-of_Paired (id ∷ id' ∷ ids) lists (h, e) = ambiguous id id' ids lists

  -- Steps with that outline, each of which can be run.
  abbrev pub Assembled :
      Pickle → List (Option String × Option String) → List TestStep → World P → Type 0
  Assembled pickle expected steps v =
      (map outline steps ≡ expected) × All (IsRunnable support pickle) steps

  assemble_hooks-Assembled :
      (pickle : Pickle) (ids : List String) (w : World P)
      → All (IsRegistered support.hook_registry) ids
      → Returns (Assembled pickle (map hook_outline ids)) (assemble_hooks ids w)
  unfolding assemble_hooks next_id
  assemble_hooks-Assembled pickle [] w h = pure-Returns _ _ w (refl, tt)
  assemble_hooks-Assembled pickle (hook_id ∷ ids) w (h, hs) =
      >>=-Returns (λ id v. Unit) _ next_id _ w tt
        λ id v t.
          >>=-Returns (Assembled pickle (map hook_outline ids)) _ (assemble_hooks ids) _ v
            (assemble_hooks-Assembled pickle ids v hs)
            λ rest u (e, runnable).
              pure-Returns _ _ u
                (ap (λ r. hook_outline hook_id ∷ r) e, (hook hook_id refl h, runnable))

  module _ (consistent : IsConsistent support.step_registry) (pickle : Pickle) where
    pickle_step-IsRunnable :
        (id : String) (s : PickleStep)
        → ((found : PickleStep) × (find_pickle_step s.id pickle.steps ≡ some found))
        → IsRunnable support pickle (
            pickle_step_of id s
              (match_step_definitions support.step_registry.registry s.text ([], [])))
    pickle_step-IsRunnable id s (found, e) = step s.id found _ _ refl refl e refl refl (
        IsMatched-of_Paired _ _
          (match-Paired support.step_registry.registry s.text ([], []) consistent (tt, refl)))

    assemble_steps-Assembled :
        (steps : List PickleStep) (w : World P)
        → All (λ s. (found : PickleStep) × (find_pickle_step s.id pickle.steps ≡ some found)) steps
        → Returns
            (Assembled pickle (map step_outline steps))
            (assemble_steps support.step_registry.registry steps w)
    unfolding assemble_steps next_id
    assemble_steps-Assembled [] w h = pure-Returns _ _ w (refl, tt)
    assemble_steps-Assembled (s ∷ steps) w (h, hs) =
        >>=-Returns (λ id v. Unit) _ next_id _ w tt
          λ id v t.
            >>=-Returns (Assembled pickle (map step_outline steps)) _
              (assemble_steps support.step_registry.registry steps) _ v
              (assemble_steps-Assembled steps v hs)
              λ rest u (e, runnable).
                pure-Returns _ _ u
                  (ap (λ r. step_outline s ∷ r) e, (pickle_step-IsRunnable id s h, runnable))

    Found : List PickleStep → PickleStep → Type 0
    Found steps s = (found : PickleStep) × (find_pickle_step s.id steps ≡ some found)

    Found-cons :
        (t : PickleStep) (steps : List PickleStep) (s : PickleStep)
        → Found steps s
        → Found (t ∷ steps) s
    unfolding Found find_pickle_step
    Found-cons t steps s (found, e) = elim (Bool-cases (str_eq t.id s.id)) [
      | inl same ↦ (t, rw same refl)
      | inr other ↦ (found, rw other e)
    ]

    Found-self : (t : PickleStep) (steps : List PickleStep) → Found (t ∷ steps) t
    unfolding Found find_pickle_step
    Found-self t steps = (t, rw (eq_refl t.id) refl)

    All-Found : (steps : List PickleStep) → All (Found steps) steps
    All-Found [] = tt
    All-Found (t ∷ steps) =
        (Found-self t steps, All-mono _ _ steps (Found-cons t steps) (All-Found steps))

    assemble_test_steps-Assembled :
        (w : World P)
        → Returns
            (Assembled pickle (
              map hook_outline (find_ids before pickle.tags support.hook_registry)
              ++ (map step_outline pickle.steps
                  ++ map hook_outline
                      (reverse (find_ids after pickle.tags support.hook_registry)))))
            (assemble_test_steps support pickle w)
    unfolding assemble_test_steps Found
    assemble_test_steps-Assembled w =
        >>=-Returns _ _ (assemble_hooks _) _ w
          (assemble_hooks-Assembled pickle _ w (find_ids-All-IsRegistered before _ _))
          λ bs v1 (e1, r1).
            >>=-Returns _ _ (assemble_steps _ _) _ v1
              (assemble_steps-Assembled pickle.steps v1 (All-Found pickle.steps))
              λ ss v2 (e2, r2).
                >>=-Returns _ _ (assemble_hooks _) _ v2
                  (assemble_hooks-Assembled pickle _ v2
                    (All-reverse _ _ (find_ids-All-IsRegistered after _ _)))
                  λ as' v3 (e3, r3). pure-Returns _ _ v3 (
                    map-append outline bs _ ∙ rw (e1, map-append outline ss as', e2, e3) refl,
                    All-append _ bs _ r1 (All-append _ ss as' r2 r3),
                  )

-- A test case is assembled without an exception, from a consistent registry of steps. Its test steps
-- are the `BEFORE` hooks that apply to the pickle, in the order of the registry, the pickle's steps,
-- and the `AFTER` hooks that apply, in the opposite order; the case belongs to the pickle and to the
-- test run; and each of its test steps can be run: its hook, or the only definition that matches
-- its step, is in the registries.
pub assemble_test_case-Assembled :
    {P : Platform} (support : SupportCodeLibrary P) (run_id : String) (pickle : Pickle)
    (w : World P)
    → IsConsistent support.step_registry
    → Returns
        (λ c v.
          Assembled support pickle
            (map hook_outline (find_ids before pickle.tags support.hook_registry)
              ++ (map step_outline pickle.steps
                  ++ map hook_outline (reverse (find_ids after pickle.tags support.hook_registry))))
            c.test_steps
            v
          × (c.pickle_id ≡ pickle.id)
          × (c.test_run_started_id ≡ some run_id))
        (assemble_test_case support run_id pickle w)
unfolding assemble_test_case next_id
assemble_test_case-Assembled support run_id pickle w consistent =
    >>=-Returns (λ id v. Unit) _ next_id _ w tt
      λ id v t.
        >>=-Returns _ _ (assemble_test_steps support pickle) _ v
          (assemble_test_steps-Assembled support consistent pickle v)
          λ steps u (e, r). pure-Returns _ _ u ((e, r), refl, refl)
