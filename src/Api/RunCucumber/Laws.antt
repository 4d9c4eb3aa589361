-- ===== src/Api/RunCucumber/Laws.antt =====
-- What is run, and that refused input runs nothing.
use mathlib.Core.Option
use mathlib.Core.Path.{subst}
use amp_cucumber_cpp_runner.Prelude.{
  ℕ, ◌≡◌, ◌≢◌, ◌⊎◌, inl, inr, refl, sym, ap, String, Bool, true, false, Option, none, some, List,
  [], ◌∷◌, ◌++◌, map, keep_if, find_key, All, Option-cases,
}
use amp_cucumber_cpp_runner.Messages.{Envelope, Pickle, ParseError}
use amp_cucumber_cpp_runner.Platform.{Platform}
use amp_cucumber_cpp_runner.World.{World, Result, ok, M, ◌>>=◌}
use amp_cucumber_cpp_runner.World.Returns.{Returns→ok}
use amp_cucumber_cpp_runner.Assemble.{PickleSource}
use amp_cucumber_cpp_runner.Support.DefinitionRegistration.{DefinitionRegistration}
use amp_cucumber_cpp_runner.Runtime.Worker.{RuntimeOptions}
use amp_cucumber_cpp_runner.Runtime.Run.{run_runtime}
use amp_cucumber_cpp_runner.Api.LoadPickles.{Sources, listening, load_pickles, parse_errors_of}
use amp_cucumber_cpp_runner.Api.LoadPickles.Collects.{pickle_of, pickles_of, IsInput}
use amp_cucumber_cpp_runner.Api.LoadPickles.Laws.{tagged, wanted, load_pickles-received}
use amp_cucumber_cpp_runner.Api.TestNames.{make_unique_test_names}
use amp_cucumber_cpp_runner.Api.TestNames.Distinct.{HasName, make_unique_test_names-HasName}
use amp_cucumber_cpp_runner.Api.SupportCodeMessages.{emit_support_code_messages}
use amp_cucumber_cpp_runner.Plugin.ParameterLoader.{ParameterLibrary}
use amp_cucumber_cpp_runner.Api.RunCucumber.{
  Libraries, create_name_regex_strategies, any_match, order_pickles, is_selected, select_pickles,
  run_sources, run_loaded, run_with, run_cucumber,
}

module _ (L : Libraries) where
  -- Whether a pattern fits a pickle's own name or its unique one
  abbrev pub fits : List L.Strategy → Pickle → Option String → Bool
  fits strategies pickle none = false
  fits strategies pickle (some full_name) = any_match L strategies pickle.name full_name

  -- Whether a pickle is to be run: with no patterns, every one
  abbrev pub is_wanted : List L.Strategy → List (String × String) → PickleSource → Bool
  is_wanted [] names source = true
  is_wanted (strategy ∷ strategies) names source =
      fits (strategy ∷ strategies) source.pickle (find_key source.pickle.id names)

module _ {P : Platform} (L : Libraries) where
  is_selected-wanted :
      (strategies : List L.Strategy) (names : List (String × String)) (source : PickleSource)
      (w : World P)
      → HasName names source
      → is_selected L strategies names source w ≡ (ok (is_wanted L strategies names source), w)
  unfolding is_selected ◌>>=◌
  is_selected-wanted [] names source w h = refl
  is_selected-wanted (strategy ∷ strategies) names source w (name, h) = rw h refl

  select_pickles-keep_if :
      (strategies : List L.Strategy) (names : List (String × String)) (sources : List PickleSource)
      (w : World P)
      → All (HasName names) sources
      → select_pickles L strategies names sources w
        ≡ (ok (keep_if (is_wanted L strategies names) sources), w)
  unfolding select_pickles ◌>>=◌
  select_pickles-keep_if strategies names [] w h = refl
  select_pickles-keep_if strategies names (source ∷ sources) w (h, hs) =
      rw
        (
          is_selected-wanted strategies names source w h,
          select_pickles-keep_if strategies names sources w hs,
        )
        refl

  pub >>=-ok :
      {A B : Type 0} (m : M P A) (f : A → M P B) (a : A) (w : World P)
      → (m w).0 ≡ ok a
      → (m >>= f) w ≡ f a (m w).1
  unfolding ◌>>=◌
  >>=-ok m f a w h = rw h refl

  module _ (depth : ℕ) (options : RuntimeOptions P) (parameters : ParameterLibrary)
      (registration : DefinitionRegistration P) (sources : Sources P) where
    -- The run of what is wanted of the sources that are loaded, in the order that is asked for
    abbrev pub run_wanted : List L.Strategy → List Envelope → List PickleSource → M P Bool
    run_wanted strategies events loaded =
        let names = make_unique_test_names P (L.find_lineage_by events) loaded in
        emit_support_code_messages parameters registration >>= λ support.
        run_runtime depth options support
          (order_pickles sources.ordering (keep_if (is_wanted L strategies names) loaded))

    -- What becomes of a run whose patterns are accepted, by the envelopes about its input
    abbrev pub IsRun : List L.Strategy → List Envelope → World P → Result Bool × World P → Type 0
    IsRun strategies events u result =
        ((parse_errors_of events ≢ []) × (result ≡ (ok false, u)))
        ⊎ ((loaded : List PickleSource) × (parse_errors_of events ≡ [])
            × (map pickle_of loaded ≡ tagged P sources.tag_expression (pickles_of events))
            × (result ≡ run_wanted strategies events loaded u))

    abbrev pub IsRunOf : World P → Result Bool × World P → Type 0
    IsRunOf w result =
        ((create_name_regex_strategies L sources.name_regexes ≡ none) × (result ≡ (ok false, w)))
        ⊎ ((strategies : List L.Strategy) × (events : List Envelope) × (u : World P)
            × (create_name_regex_strategies L sources.name_regexes ≡ some strategies)
            × (u.events ≡ w.events ++ events)
            × All IsInput events
            × IsRun strategies events u result)

    pub run_sources-wanted :
        (strategies : List L.Strategy) (events : List Envelope) (loaded : List PickleSource)
        (w : World P)
        → run_sources L depth options parameters registration sources.ordering strategies
            (make_unique_test_names P (L.find_lineage_by events) loaded)
            loaded
            w
          ≡ run_wanted strategies events loaded w
    unfolding run_sources ◌>>=◌
    run_sources-wanted strategies events loaded w =
        rw
          (select_pickles-keep_if strategies
            (make_unique_test_names P (L.find_lineage_by events) loaded) loaded w
            (make_unique_test_names-HasName P (L.find_lineage_by events) loaded))
          refl

    run_loaded-IsRun :
        (strategies : List L.Strategy) (events : List Envelope) (errors : List ParseError)
        (answer : Option (List PickleSource)) (u : World P)
        → parse_errors_of events ≡ errors
        → Option.map (map pickle_of) answer
          ≡ wanted P sources.tag_expression errors (pickles_of events)
        → IsRun strategies events u (
            run_loaded L depth options parameters registration sources.ordering strategies answer
              events u)
    unfolding ◌>>=◌
    run_loaded-IsRun strategies events [] none u e h = cc h
    run_loaded-IsRun strategies events [] (some loaded) u e h =
        inr (loaded, e, cc h, run_sources-wanted strategies events loaded u)
    run_loaded-IsRun strategies events (error ∷ errors) none u e h = inl ((λ n. cc (n, e)), refl)
    run_loaded-IsRun strategies events (error ∷ errors) (some loaded) u e h = cc h

    run_with-IsRunOf :
        (strategies : List L.Strategy) (w : World P)
        → create_name_regex_strategies L sources.name_regexes ≡ some strategies
        → IsRunOf w (run_with L depth options parameters registration sources (some strategies) w)
    run_with-IsRunOf strategies w accepted =
        let m = listening (load_pickles L.gherkin sources) in
        let f : Option (List PickleSource) × List Envelope → M P Bool = λ (loaded, events).
          run_loaded L depth options parameters registration sources.ordering strategies loaded
            events in
        let ((loaded, events), e, (sent, (input, answer))) =
          Returns→ok _ (m w).0 (m w).1 (load_pickles-received L.gherkin sources w) in
        inr (
          strategies,
          events,
          (m w).1,
          accepted,
          sent,
          input,
          subst (IsRun strategies events (m w).1) (sym (>>=-ok m f (loaded, events) w e)) (
              run_loaded-IsRun strategies events (parse_errors_of events) loaded (m w).1 refl
                answer),
        )

    -- `RunCucumber` loads nothing and answers false, if a pattern is refused. Else it broadcasts its
    -- input; it answers false and runs nothing, if there is a parse error among that; and else it
    -- loads the support code and runs the pickles that it has broadcast, less those that the tag
    -- expression or the patterns leave out, in the order that is asked for.
    pub run_cucumber-IsRunOf :
        (w : World P) → IsRunOf w (run_cucumber L depth options parameters registration sources w)
    unfolding run_cucumber ◌>>=◌
    run_cucumber-IsRunOf w =
        let run = run_with L depth options parameters registration sources in
        elim (Option-cases (create_name_regex_strategies L sources.name_regexes)) [
          | inl refused ↦ inl (refused, ap (λ c. run c w) refused)
          | inr (strategies, accepted) ↦
              subst (λ c. IsRunOf w (run c w)) (sym accepted)
                (run_with-IsRunOf strategies w accepted)
        ]
