-- ===== src/Api/RunCucumber.antt =====
-- `RunCucumber` (cucumber_cpp/library/api/RunCucumber.cpp): a whole run, from the options to its
-- success.
pub mod Laws
use mathlib.Core.Option
use amp_cucumber_cpp_runner.Prelude.{
  ℕ, String, Bool, true, false, ◌||◌, Option, none, some, List, [], ◌∷◌, reverse, find_key, keep_if,
  if◌then◌else◌,
}
use amp_cucumber_cpp_runner.Messages.{Envelope, Pickle}
use amp_cucumber_cpp_runner.Platform.{Platform}
use amp_cucumber_cpp_runner.World.{World, M, pure, at, ◌>>=◌, ◌>>◌}
use amp_cucumber_cpp_runner.Assemble.{PickleSource}
use amp_cucumber_cpp_runner.Support.DefinitionRegistration.{DefinitionRegistration}
use amp_cucumber_cpp_runner.Api.Gherkin.{Gherkin}
use amp_cucumber_cpp_runner.Api.LoadPickles.{
  Ordering, defined_order, reverse_order, Sources, listening, load_pickles,
}
use amp_cucumber_cpp_runner.Api.TestNames.{Lineage, make_unique_test_names}
use amp_cucumber_cpp_runner.Api.SupportCodeMessages.{emit_support_code_messages}
use amp_cucumber_cpp_runner.Plugin.ParameterLoader.{ParameterLibrary}
use amp_cucumber_cpp_runner.Runtime.Worker.{RuntimeOptions}
use amp_cucumber_cpp_runner.Runtime.Run.{run_runtime}

-- The libraries that the entry points use: `cucumber::gherkin`, `RegexStrategy` of
-- `cucumber::cucumber_expressions`, where a pattern may be refused, and `cucumber::query`, which
-- is fed with envelopes.
pub record Libraries : Type 1 where
  pub gherkin : Gherkin
  pub Strategy : Type 0
  pub create_strategy : String → Option Strategy
  pub match : Strategy → String → Bool
  pub find_lineage_by : List Envelope → Pickle → Option Lineage

module _ (L : Libraries) where
  -- `CreateNameRegexStrategies`: none, if a pattern is refused. The refusal is also printed.
  unfoldable pub create_name_regex_strategies : List String → Option (List L.Strategy)
  create_name_regex_strategies [] = some []
  create_name_regex_strategies (pattern ∷ patterns) =
      let rest = create_name_regex_strategies patterns in
      elim (L.create_strategy pattern) [
        | none ↦ none
        | some strategy ↦ Option.map (λ strategies. strategy ∷ strategies) rest
      ]

  unfoldable pub any_match : List L.Strategy → (name full_name : String) → Bool
  any_match [] name full_name = false
  any_match (strategy ∷ strategies) name full_name =
      let rest = any_match strategies name full_name in
      if L.match strategy name || L.match strategy full_name then true else rest

-- `OrderPickles`
abbrev pub order_pickles : Ordering → List PickleSource → List PickleSource
order_pickles defined_order sources = sources
order_pickles reverse_order sources = reverse sources

module _ {P : Platform} (L : Libraries) where
  -- `FilterByNameRegex`
  unfoldable pub is_selected : List L.Strategy → List (String × String) → PickleSource → M P Bool
  unfolding any_match
  is_selected [] names source = pure true
  is_selected (strategy ∷ strategies) names source = do
    full_name ← at (find_key source.pickle.id names)
    pure (any_match L (strategy ∷ strategies) source.pickle.name full_name)

  unfoldable pub select_pickles :
      List L.Strategy → List (String × String) → List PickleSource → M P (List PickleSource)
  unfolding is_selected
  select_pickles strategies names [] = pure []
  select_pickles strategies names (source ∷ sources) = do
    selected ← is_selected strategies names source
    rest ← select_pickles strategies names sources
    pure (if selected then source ∷ rest else rest)

  module _ (depth : ℕ) (options : RuntimeOptions P) (parameters : ParameterLibrary)
      (registration : DefinitionRegistration P) where
    -- What is run of the sources that `LoadPickles` has answered
    unfoldable pub run_sources :
        Ordering → List L.Strategy → List (String × String) → List PickleSource → M P Bool
    run_sources ordering strategies names loaded = do
      selected ← select_pickles strategies names loaded
      support ← emit_support_code_messages parameters registration
      run_runtime depth options support (order_pickles ordering selected)

    abbrev pub run_loaded :
        Ordering → List L.Strategy → Option (List PickleSource) → List Envelope → M P Bool
    run_loaded ordering strategies none received = pure false
    run_loaded ordering strategies (some loaded) received =
        run_sources ordering strategies
          (make_unique_test_names P (L.find_lineage_by received) loaded) loaded

    abbrev pub run_with : Sources P → Option (List L.Strategy) → M P Bool
    run_with sources none = pure false
    run_with sources (some strategies) = do
      (loaded, received) ← listening (load_pickles L.gherkin sources)
      run_loaded sources.ordering strategies loaded received

    -- `RunCucumber`, less the formatters, which only listen
    unfoldable pub run_cucumber : Sources P → M P Bool
    run_cucumber sources = run_with sources (create_name_regex_strategies L sources.name_regexes)
