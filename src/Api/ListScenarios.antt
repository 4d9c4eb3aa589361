-- ===== src/Api/ListScenarios.antt =====
-- `ListScenarios` (cucumber_cpp/library/api/ListScenarios.cpp): the names of the scenarios that a
-- run would have, with their places.
pub mod Agrees
pub mod Laws
use amp_cucumber_cpp_runner.Prelude.{
  ℕ, String, ◌<>◌, Option, none, some, List, [], ◌∷◌, find_key, str_eq, if◌then◌else◌,
}
use amp_cucumber_cpp_runner.Messages.{Envelope, Pickle}
use amp_cucumber_cpp_runner.Platform.{Platform}
use amp_cucumber_cpp_runner.World.{M, pure, at, ◌>>=◌}
use amp_cucumber_cpp_runner.Assemble.{PickleSource}
use amp_cucumber_cpp_runner.Api.LoadPickles.{Sources, listening, load_pickles}
use amp_cucumber_cpp_runner.Api.TestNames.{make_unique_test_names}
use amp_cucumber_cpp_runner.Api.RunCucumber.{Libraries}

module _ (P : Platform) where
  abbrev place : String → String → Option ℕ → String
  place name uri none = name <> "\t" <> uri
  place name uri (some line) = name <> "\t" <> uri <> ":" <> P.to_decimal line

  -- `FormatScenario`
  abbrev pub format_scenario : String → Pickle → String
  format_scenario name pickle =
      if str_eq pickle.uri "" then name else place name pickle.uri pickle.line

module _ {P : Platform} where
  -- The loop over the pickles
  unfoldable pub format_scenarios : List (String × String) → List PickleSource → M P (List String)
  format_scenarios names [] = pure []
  format_scenarios names (source ∷ sources) = do
    name ← at (find_key source.pickle.id names)
    rest ← format_scenarios names sources
    pure (format_scenario P name source.pickle ∷ rest)

  abbrev pub list_loaded :
      Libraries → Option (List PickleSource) → List Envelope → M P (Option (List String))
  list_loaded L none received = pure none
  list_loaded L (some loaded) received = do
    scenarios ←
        format_scenarios (make_unique_test_names P (L.find_lineage_by received) loaded) loaded
    pure (some scenarios)

  -- `api::ListScenarios`
  unfoldable pub list_scenarios : Libraries → Sources P → M P (Option (List String))
  list_scenarios L sources = do
    (loaded, received) ← listening (load_pickles L.gherkin sources)
    list_loaded L loaded received
