-- ===== src/Api/ListScenarios/Laws.antt =====
-- What `ListScenarios` lists.
use mathlib.Core.Option
use amp_cucumber_cpp_runner.Prelude.{
  ◌≡◌, ◌≢◌, refl, String, Option, none, some, List, [], ◌∷◌, ◌++◌, map, find_key, All,
}
use amp_cucumber_cpp_runner.Messages.{Envelope, ParseError}
use amp_cucumber_cpp_runner.Platform.{Platform}
use amp_cucumber_cpp_runner.World.{World, ok, ◌>>=◌}
use amp_cucumber_cpp_runner.World.Returns.{Returns, Returns-weaken, >>=-Returns}
use amp_cucumber_cpp_runner.Assemble.{PickleSource}
use amp_cucumber_cpp_runner.Api.LoadPickles.{Sources, listening, load_pickles, parse_errors_of}
use amp_cucumber_cpp_runner.Api.LoadPickles.Collects.{pickle_of, pickles_of, IsInput}
use amp_cucumber_cpp_runner.Api.LoadPickles.Laws.{tagged, wanted, load_pickles-received}
use amp_cucumber_cpp_runner.Api.TestNames.{make_unique_test_names}
use amp_cucumber_cpp_runner.Api.TestNames.Distinct.{HasName, make_unique_test_names-HasName}
use amp_cucumber_cpp_runner.Api.RunCucumber.{Libraries}
use amp_cucumber_cpp_runner.Api.ListScenarios.{
  format_scenario, format_scenarios, list_loaded, list_scenarios,
}

-- The line of a scenario, by its name in a map
abbrev pub line_of : Platform → List (String × String) → PickleSource → Option String
line_of P names source =
    Option.map (λ name. format_scenario P name source.pickle) (find_key source.pickle.id names)

module _ {P : Platform} where
  pub format_scenarios-lines :
      (names : List (String × String)) (sources : List PickleSource) (w : World P)
      → All (HasName names) sources
      → (lines : List String) × (format_scenarios names sources w ≡ (ok lines, w))
        × (map some lines ≡ map (line_of P names) sources)
  unfolding format_scenarios ◌>>=◌
  format_scenarios-lines names [] w h = ([], refl, refl)
  format_scenarios-lines names (source ∷ sources) w ((name, found), h) =
      let (lines, listed, same) = format_scenarios-lines names sources w h in
      (format_scenario P name source.pickle ∷ lines, rw (found, listed) refl, rw (found, same) refl)

  -- A list has a line for each of the sources that are loaded, under their unique names.
  abbrev pub IsListing : Libraries → Sources P → List Envelope → Option (List String) → Type 0
  IsListing L sources events none = parse_errors_of events ≢ []
  IsListing L sources events (some lines) =
      (loaded : List PickleSource) × (parse_errors_of events ≡ [])
      × (map pickle_of loaded ≡ tagged P sources.tag_expression (pickles_of events))
      × (map some lines
          ≡ map (line_of P (make_unique_test_names P (L.find_lineage_by events) loaded)) loaded)

  list_loaded-IsListing :
      (L : Libraries) (sources : Sources P) (events : List Envelope) (errors : List ParseError)
      (answer : Option (List PickleSource)) (w : World P)
      → parse_errors_of events ≡ errors
      → Option.map (map pickle_of) answer
        ≡ wanted P sources.tag_expression errors (pickles_of events)
      → Returns
          (λ lines v. IsListing L sources events lines × (v.events ≡ w.events))
          (list_loaded L answer events w)
  unfolding ◌>>=◌
  list_loaded-IsListing L sources events [] none w e h = cc h
  list_loaded-IsListing L sources events (error ∷ errors) (some loaded) w e h = cc h
  list_loaded-IsListing L sources events (error ∷ errors) none w e h = ((λ n. cc (n, e)), refl)
  list_loaded-IsListing L sources events [] (some loaded) w e h =
      let names = make_unique_test_names P (L.find_lineage_by events) loaded in
      let (lines, listed, same) =
        format_scenarios-lines names loaded w
          (make_unique_test_names-HasName P (L.find_lineage_by events) loaded) in
      rw listed ((loaded, e, cc h, same), refl)

  -- `ListScenarios` returns without an exception. It answers no list if there is a parse error in
  -- the input, and else a line for each pickle that it has broadcast and that the tag expression
  -- holds of, in order, with the name that `MakeUniqueTestNames` gives it among all of these.
  pub list_scenarios-IsListing :
      (L : Libraries) (sources : Sources P) (w : World P)
      → Returns
          (λ lines v.
            (events : List Envelope) × (v.events ≡ w.events ++ events)
            × All IsInput events
            × IsListing L sources events lines)
          (list_scenarios L sources w)
  unfolding list_scenarios
  list_scenarios-IsListing L sources w =
      >>=-Returns _ _ (listening (load_pickles L.gherkin sources)) _ w
        (load_pickles-received L.gherkin sources w)
        (λ (loaded, events) v (sent, (input, answer)).
          Returns-weaken _ _ (list_loaded L loaded events) v
            (list_loaded-IsListing L sources events (parse_errors_of events) loaded v refl answer)
            (λ lines u (listing, same). (events, cc (same, sent), input, listing)))
