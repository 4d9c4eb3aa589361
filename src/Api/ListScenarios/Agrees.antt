-- ===== src/Api/ListScenarios/Agrees.antt =====
-- That a list and a run of the same input name the same scenarios alike: `ListScenarios` and
-- `RunCucumber` (cucumber_cpp/library/api/ListScenarios.cpp and RunCucumber.cpp).
use amp_cucumber_cpp_runner.Prelude.{
  ℕ, ◌≡◌, ◌⊎◌, String, Bool, false, Option, none, some, List, map, keep_if,
}
use amp_cucumber_cpp_runner.Platform.{Platform}
use amp_cucumber_cpp_runner.World.{World, Result, ok, ◌>>=◌}
use amp_cucumber_cpp_runner.Assemble.{PickleSource}
use amp_cucumber_cpp_runner.Support.DefinitionRegistration.{DefinitionRegistration}
use amp_cucumber_cpp_runner.Runtime.Worker.{RuntimeOptions}
use amp_cucumber_cpp_runner.Runtime.Run.{run_runtime}
use amp_cucumber_cpp_runner.Plugin.ParameterLoader.{ParameterLibrary}
use amp_cucumber_cpp_runner.Api.LoadPickles.{Sources}
use amp_cucumber_cpp_runner.Api.SupportCodeMessages.{emit_support_code_messages}
use amp_cucumber_cpp_runner.Api.RunCucumber.{Libraries, order_pickles}
use amp_cucumber_cpp_runner.Api.RunCucumber.Laws.{is_wanted}
use amp_cucumber_cpp_runner.Api.ListScenarios.Laws.{line_of}

module _ {P : Platform} (L : Libraries) (depth : ℕ) (options : RuntimeOptions P)
    (parameters : ParameterLibrary) (registration : DefinitionRegistration P)
    (sources : Sources P) where
  -- Either there is no list, and the run does nothing and is no success; or the list has a line for
  -- each of some sources, under some names, and the run is of those sources, in the order that is
  -- asked for, that the patterns fit under the same names.
  abbrev pub Agrees :
      List L.Strategy → Result (Option (List String)) × World P → Result Bool × World P → Type 0
  Agrees strategies (listed, u) run =
      ((listed ≡ ok none) × (run ≡ (ok false, u)))
      ⊎ ((lines : List String) × (names : List (String × String)) × (loaded : List PickleSource)
          × (listed ≡ ok (some lines))
          × (map some lines ≡ map (line_of P names) loaded)
          × (run
              ≡ (emit_support_code_messages parameters registration >>= λ support.
                    run_runtime depth options support (
                      order_pickles sources.ordering
                        (keep_if (is_wanted L strategies names) loaded)))
                  u))
