-- ===== src/Plugin/ParameterLoader.antt =====
-- `ParameterLoader` (cucumber_cpp/library/plugin/ParameterLoader.cpp): the registered parameters are
-- put into the library's registry of parameter types.
use amp_cucumber_cpp_runner.Prelude.{
  ℕ, String, Bool, true, false, Option, none, some, List, [], ◌∷◌, str_eq, if◌then◌else◌,
}
use amp_cucumber_cpp_runner.Platform.{Platform}
use amp_cucumber_cpp_runner.World.{Result, ok, err, expression_error}
use amp_cucumber_cpp_runner.Support.DefinitionRegistration.{CustomParameter, DefinitionRegistration}
use amp_cucumber_cpp_runner.Support.DefinitionRegistration.Parameters.{get_registered_parameters}

-- `cucumber::cucumber_expressions::ParameterType`
pub record Parameter : Type 0 where
  pub name : String
  pub regex : List String
  pub is_builtin : Bool
  pub use_for_snippets : Bool
  pub file_name : String
  pub line : ℕ

-- `cucumber::cucumber_expressions`: the order of `CustomParameterEntry`, and `ParameterRegistry`
-- with the state that the application hands over. `AddParameter` may throw, and then answers none.
-- Of what `GetParameters` has answered before, `shown` tells what it shows now: it may be a
-- reference or a copy.
pub record ParameterLibrary : Type 1 where
  pub less : CustomParameter → CustomParameter → Bool
  pub ParameterRegistry : Type 0
  pub at_start : ParameterRegistry
  pub parameters : ParameterRegistry → List Parameter
  pub add_parameter : Parameter → ParameterRegistry → Option ParameterRegistry
  pub shown : (before now : ParameterRegistry) → List Parameter

-- The parameter that is added for a registered one
abbrev pub parameter_of : CustomParameter → Parameter
parameter_of custom = record {
  name = custom.name;
  regex = custom.regex ∷ [];
  is_builtin = false;
  use_for_snippets = custom.use_for_snippets;
  file_name = custom.location.0;
  line = custom.location.1;
}

-- `existingParameters.contains`
abbrev pub contains_parameter : String → List Parameter → Bool
contains_parameter name [] = false
contains_parameter name (parameter ∷ parameters) =
    if str_eq parameter.name name then true else contains_parameter name parameters

module _ (library : ParameterLibrary) where
  open library use {ParameterRegistry, at_start, add_parameter, shown, less}

  -- The loop of `Load`, with `existingParameters` taken before it
  unfoldable pub load_each :
      ParameterRegistry → List CustomParameter → ParameterRegistry → Result ParameterRegistry
  load_each before [] now = ok now
  load_each before (custom ∷ others) now =
      let skipped = load_each before others now in
      if contains_parameter custom.name (shown before now)
      then skipped
      else elim (add_parameter (parameter_of custom) now) [
        | none ↦ err (expression_error custom.name)
        | some next ↦ load_each before others next
      ]

  -- `ParameterLoader::Load`
  unfoldable pub load_parameters :
      {P : Platform} → DefinitionRegistration P → Result ParameterRegistry
  unfolding load_each
  load_parameters registration =
      load_each at_start (get_registered_parameters less registration) at_start
