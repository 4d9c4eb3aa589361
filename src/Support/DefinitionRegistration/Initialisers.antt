-- ===== src/Support/DefinitionRegistration/Initialisers.antt =====
-- The static initialisers of a program or a plugin, which register its definitions and parameters:
-- the macros of cucumber_cpp/library/BodyMacro.hpp and cucumber_cpp/library/Parameter.hpp call
-- `DefinitionRegistration::Register` (cucumber_cpp/library/support/DefinitionRegistration.hpp).
use amp_cucumber_cpp_runner.Prelude.{Bool, List, [], ◌∷◌}
use amp_cucumber_cpp_runner.Platform.{Platform}
use amp_cucumber_cpp_runner.Support.DefinitionRegistration.{
  Location, Entry, CustomParameter, DefinitionRegistration, register_entry,
}
use amp_cucumber_cpp_runner.Support.DefinitionRegistration.Parameters.{register_parameter}

module _ {P : Platform} where
  unfoldable pub register_entries :
      List (Location × Entry P) → DefinitionRegistration P → DefinitionRegistration P
  register_entries [] r = r
  register_entries ((location, entry) ∷ entries) r =
      register_entries entries (register_entry location entry r).1

  unfoldable pub register_parameters :
      (CustomParameter → CustomParameter → Bool)
      → List CustomParameter
      → DefinitionRegistration P
      → DefinitionRegistration P
  register_parameters less [] r = r
  register_parameters less (p ∷ parameters) r =
      register_parameters less parameters
        (register_parameter less p.name p.regex p.use_for_snippets p.location r).1
