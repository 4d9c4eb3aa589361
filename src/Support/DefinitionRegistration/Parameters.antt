-- ===== src/Support/DefinitionRegistration/Parameters.antt =====
-- The custom parameters of `DefinitionRegistration`
-- (cucumber_cpp/library/support/DefinitionRegistration.hpp and .cpp): a set in the order that the
-- library of expressions has for their entries.
use amp_cucumber_cpp_runner.Prelude.{ℕ, ◌+◌, String, Bool, List, [], ◌∷◌, length, if◌then◌else◌}
use amp_cucumber_cpp_runner.Platform.{Platform}
use amp_cucumber_cpp_runner.Support.DefinitionRegistration.{
  Location, CustomParameter, Plugin, DefinitionRegistration,
}

-- `std::set::insert`, with the set's comparison
unfoldable pub insert_parameter :
    (CustomParameter → CustomParameter → Bool)
    → CustomParameter
    → List CustomParameter
    → List CustomParameter
insert_parameter less new [] = new ∷ []
insert_parameter less new (old ∷ others) =
    let rest = insert_parameter less new others in
    if less new old then new ∷ old ∷ others else if less old new then old ∷ rest else old ∷ others

module _ (less : CustomParameter → CustomParameter → Bool) where
  -- `std::set::insert` of a range
  unfoldable pub insert_parameters :
      List CustomParameter → List CustomParameter → List CustomParameter
  unfolding insert_parameter
  insert_parameters [] found = found
  insert_parameters (new ∷ others) found =
      insert_parameters others (insert_parameter less new found)

  module _ {P : Platform} where
    -- `Register`, of a parameter, with the number of parameters that it answers. Its local id is
    -- the number of parameters that it finds, and one.
    unfoldable pub register_parameter :
        String → String → Bool → Location → DefinitionRegistration P → ℕ × DefinitionRegistration P
    unfolding insert_parameter
    register_parameter name regex use_for_snippets location r =
        let entry : CustomParameter = record {
          name = name;
          regex = regex;
          use_for_snippets = use_for_snippets;
          local_id = length r.custom_parameters + 1;
          location = location;
        } in
        let parameters = insert_parameter less entry r.custom_parameters in
        (length parameters, record r { custom_parameters = parameters })

    unfoldable pub insert_plugins : List (Plugin P) → List CustomParameter → List CustomParameter
    unfolding insert_parameters
    insert_plugins [] found = found
    insert_plugins (plugin ∷ plugins) found =
        insert_plugins plugins (insert_parameters plugin.custom_parameters found)

    -- `GetRegisteredParameters`
    unfoldable pub get_registered_parameters : DefinitionRegistration P → List CustomParameter
    unfolding insert_plugins insert_parameters
    get_registered_parameters r =
        insert_plugins r.plugins (insert_parameters r.custom_parameters r.static_custom_parameters)
