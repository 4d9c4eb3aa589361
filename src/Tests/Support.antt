-- ===== src/Tests/Support.antt =====
-- Parameter maps, registrations and hooks at small inputs: cucumber_cpp/library/support.
use mathlib.Core.List.{Perm}
use amp_cucumber_cpp_runner.Prelude.{
  ℕ, ◌≡◌, ◌↔◌, refl, String, none, some, List, [], ◌∷◌, map, All, AllDistinct, contains_text,
  lookup-swap,
}
use amp_cucumber_cpp_runner.World.{ok}
use amp_cucumber_cpp_runner.Support.ParameterMap.{
  validate_each, validate_keys, keys_to_regex, sort_keys, insert_key, escape_regex, is_special,
  append_keys, make_entries, lookup, ParameterMapEntries,
}
use amp_cucumber_cpp_runner.Support.ParameterMap.Laws.{
  IsValid, validate_keys-IsValid, lookup-make_entries,
}
use amp_cucumber_cpp_runner.Support.ParameterMap.Reading.{read_regex, read_regex-keys_to_regex}
use amp_cucumber_cpp_runner.Support.ParameterMap.Sorting.{LongestFirst, sort_keys-LongestFirst}
use amp_cucumber_cpp_runner.Support.HookRegistry.{HookRegistry, before, get_definition_by_id}
use amp_cucumber_cpp_runner.Support.DefinitionRegistration.{
  Location, compare_locations, Entry, of_hook, DefinitionRegistration, HookEntry, hook_entry,
  load_ids,
}
use amp_cucumber_cpp_runner.Support.DefinitionRegistration.Entries.{
  hooks_of, steps_of, registered_entries, get_hooks, registered_steps,
}
use amp_cucumber_cpp_runner.Support.DefinitionRegistration.Ids.{
  id_of_entry, load_ids-AllDistinct, get_hooks-entries,
}
use amp_cucumber_cpp_runner.Support.DefinitionRegistration.Initialisers.{register_entries}
use amp_cucumber_cpp_runner.Support.DefinitionRegistration.Order.{
  IsOrdered, entry_at, compare_locations-IsOrder, register_entries-IsMap,
}
use amp_cucumber_cpp_runner.Support.LoadHooks.{hook_data, load_hooks}
use amp_cucumber_cpp_runner.Support.LoadHooks.Laws.{IsLoaded, load_hooks-IsLoaded}
use amp_cucumber_cpp_runner.Tests.Sample.{plain, plain-IsDistinct, flaky}
use amp_cucumber_cpp_runner.Tests.Api.{registration}

abbrev keys : List String
keys = "a.b" ∷ "red" ∷ "scarlet" ∷ []

accepted : validate_keys keys ≡ none
unfolding validate_each contains_text
accepted = refl

keys-IsValid : IsValid keys
keys-IsValid = (validate_keys-IsValid keys).0 accepted

read_regex-keys_to_regex_example :
    (regex : String) × (keys_to_regex keys ≡ ok regex) × (read_regex regex ≡ some (sort_keys keys))
read_regex-keys_to_regex_example = read_regex-keys_to_regex keys keys-IsValid

expression : keys_to_regex keys ≡ ok "(scarlet|a\\.b|red)"
unfolding keys_to_regex validate_each sort_keys insert_key append_keys escape_regex is_special
    contains_text
expression = refl

validate_keys-IsValid_example : (validate_keys keys ≡ none) ↔ IsValid keys
validate_keys-IsValid_example = validate_keys-IsValid keys

sort_keys-LongestFirst_example : Perm (sort_keys keys) keys × LongestFirst (sort_keys keys)
sort_keys-LongestFirst_example = sort_keys-LongestFirst keys

abbrev colours : List (String × ℕ)
colours = ("a.b", 1) ∷ ("red", 2) ∷ ("scarlet", 3) ∷ []

lookup-make_entries_example :
    (made : ParameterMapEntries ℕ) × (make_entries colours ≡ ok made)
    × All (λ e. lookup e.0 made.values ≡ ok e.1) colours
lookup-make_entries_example = lookup-make_entries colours keys-IsValid

load_ids-AllDistinct_example :
    AllDistinct (map id_of_entry (registered_entries (load_ids 5 registration)))
load_ids-AllDistinct_example = load_ids-AllDistinct plain-IsDistinct 5 registration

get_hooks-entries_example :
    (get_hooks registration ≡ hooks_of (registered_entries registration))
    × (registered_steps registration ≡ steps_of (registered_entries registration))
get_hooks-entries_example = get_hooks-entries registration

abbrev entry : HookEntry plain
entry =
    record (hook_entry before (record { expression = "@slow"; name = "hook"; order = 0 })
      (λ scenario has_error. flaky) ("hooks.cpp", 3)) { id = "I" }

abbrev loaded : HookRegistry plain
loaded =
    (
      "I",
      record { data_of = hook_data entry; tag_expression = some "@slow"; factory = entry.factory },
    )
    ∷ []

loading : load_hooks (entry ∷ []) [] ≡ ok loaded
unfolding load_hooks
loading = refl

unknown : get_definition_by_id {P = plain} "I" [] ≡ none
unfolding get_definition_by_id
unknown = refl

load_hooks-IsLoaded_example : All (IsLoaded loaded) (entry ∷ [])
load_hooks-IsLoaded_example =
    load_hooks-IsLoaded (entry ∷ []) [] loaded (tt, tt) (unknown, tt) loading

abbrev last_line : List (Location × Entry plain)
last_line = (("b.cpp", 1), of_hook entry) ∷ []

-- The same registrations in two orders
abbrev registrations : List (Location × Entry plain)
registrations = (("a.cpp", 9), of_hook entry) ∷ (("a.cpp", 2), of_hook entry) ∷ last_line

abbrev reordered : List (Location × Entry plain)
reordered = (("a.cpp", 2), of_hook entry) ∷ (("a.cpp", 9), of_hook entry) ∷ last_line

abbrev fresh : DefinitionRegistration plain
fresh = record registration { registry = [] }

register_entries-IsMap_example :
    IsOrdered (register_entries registrations fresh).registry
    × ((location : Location)
        → entry_at location (register_entries registrations fresh).registry
          ≡ entry_at location registrations)
    × ((register_entries registrations fresh).registry
        ≡ (register_entries reordered fresh).registry)
register_entries-IsMap_example =
    register_entries-IsMap registrations reordered fresh refl (λ location.
      lookup-swap compare_locations compare_locations-IsOrder location ("a.cpp", 2) ("a.cpp", 9)
        (of_hook entry) (of_hook entry) last_line refl)
