-- ===== src/Tests/Contexts.antt =====
-- Contexts at small inputs: cucumber_cpp/library/Context.hpp.
use amp_cucumber_cpp_runner.Prelude.{
  ℕ, ◌≡◌, refl, String, true, false, Option, none, some, List, [], ◌∷◌,
}
use amp_cucumber_cpp_runner.Context.{Context, root, child, contains, find, get, assign}
use amp_cucumber_cpp_runner.Context.Layers.{
  Call, assign_key, erase_key, enter_inner, leave_inner, run_calls, replay, layers_of,
  lookup_layers, get-run_calls,
}
use amp_cucumber_cpp_runner.Context.Typed.{Types, undefined_behaviour, insert_as, get_type}
use amp_cucumber_cpp_runner.Context.Typed.Laws.{TypedCall, store_under, clear_under}

abbrev inner : Context ℕ
inner = child (("key", 1) ∷ []) (root (("key", 2) ∷ []))

abbrev calls : List (Call ℕ)
calls = erase_key "key" ∷ enter_inner ∷ assign_key "key" 3 ∷ leave_inner ∷ assign_key "other" 4 ∷ []

get-run_calls_example :
    (get "key" (run_calls calls inner) ≡ lookup_layers "key" (replay calls (layers_of inner)))
    × (contains "key" (run_calls calls inner)
        ≡ elim (lookup_layers "key" (replay calls (layers_of inner))) [
          | some _ ↦ true
          | none ↦ false
        ])
get-run_calls_example = get-run_calls calls inner "key"

-- A base class, the same one where it is constant, a class that begins with it, and one that has it
-- further on
data Class : Type 0 where
  base constant_base first second : Class

abbrev class_name : Class → String
class_name base = "Base"
class_name constant_base = "Base"
class_name first = "First"
class_name second = "Second"

abbrev address_as : Class → Class → Option (ℕ → ℕ)
address_as base base = some (λ x. x)
address_as base constant_base = some (λ x. x)
address_as base _ = none
address_as constant_base constant_base = some (λ x. x)
address_as constant_base base = some (λ x. x)
address_as constant_base _ = none
address_as first base = some (λ x. x)
address_as first constant_base = some (λ x. x)
address_as first first = some (λ x. x)
address_as first second = none
address_as second second = some (λ x. x)
address_as second _ = none

abbrev types : Types
types = record { Code = Class; Object = λ c. ℕ; name = class_name; reinterpret = address_as }

abbrev typed_calls : List (TypedCall types)
typed_calls = store_under base first 5 ∷ clear_under second ∷ []

-- An object whose base is not at its start is no object of the base at its address.
inserted_as_base :
    get_type types base (insert_as types base second 7 (root [])) ≡ undefined_behaviour
unfolding get_type insert_as get assign find
inserted_as_base = refl
