-- ===== src/Support/HookRegistry.antt =====
-- `HookRegistry` (cucumber_cpp/library/support/HookRegistry.cpp): a map from ids to definitions,
-- kept in the order of the ids.
pub mod Laws
use Prim.Native.String.{compare}
use Prim.Native.Nat.{Ordering}
use amp_cucumber_cpp_runner.Prelude.{
  ℕ, String, Bool, true, false, Option, none, some, List, [], ◌∷◌, ◌==◌, str_eq, if◌then◌else◌,
  length,
}
use amp_cucumber_cpp_runner.Platform.{Platform}
use amp_cucumber_cpp_runner.Util.Body.{Body}

-- `util::HookType`
pub data HookType : Type 0 where
  before_all after_all before_feature after_feature before after before_step after_step : HookType

-- The number of an enumerator, by which types are compared.
abbrev pub type_number : HookType → ℕ
type_number before_all = 0
type_number after_all = 1
type_number before_feature = 2
type_number after_feature = 3
type_number before = 4
type_number after = 5
type_number before_step = 6
type_number after_step = 7

-- `util::ScenarioInfo`
pub record ScenarioInfo : Type 0 where
  pub name : String
  pub tags : List String

-- A hook's body, from the scenario, where there is one, and from `hasError`.
abbrev pub HookFactory : Platform → Type 0
HookFactory P = Option ScenarioInfo → Bool → Body P

pub record HookData : Type 0 where
  pub id : String
  pub type : HookType
  pub expression : Option String
  pub name : Option String
  pub file_name : String
  pub line : ℕ

-- `HookRegistry::Definition`
pub record HookDefinition (P : Platform) : Type 0 where
  pub data_of : HookData
  pub tag_expression : P.TagExpression
  pub factory : HookFactory P

abbrev pub HookRegistry : Platform → Type 0
HookRegistry P = List (String × HookDefinition P)

module _ {P : Platform} where
  abbrev type_filter : HookType → HookDefinition P → Bool
  type_filter type d = type_number d.data_of.type == type_number type

  abbrev matches : List String → HookDefinition P → Bool
  matches tags d = P.evaluate d.tag_expression tags

  unfoldable pub find_ids : HookType → List String → HookRegistry P → List String
  find_ids type tags [] = []
  find_ids type tags ((id, d) ∷ registry) =
      let rest = find_ids type tags registry in
      if type_filter type d then (if matches tags d then id ∷ rest else rest) else rest

  unfoldable pub hooks_by_type : HookType → HookRegistry P → List HookData
  hooks_by_type type [] = []
  hooks_by_type type ((id, d) ∷ registry) =
      let rest = hooks_by_type type registry in
      if type_filter type d then d.data_of ∷ rest else rest

  abbrev pub size : HookRegistry P → ℕ
  size = length

  unfoldable pub get_definition_by_id : String → HookRegistry P → Option (HookDefinition P)
  get_definition_by_id key [] = none
  get_definition_by_id key ((id, d) ∷ registry) =
      if str_eq id key then some d else get_definition_by_id key registry

  -- `std::map::try_emplace`: an id that is there already keeps its definition.
  unfoldable pub register : String → HookDefinition P → HookRegistry P → HookRegistry P
  register key new [] = (key, new) ∷ []
  register key new ((id, d) ∷ registry) = elim (compare key id) [
    | Ordering.lt ↦ (key, new) ∷ (id, d) ∷ registry
    | Ordering.eq ↦ (id, d) ∷ registry
    | Ordering.gt ↦ (id, d) ∷ register key new registry
  ]
