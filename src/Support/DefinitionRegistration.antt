-- ===== src/Support/DefinitionRegistration.antt =====
-- `DefinitionRegistration` (cucumber_cpp/library/support/DefinitionRegistration.cpp and .hpp): the
-- hooks, steps and parameters that the program and its plugins register while they are loaded.
pub mod Ids
pub mod Parameters
pub mod Initialisers
pub mod Order
pub mod Entries
use Prim.Native.String.{compare}
use Prim.Native.Nat.{Ordering, compare as compare_numbers}
use amp_cucumber_cpp_runner.Prelude.{
  ℕ, ◌+◌, String, Bool, true, false, ◌&&◌, Option, none, some, List, [], ◌∷◌, ◌++◌, ◌==◌, length,
  str_eq, if◌then◌else◌,
}
use amp_cucumber_cpp_runner.Platform.{Platform}
use amp_cucumber_cpp_runner.Support.HookRegistry.{HookType, HookFactory}
use amp_cucumber_cpp_runner.Support.StepRegistry.{StepEntry, StepFactory}

-- `std::source_location`, less its column and function, by which nothing is ordered
abbrev pub Location : Type 0
Location = String × ℕ

-- `SourceLocationOrder`: by file, then by line
abbrev pub compare_locations : Location → Location → Ordering
compare_locations (file, line) (other_file, other_line) = elim (compare file other_file) [
  | Ordering.lt ↦ Ordering.lt
  | Ordering.eq ↦ compare_numbers line other_line
  | Ordering.gt ↦ Ordering.gt
]

-- `support::Hook`, and `GlobalHook`, which has no expression. The order is in two's complement.
pub record Hook : Type 0 where
  pub expression : String
  pub name : String
  pub order : ℕ

pub record GlobalHook : Type 0 where
  pub name : String
  pub order : ℕ

pub record HookEntry (P : Platform) : Type 0 where
  pub type : HookType
  pub expression : Option String
  pub name : Option String
  pub order : ℕ
  pub factory : HookFactory P
  pub location : Location
  pub id : String

-- What a text means where an empty one means that there is none
abbrev pub unless_empty : String → Option String
unless_empty text = if str_eq text "" then none else some text

-- `std::variant<HookEntry, StepStringRegistration::Entry>`
pub data Entry (P : Platform) : Type 0 where
  of_hook : HookEntry P → Entry P
  of_step : StepEntry P → Entry P

-- `std::map<std::source_location, Entry, SourceLocationOrder>`
abbrev pub Registry : Platform → Type 0
Registry P = List (Location × Entry P)

-- `cucumber_expressions::CustomParameterEntry`: its parameters, and its local id
pub record CustomParameter : Type 0 where
  pub name : String
  pub regex : String
  pub use_for_snippets : Bool
  pub local_id : ℕ
  pub location : Location

-- A plugin's own registration, at its address: of it only `registry` and `customParameters` are read.
pub record Plugin (P : Platform) : Type 0 where
  pub address : ℕ
  pub registry : Registry P
  pub custom_parameters : List CustomParameter

pub record DefinitionRegistration (P : Platform) : Type 0 where
  pub address : ℕ
  pub registry : Registry P
  pub custom_parameters : List CustomParameter
  pub plugins : List (Plugin P)
  pub static_registry : Registry P
  pub static_custom_parameters : List CustomParameter

abbrev is_empty {ℓ} : {A : Type ℓ} → List A → Bool
is_empty [] = true
is_empty (a ∷ rest) = false

module _ {P : Platform} where
  -- `HookEntry::HookEntry`
  abbrev pub hook_entry : HookType → Hook → HookFactory P → Location → HookEntry P
  hook_entry type hook factory location = record {
    type = type;
    expression = unless_empty hook.expression;
    name = unless_empty hook.name;
    order = hook.order;
    factory = factory;
    location = location;
    id = "unassigned";
  }

  abbrev pub global_hook_entry : HookType → GlobalHook → HookFactory P → Location → HookEntry P
  global_hook_entry type hook factory location = record {
    type = type;
    expression = none;
    name = unless_empty hook.name;
    order = hook.order;
    factory = factory;
    location = location;
    id = "unassigned";
  }

  -- `std::map::try_emplace`: the first registration at a line stays.
  unfoldable pub try_emplace : Location → Entry P → Registry P → Registry P
  try_emplace key new [] = (key, new) ∷ []
  try_emplace key new ((location, entry) ∷ registry) = elim (compare_locations key location) [
    | Ordering.lt ↦ (key, new) ∷ (location, entry) ∷ registry
    | Ordering.eq ↦ (location, entry) ∷ registry
    | Ordering.gt ↦ (location, entry) ∷ try_emplace key new registry
  ]

  -- `Register`, of each of the three kinds, with the number of entries that it answers
  unfoldable pub register_entry :
      Location → Entry P → DefinitionRegistration P → ℕ × DefinitionRegistration P
  unfolding try_emplace
  register_entry location entry r =
      let registry = try_emplace location entry r.registry in
      (length registry, record r { registry = registry })

  abbrev pub register_hook :
      Hook
      → HookType
      → HookFactory P
      → Location
      → DefinitionRegistration P
      → ℕ × DefinitionRegistration P
  register_hook hook type factory location =
      register_entry location (of_hook (hook_entry type hook factory location))

  abbrev pub register_global_hook :
      GlobalHook
      → HookType
      → HookFactory P
      → Location
      → DefinitionRegistration P
      → ℕ × DefinitionRegistration P
  register_global_hook hook type factory location =
      register_entry location (of_hook (global_hook_entry type hook factory location))

  abbrev pub register_step :
      String → StepFactory P → Location → DefinitionRegistration P → ℕ × DefinitionRegistration P
  register_step matcher factory (file_name, line) =
      register_entry (file_name, line)
        (of_step (record {
          regex = matcher;
          factory = factory;
          line = line;
          file_name = file_name;
          id = "unassigned";
        }))

  abbrev has_plugin : ℕ → List (Plugin P) → Bool
  has_plugin address [] = false
  has_plugin address (plugin ∷ plugins) =
      if plugin.address == address then true else has_plugin address plugins

  -- `RegisterPlugin`
  unfoldable pub register_plugin : Plugin P → DefinitionRegistration P → DefinitionRegistration P
  register_plugin plugin r =
      if plugin.address == r.address
      then r
      else if has_plugin plugin.address r.plugins
      then r
      else record r { plugins = r.plugins ++ (plugin ∷ []) }

  -- `UnregisterPlugins`
  unfoldable pub unregister_plugins : DefinitionRegistration P → DefinitionRegistration P
  unregister_plugins r = record r { plugins = []; registry = []; custom_parameters = [] }

  -- `TakeSnapshot`. What is moved from is left empty.
  unfoldable pub take_snapshot : DefinitionRegistration P → DefinitionRegistration P
  take_snapshot r =
      if is_empty r.static_registry && is_empty r.static_custom_parameters
      then record r {
        static_registry = r.registry;
        static_custom_parameters = r.custom_parameters;
        registry = [];
        custom_parameters = [];
      }
      else r

  abbrev pub with_id : String → Entry P → Entry P
  with_id id (of_hook entry) = of_hook (record entry { id = id })
  with_id id (of_step entry) = of_step (record entry { id = id })

  -- The loop over a registry in `LoadIds`, on the number of ids issued
  unfoldable pub assign_ids : ℕ → Registry P → Registry P
  assign_ids issued [] = []
  assign_ids issued ((location, entry) ∷ registry) =
      (location, with_id (P.id_of issued) entry) ∷ assign_ids (issued + 1) registry

  unfoldable pub assign_plugin_ids : ℕ → List (Plugin P) → List (Plugin P)
  unfolding assign_ids
  assign_plugin_ids issued [] = []
  assign_plugin_ids issued (plugin ∷ plugins) =
      record plugin { registry = assign_ids issued plugin.registry }
      ∷ assign_plugin_ids (issued + length plugin.registry) plugins

  -- `LoadIds`: the ids that the generator answers, one for each entry
  unfoldable pub load_ids : ℕ → DefinitionRegistration P → DefinitionRegistration P
  unfolding assign_plugin_ids
  load_ids issued r =
      let after_static = issued + length r.static_registry in
      record r {
        static_registry = assign_ids issued r.static_registry;
        registry = assign_ids after_static r.registry;
        plugins = assign_plugin_ids (after_static + length r.registry) r.plugins;
      }
