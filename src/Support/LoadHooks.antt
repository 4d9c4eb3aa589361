-- ===== src/Support/LoadHooks.antt =====
-- `HookRegistry::LoadHooks` (cucumber_cpp/library/support/HookRegistry.cpp), which
-- cucumber_cpp/library/plugin/HookLoader.cpp calls: the registered hooks become definitions.
pub mod Laws
use amp_cucumber_cpp_runner.Prelude.{String, Option, none, some, List, [], ◌∷◌}
use amp_cucumber_cpp_runner.Platform.{Platform}
use amp_cucumber_cpp_runner.World.{Result, ok, err, tag_expression_error}
use amp_cucumber_cpp_runner.Support.HookRegistry.{HookData, HookDefinition, HookRegistry, register}
use amp_cucumber_cpp_runner.Support.DefinitionRegistration.{HookEntry}

abbrev pub value_or {ℓ} : {A : Type ℓ} → Option A → A → A
value_or none default = default
value_or (some a) default = a

module _ {P : Platform} where
  abbrev pub hook_data : HookEntry P → HookData
  hook_data entry = record {
    id = entry.id;
    type = entry.type;
    expression = entry.expression;
    name = entry.name;
    file_name = entry.location.0;
    line = entry.location.1;
  }

  -- `Definition::Definition`
  abbrev pub make_definition : HookEntry P → Result (HookDefinition P)
  make_definition entry = elim (P.parse_tags (value_or entry.expression "")) [
    | none ↦ err tag_expression_error
    | some tags ↦
        ok (record { data_of = hook_data entry; tag_expression = tags; factory = entry.factory })
  ]

  -- `LoadHooks`, over the hooks that `GetHooks` answers
  unfoldable pub load_hooks : List (HookEntry P) → HookRegistry P → Result (HookRegistry P)
  unfolding register
  load_hooks [] registry = ok registry
  load_hooks (entry ∷ entries) registry = elim (make_definition entry) [
    | err e ↦ err e
    | ok definition ↦ load_hooks entries (register entry.id definition registry)
  ]
