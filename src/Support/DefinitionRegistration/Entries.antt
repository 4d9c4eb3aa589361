-- ===== src/Support/DefinitionRegistration/Entries.antt =====
-- The registered hooks and steps, those of the snapshot first: `GetHooks`, `ForEachRegisteredStep` and
-- `ForEachRegisteredEntry` of cucumber_cpp/library/support/DefinitionRegistration.cpp and .hpp.
use amp_cucumber_cpp_runner.Prelude.{List, [], ◌∷◌, ◌++◌}
use amp_cucumber_cpp_runner.Platform.{Platform}
use amp_cucumber_cpp_runner.Support.StepRegistry.{StepEntry}
use amp_cucumber_cpp_runner.Support.DefinitionRegistration.{
  DefinitionRegistration, Entry, of_hook, of_step, HookEntry, Plugin, Registry,
}

module _ {P : Platform} where
  abbrev pub entries_of : Registry P → List (Entry P)
  entries_of [] = []
  entries_of ((location, entry) ∷ registry) = entry ∷ entries_of registry

  abbrev pub plugin_values : List (Plugin P) → List (Entry P)
  plugin_values [] = []
  plugin_values (plugin ∷ plugins) = entries_of plugin.registry ++ plugin_values plugins

  -- `ForEachRegisteredEntry`: the entries that it calls its function with, in order
  unfoldable pub registered_entries : DefinitionRegistration P → List (Entry P)
  registered_entries r =
      entries_of r.static_registry ++ entries_of r.registry ++ plugin_values r.plugins

  abbrev pub hooks_of : List (Entry P) → List (HookEntry P)
  hooks_of [] = []
  hooks_of (of_hook entry ∷ entries) = entry ∷ hooks_of entries
  hooks_of (of_step entry ∷ entries) = hooks_of entries

  abbrev pub steps_of : List (Entry P) → List (StepEntry P)
  steps_of [] = []
  steps_of (of_hook entry ∷ entries) = steps_of entries
  steps_of (of_step entry ∷ entries) = entry ∷ steps_of entries

  abbrev pub plugin_hooks : List (Plugin P) → List (HookEntry P)
  plugin_hooks [] = []
  plugin_hooks (plugin ∷ plugins) = hooks_of (entries_of plugin.registry) ++ plugin_hooks plugins

  -- `GetHooks`
  unfoldable pub get_hooks : DefinitionRegistration P → List (HookEntry P)
  get_hooks r =
      hooks_of (entries_of r.static_registry)
      ++ hooks_of (entries_of r.registry)
      ++ plugin_hooks r.plugins

  abbrev pub plugin_steps : List (Plugin P) → List (StepEntry P)
  plugin_steps [] = []
  plugin_steps (plugin ∷ plugins) = steps_of (entries_of plugin.registry) ++ plugin_steps plugins

  -- `ForEachRegisteredStep`: the entries that it calls its function with, in order
  unfoldable pub registered_steps : DefinitionRegistration P → List (StepEntry P)
  registered_steps r =
      steps_of (entries_of r.static_registry)
      ++ steps_of (entries_of r.registry)
      ++ plugin_steps r.plugins
