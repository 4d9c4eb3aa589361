-- ===== src/Api/SupportCodeMessages/Laws.antt =====
-- That the messages about the support code meet no unknown hook.
use amp_cucumber_cpp_runner.Prelude.{
  ℕ, ◌+◌, ◌≡◌, ◌≢◌, refl, sym, ap, ◌∙◌, String, Option, none, some, List, [], ◌∷◌, map, length, All,
  All-intro, AllDistinct, map-append, Bool-cases, false, inl, inr, if◌then◌else◌,
}
use amp_cucumber_cpp_runner.Platform.{
  Platform, IsDistinct, refused, cucumber_expression, regular_expression,
}
use amp_cucumber_cpp_runner.World.{Result, ok, M, ◌>>=◌, next_id}
use amp_cucumber_cpp_runner.World.Returns.{
  Succeeds, broadcast-Succeeds, next_id-Succeeds, >>=-Succeeds, pure-Succeeds, at->>=-Succeeds,
  if-Succeeds,
}
use amp_cucumber_cpp_runner.Support.{SupportCodeLibrary}
use amp_cucumber_cpp_runner.Support.HookRegistry.{HookRegistry, get_definition_by_id}
use amp_cucumber_cpp_runner.Support.StepRegistry.{
  StepDefinition, StepEntry, StepRegistry, UndefinedParameters, anchored, register, load_steps,
}
use amp_cucumber_cpp_runner.Support.StepRegistry.Laws.{returns_Compiled}
use amp_cucumber_cpp_runner.Support.DefinitionRegistration.{
  Entry, of_hook, of_step, Registry, Plugin, DefinitionRegistration, assign_ids, assign_plugin_ids,
  load_ids, with_id, CustomParameter,
}
use amp_cucumber_cpp_runner.Support.DefinitionRegistration.Parameters.{get_registered_parameters}
use amp_cucumber_cpp_runner.Support.DefinitionRegistration.Entries.{
  entries_of, plugin_values, registered_entries, hooks_of, steps_of,
}
use amp_cucumber_cpp_runner.Support.DefinitionRegistration.Ids.{
  id_of_entry, get_hooks-entries, load_ids-AllDistinct,
}
use amp_cucumber_cpp_runner.Support.LoadHooks.{value_or, load_hooks}
use amp_cucumber_cpp_runner.Support.LoadHooks.Laws.{IsLoaded, ids_of, load_hooks-IsLoaded}
use amp_cucumber_cpp_runner.Api.Gherkin.{drawing}
use amp_cucumber_cpp_runner.Plugin.ParameterLoader.{
  Parameter, ParameterLibrary, parameter_of, contains_parameter, load_each, load_parameters,
}
use amp_cucumber_cpp_runner.Api.SupportCodeMessages.{
  emit_parameter, emit_parameters, emit_undefined_parameters, emit_step_definition, emit_hook,
  emit_known, emit_step_definitions_and_hooks, lift, no_steps, emit_support_code_messages,
}

-- What a library has to read
pub data Reading : Type 0 where
  tags : Option String → Reading
  pattern : String → Reading

module _ {P : Platform} where
  -- What a library has to read for an entry: the tags of a hook, or the pattern of a step
  abbrev pub reading_of : Entry P → Reading
  reading_of (of_hook entry) = tags entry.expression
  reading_of (of_step entry) = pattern entry.regex

  reading-with_id :
      (id : String) (entry : Entry P) → reading_of (with_id id entry) ≡ reading_of entry
  reading-with_id id (of_hook entry) = refl
  reading-with_id id (of_step entry) = refl

  readings-assign_ids :
      (issued : ℕ) (registry : Registry P)
      → map reading_of (entries_of (assign_ids issued registry))
        ≡ map reading_of (entries_of registry)
  unfolding assign_ids
  readings-assign_ids issued [] = refl
  readings-assign_ids issued ((location, entry) ∷ registry) =
      simp (reading-with_id (P.id_of issued) entry, readings-assign_ids (issued + 1) registry)

  readings-assign_plugin_ids :
      (issued : ℕ) (plugins : List (Plugin P))
      → map reading_of (plugin_values (assign_plugin_ids issued plugins))
        ≡ map reading_of (plugin_values plugins)
  unfolding assign_plugin_ids
  readings-assign_plugin_ids issued [] = refl
  readings-assign_plugin_ids issued (plugin ∷ plugins) = simp (
    map-append,
    readings-assign_ids,
    readings-assign_plugin_ids (issued + length plugin.registry) plugins,
  )

  readings-load_ids :
      (issued : ℕ) (r : DefinitionRegistration P)
      → map reading_of (registered_entries (load_ids issued r))
        ≡ map reading_of (registered_entries r)
  unfolding load_ids registered_entries
  readings-load_ids issued r = simp (map-append, readings-assign_ids, readings-assign_plugin_ids)

  ids_of-All :
      (Q : String → Type 0) (entries : List (Entry P))
      → All Q (map id_of_entry entries)
      → All Q (ids_of (hooks_of entries))
  ids_of-All Q [] h = tt
  ids_of-All Q (of_hook entry ∷ entries) (h, hs) = (h, ids_of-All Q entries hs)
  ids_of-All Q (of_step entry ∷ entries) (h, hs) = ids_of-All Q entries hs

  ids_of-AllDistinct :
      (entries : List (Entry P))
      → AllDistinct (map id_of_entry entries)
      → AllDistinct (ids_of (hooks_of entries))
  ids_of-AllDistinct [] h = tt
  ids_of-AllDistinct (of_hook entry ∷ entries) (h, hs) =
      (ids_of-All (λ id. entry.id ≢ id) entries h, ids_of-AllDistinct entries hs)
  ids_of-AllDistinct (of_step entry ∷ entries) (h, hs) = ids_of-AllDistinct entries hs

-- `cucumber::tag_expressions` reads the expression of a hook, or the empty one; and the pattern of a
-- step is a regular expression or a cucumber expression, though it may name an undefined parameter.
abbrev pub IsReadable : Platform → Reading → Type 0
IsReadable P (tags expression) =
    (parsed : P.TagExpression) × (P.parse_tags (value_or expression "") ≡ some parsed)
IsReadable P (pattern text) =
    (what : String)
    → P.compile (if anchored text then regular_expression else cucumber_expression) text
      ≢ refused what

load_hooks-total :
    {P : Platform} (entries : List (Entry P)) (registry : HookRegistry P)
    → All (IsReadable P) (map reading_of entries)
    → (loaded : HookRegistry P) × (load_hooks (hooks_of entries) registry ≡ ok loaded)
unfolding load_hooks
load_hooks-total [] registry h = (registry, refl)
load_hooks-total (of_hook entry ∷ entries) registry ((parsed, read), hs) =
    rw (load_hooks, read) (load_hooks-total entries _ hs)
load_hooks-total (of_step entry ∷ entries) registry (h, hs) = load_hooks-total entries registry hs

register-total :
    {P : Platform} (entry : StepEntry P) (r : StepRegistry P)
    → IsReadable P (pattern entry.regex)
    → (next : StepRegistry P) × (register entry r ≡ ok next)
unfolding register
register-total entry r h = returns_Compiled _ _ _ _ h

load_steps-total :
    {P : Platform} (entries : List (Entry P)) (r : StepRegistry P)
    → All (IsReadable P) (map reading_of entries)
    → (loaded : StepRegistry P) × (load_steps (steps_of entries) r ≡ ok loaded)
unfolding load_steps
load_steps-total [] r h = (r, refl)
load_steps-total (of_hook entry ∷ entries) r (h, hs) = load_steps-total entries r hs
load_steps-total (of_step entry ∷ entries) r (h, hs) =
    let (next, made) = register-total entry r h in
    rw (load_steps, made) (load_steps-total entries next hs)

-- The library adds the parameter of a registered one, unless it has one of this name.
abbrev pub IsAddable : ParameterLibrary → CustomParameter → Type 0
IsAddable library custom =
    (now : library.ParameterRegistry)
    → contains_parameter custom.name (library.parameters now) ≡ false
    → (next : library.ParameterRegistry) × (library.add_parameter (parameter_of custom) now
        ≡ some next)

-- What `GetParameters` has answered is a reference to the registry.
abbrev pub IsReference : ParameterLibrary → Type 0
IsReference library =
    (before now : library.ParameterRegistry) → library.shown before now ≡ library.parameters now

load_each-total :
    (library : ParameterLibrary) (before : library.ParameterRegistry)
    (customs : List CustomParameter) (now : library.ParameterRegistry)
    → IsReference library
    → All (IsAddable library) customs
    → (next : library.ParameterRegistry) × (load_each library before customs now ≡ ok next)
unfolding load_each
load_each-total library before [] now reference h = (now, refl)
load_each-total library before (custom ∷ customs) now reference (h, hs) =
    elim (Bool-cases (contains_parameter custom.name (library.shown before now))) [
      | inl known ↦ rw known (load_each-total library before customs now reference hs)
      | inr unknown ↦
          let (next, added) =
            h now (ap (contains_parameter custom.name) (sym (reference before now)) ∙ unknown) in
          rw (unknown, added) (load_each-total library before customs next reference hs)
    ]

module _ {P : Platform} where
  emit_parameters-Succeeds :
      (parameters : List Parameter) → Succeeds (emit_parameters {P = P} parameters)
  unfolding emit_parameters
  emit_parameters-Succeeds [] = pure-Succeeds tt
  emit_parameters-Succeeds (parameter ∷ parameters) =
      >>=-Succeeds (emit_parameter parameter) _
        (if-Succeeds parameter.is_builtin _ _ (pure-Succeeds tt)
          (>>=-Succeeds next_id _ next_id-Succeeds (λ id. broadcast-Succeeds _)))
        (λ _. emit_parameters-Succeeds parameters)

  emit_undefined_parameters-Succeeds :
      (parameters : UndefinedParameters) → Succeeds (emit_undefined_parameters {P = P} parameters)
  unfolding emit_undefined_parameters
  emit_undefined_parameters-Succeeds [] = pure-Succeeds tt
  emit_undefined_parameters-Succeeds ((expression, name) ∷ parameters) =
      >>=-Succeeds _ _ (broadcast-Succeeds _) (λ _. emit_undefined_parameters-Succeeds parameters)

  emit_known-Succeeds : (found : Option (StepDefinition P)) → Succeeds (emit_known found)
  unfolding emit_step_definition
  emit_known-Succeeds none = pure-Succeeds tt
  emit_known-Succeeds (some definition) = broadcast-Succeeds _

  emit_entries-Succeeds :
      (support : SupportCodeLibrary P) (entries : List (Entry P))
      → All (IsLoaded support.hook_registry) (hooks_of entries)
      → Succeeds (emit_step_definitions_and_hooks support entries)
  unfolding emit_step_definitions_and_hooks emit_hook
  emit_entries-Succeeds support [] h = pure-Succeeds tt
  emit_entries-Succeeds support (of_step entry ∷ entries) h =
      >>=-Succeeds _ _ (emit_known-Succeeds _) (λ _. emit_entries-Succeeds support entries h)
  emit_entries-Succeeds support (of_hook entry ∷ entries) ((d, made, known), h) =
      >>=-Succeeds _ _ (at->>=-Succeeds _ d _ known (broadcast-Succeeds _))
        (λ _. emit_entries-Succeeds support entries h)

  drawing->>=-Succeeds :
      {A B : Type 0} (g : ℕ → A × ℕ) (f : A → M P B)
      → ((issued : ℕ) → Succeeds (f (g issued).0))
      → Succeeds (drawing g >>= f)
  unfolding drawing ◌>>=◌
  drawing->>=-Succeeds g f h = record {
    from = λ w. (h w.issued).from (record w { issued = (g w.issued).1 });
  }

  lift->>=-Succeeds :
      {A B : Type 0} (r : Result A) (a : A) (f : A → M P B)
      → r ≡ ok a
      → Succeeds (f a)
      → Succeeds (lift r >>= f)
  unfolding ◌>>=◌
  lift->>=-Succeeds r a f h s = rw h (record { from = s.from })

  get-nil : (id : String) → get_definition_by_id {P = P} id [] ≡ none
  unfolding get_definition_by_id
  get-nil id = refl

  -- The hooks that are loaded after `LoadIds` are all known to the registry.
  load_hooks-load_ids :
      (distinct : IsDistinct P) (issued : ℕ) (r : DefinitionRegistration P)
      (loaded : HookRegistry P)
      → load_hooks (hooks_of (registered_entries (load_ids issued r))) [] ≡ ok loaded
      → All (IsLoaded loaded) (hooks_of (registered_entries (load_ids issued r)))
  load_hooks-load_ids distinct issued r loaded h =
      load_hooks-IsLoaded _ [] loaded
        (ids_of-AllDistinct _ (load_ids-AllDistinct distinct issued r)) (All-intro _ _ get-nil) h

  -- Where the generator repeats no id, the hooks' tag expressions and the steps' patterns can be
  -- read, which may name undefined parameters, `GetParameters` answers a reference, and the library
  -- refuses no registered parameter with a new name, the support code is loaded and all messages
  -- about it are sent without an exception.
  pub emit_support_code_messages-Succeeds :
      (distinct : IsDistinct P) (library : ParameterLibrary)
      (registration : DefinitionRegistration P)
      → IsReference library
      → All (IsAddable library) (get_registered_parameters library.less registration)
      → All (IsReadable P) (map reading_of (registered_entries registration))
      → Succeeds (emit_support_code_messages library registration)
  unfolding emit_support_code_messages load_parameters
  emit_support_code_messages-Succeeds distinct library registration reference addable readable =
      let (registry, added) =
        load_each-total library library.at_start _ library.at_start reference addable in
      lift->>=-Succeeds _ registry _ added (
        >>=-Succeeds _ _ (emit_parameters-Succeeds (library.parameters registry)) (λ _.
          drawing->>=-Succeeds _ _ (λ issued.
            let loaded = load_ids issued registration in
            let entries = registered_entries loaded in
            let read : All (IsReadable P) (map reading_of entries) =
              rw (readings-load_ids issued registration) readable in
            let (hooks, made) = load_hooks-total entries [] read in
            let (steps, kept) = load_steps-total entries no_steps read in
            lift->>=-Succeeds _ steps _
              (ap (λ es. load_steps es no_steps) (get_hooks-entries loaded).1 ∙ kept)
              (lift->>=-Succeeds _ hooks _
                (ap (λ es. load_hooks es []) (get_hooks-entries loaded).0 ∙ made)
                (>>=-Succeeds _ _ (emit_undefined_parameters-Succeeds _) (λ _.
                  >>=-Succeeds _ _
                    (emit_entries-Succeeds _ entries
                      (load_hooks-load_ids distinct issued registration hooks made))
                    (λ _. pure-Succeeds _)))))))
