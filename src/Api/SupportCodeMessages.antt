-- ===== src/Api/SupportCodeMessages.antt =====
-- The messages about the support code (cucumber_cpp/library/api/RunCucumber.cpp), and
-- cucumber_cpp/library/util/TransformHookData.cpp.
pub mod Laws
use amp_cucumber_cpp_runner.Prelude.{
  ℕ, ◌+◌, String, Bool, true, false, Option, none, some, List, [], ◌∷◌, length, str_eq,
  if◌then◌else◌,
}
use amp_cucumber_cpp_runner.Messages.{
  Envelope, ParameterType, PatternType, cucumber_expression_type, regular_expression_type,
  StepDefinitionMessage, MessageHookType, before_test_run, after_test_run, before_test_case,
  after_test_case, before_test_step, after_test_step, HookMessage,
}
use amp_cucumber_cpp_runner.Platform.{
  Platform, ExpressionPatternType, cucumber_expression, regular_expression,
}
use amp_cucumber_cpp_runner.World.{World, Result, M, pure, at, ◌>>=◌, ◌>>◌, broadcast, next_id}
use amp_cucumber_cpp_runner.Support.{SupportCodeLibrary}
use amp_cucumber_cpp_runner.Support.HookRegistry.{
  HookType, HookData, HookRegistry, before_all, after_all, before_feature, after_feature, before,
  after, before_step, after_step, get_definition_by_id,
}
use amp_cucumber_cpp_runner.Support.StepRegistry.{
  StepDefinition, StepRegistry, UndefinedParameters, load_steps,
}
use amp_cucumber_cpp_runner.Support.DefinitionRegistration.{
  Entry, of_hook, of_step, DefinitionRegistration, load_ids,
}
use amp_cucumber_cpp_runner.Support.DefinitionRegistration.Entries.{
  registered_entries, registered_steps, get_hooks,
}
use amp_cucumber_cpp_runner.Support.LoadHooks.{load_hooks}
use amp_cucumber_cpp_runner.Plugin.ParameterLoader.{Parameter, ParameterLibrary, load_parameters}
use amp_cucumber_cpp_runner.Api.Gherkin.{drawing}

-- `MapHookType`
abbrev pub map_hook_type : HookType → Option MessageHookType
map_hook_type before_all = some before_test_run
map_hook_type after_all = some after_test_run
map_hook_type before_feature = none
map_hook_type after_feature = none
map_hook_type before = some before_test_case
map_hook_type after = some after_test_case
map_hook_type before_step = some before_test_step
map_hook_type after_step = some after_test_step

-- `TransformHookData`
abbrev pub transform_hook_data : HookData → HookMessage
transform_hook_data hook = record {
  id = hook.id;
  name = hook.name;
  tag_expression = hook.expression;
  type = map_hook_type hook.type;
  uri = hook.file_name;
  line = hook.line;
}

abbrev pub pattern_type_of : ExpressionPatternType → PatternType
pattern_type_of cucumber_expression = cucumber_expression_type
pattern_type_of regular_expression = regular_expression_type

abbrev parameter_message : Parameter → String → ParameterType
parameter_message parameter id = record {
  id = id;
  name = parameter.name;
  regular_expressions = parameter.regex;
  use_for_snippets = parameter.use_for_snippets;
  uri = parameter.file_name;
  line = parameter.line;
}

-- A result in the monad
abbrev pub lift : {P : Platform} {A : Type 0} → Result A → M P A
lift r w = (r, w)

module _ {P : Platform} where
  abbrev pub emit_parameter : Parameter → M P (Unit {0})
  emit_parameter parameter =
      if parameter.is_builtin
      then pure tt
      else do id ← next_id; broadcast (Envelope.parameter_type (parameter_message parameter id))

  -- `EmitParameters`, over the registry's parameters
  unfoldable pub emit_parameters : List Parameter → M P (Unit {0})
  emit_parameters [] = pure tt
  emit_parameters (parameter ∷ parameters) = do emit_parameter parameter; emit_parameters parameters

  -- `EmitUndefinedParameters`
  unfoldable pub emit_undefined_parameters : UndefinedParameters → M P (Unit {0})
  emit_undefined_parameters [] = pure tt
  emit_undefined_parameters ((expression, name) ∷ parameters) = do
    broadcast (Envelope.undefined_parameter_type expression name)
    emit_undefined_parameters parameters

  abbrev pub step_message : StepDefinition P → StepDefinitionMessage
  step_message definition = record {
    id = definition.id;
    pattern_source = definition.pattern;
    pattern_type = pattern_type_of definition.pattern_type;
    uri = definition.uri;
    line = definition.line;
  }

  -- `EmitStepDefinition`
  unfoldable pub emit_step_definition : StepDefinition P → M P (Unit {0})
  emit_step_definition definition = broadcast (Envelope.step_definition (step_message definition))

  -- `EmitHook`
  unfoldable pub emit_hook : HookData → M P (Unit {0})
  emit_hook hook = broadcast (Envelope.hook (transform_hook_data hook))

  -- The definition in `stepDefinitions`, a map that keeps the first of those with the same id
  unfoldable pub find_step : String → List (StepDefinition P) → Option (StepDefinition P)
  find_step id [] = none
  find_step id (definition ∷ definitions) =
      if str_eq definition.id id then some definition else find_step id definitions

  abbrev pub emit_known : Option (StepDefinition P) → M P (Unit {0})
  emit_known none = pure tt
  emit_known (some definition) = emit_step_definition definition

  -- The function that `EmitStepDefinitionsAndHooks` calls with each entry
  abbrev pub emit_entry : SupportCodeLibrary P → Entry P → M P (Unit {0})
  emit_entry support (of_step entry) =
      emit_known (find_step entry.id support.step_registry.registry)
  emit_entry support (of_hook entry) = do
    definition ← at (get_definition_by_id entry.id support.hook_registry)
    emit_hook definition.data_of

  -- `EmitStepDefinitionsAndHooks`, over the registered entries
  unfoldable pub emit_step_definitions_and_hooks :
      SupportCodeLibrary P → List (Entry P) → M P (Unit {0})
  emit_step_definitions_and_hooks support [] = pure tt
  emit_step_definitions_and_hooks support (entry ∷ entries) = do
    emit_entry support entry
    emit_step_definitions_and_hooks support entries

  abbrev pub no_steps : StepRegistry P
  no_steps = record { registry = []; id_to_definition = []; undefined_parameters = [] }

  abbrev pub library_of : HookRegistry P → StepRegistry P → SupportCodeLibrary P
  library_of hooks steps = record { hook_registry = hooks; step_registry = steps }

  -- `EmitSupportCodeMessages`, with the library that it fills
  unfoldable pub emit_support_code_messages :
      ParameterLibrary → DefinitionRegistration P → M P (SupportCodeLibrary P)
  emit_support_code_messages library registration = do
    registry ← lift (load_parameters library registration)
    emit_parameters (library.parameters registry)
    loaded ← drawing (λ issued.
        (load_ids issued registration, issued + length (registered_entries registration)))
    steps ← lift (load_steps (registered_steps loaded) no_steps)
    hooks ← lift (load_hooks (get_hooks loaded) [])
    emit_undefined_parameters steps.undefined_parameters
    emit_step_definitions_and_hooks (library_of hooks steps) (registered_entries loaded)
    pure (library_of hooks steps)
