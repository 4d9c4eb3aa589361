-- ===== src/Tests/Api.antt =====
-- The entry points at small inputs: cucumber_cpp/library/api and Application.cpp.
use amp_cucumber_cpp_runner.Prelude.{
  ℕ, ◌+◌, ◌≡◌, refl, String, true, false, none, some, List, [], ◌∷◌, ◌++◌, All, AllDistinct, map,
  ltb, values_of, contains_text, emplace, str_eq, if◌then◌else◌,
}
use amp_cucumber_cpp_runner.Messages.{Envelope, Pickle}
use amp_cucumber_cpp_runner.World.Returns.{Returns, Succeeds}
use amp_cucumber_cpp_runner.Assemble.{PickleSource}
use amp_cucumber_cpp_runner.Support.HookRegistry.{before}
use amp_cucumber_cpp_runner.Support.DefinitionRegistration.{
  DefinitionRegistration, register_entry, register_hook, register_step,
}
use amp_cucumber_cpp_runner.Support.DefinitionRegistration.Entries.{registered_entries}
use amp_cucumber_cpp_runner.Runtime.Worker.{RuntimeOptions}
use amp_cucumber_cpp_runner.Api.Gherkin.{Gherkin, Parsed, parsed, parser_error}
use amp_cucumber_cpp_runner.Api.LoadPickles.{Sources, reverse_order, load_pickles}
use amp_cucumber_cpp_runner.Api.LoadPickles.Collects.{IsInput}
use amp_cucumber_cpp_runner.Api.LoadPickles.Laws.{IsAnswer, load_pickles-IsAnswer}
use amp_cucumber_cpp_runner.Api.TestNames.{make_unique_test_names, sanitize_name}
use amp_cucumber_cpp_runner.Api.TestNames.Distinct.{HasName, make_unique_test_names-Distinct}
use amp_cucumber_cpp_runner.Api.TestNames.Trimming.{
  AllCodes, IsPlain, StartsFilled, EndsFilled, sanitize_name-IsPlain,
}
use amp_cucumber_cpp_runner.Api.SupportCodeMessages.{emit_support_code_messages}
use amp_cucumber_cpp_runner.Plugin.ParameterLoader.{Parameter, ParameterLibrary, contains_parameter}
use amp_cucumber_cpp_runner.Support.DefinitionRegistration.Parameters.{get_registered_parameters}
use amp_cucumber_cpp_runner.Api.SupportCodeMessages.Laws.{
  IsReadable, IsAddable, reading_of, emit_support_code_messages-Succeeds,
}
use amp_cucumber_cpp_runner.Api.RunCucumber.{Libraries, run_cucumber}
use amp_cucumber_cpp_runner.Api.RunCucumber.Laws.{IsRunOf, run_cucumber-IsRunOf}
use amp_cucumber_cpp_runner.Api.ListScenarios.{list_scenarios}
use amp_cucumber_cpp_runner.Api.ListScenarios.Agrees.{Agrees}
use amp_cucumber_cpp_runner.Api.ListScenarios.Laws.{IsListing, list_scenarios-IsListing}
use amp_cucumber_cpp_runner.Application.{FileSystem, Options, get_feature_files}
use amp_cucumber_cpp_runner.Application.Laws.{IsFeature, get_feature_files-All}
use amp_cucumber_cpp_runner.Tests.Sample.{plain, plain-IsDistinct, world, flaky}
use Prim.Native.String.{compare}
use amp_cucumber_cpp_runner.Util.Body.{Body}

abbrev pickle_of_file : String → String → Pickle
pickle_of_file id uri = record {
  id = id;
  uri = uri;
  name = "a;\tscenario";
  steps = record { id = "ps"; text = "a good step"; data_table = none; doc_string = none } ∷ [];
  tags = [];
  line = some 3;
}

abbrev parse_file : String → ℕ → Parsed × ℕ
parse_file uri issued =
    if str_eq uri "broken.feature"
    then (parser_error (record { what = "(1:1): expected"; line = 1; column = some 1 }), issued)
    else (parsed (record { uri = some uri; feature_tags = some [] }), issued + 1)

-- Each file has two scenarios of the same name.
abbrev gherkin : Gherkin
gherkin = record {
  slurp = λ path. path;
  parse = λ uri text issued. parse_file uri issued;
  compile = λ document uri issued. (
    pickle_of_file (plain.id_of issued) uri ∷ pickle_of_file (plain.id_of (issued + 1)) uri ∷ [],
    issued + 2,
  );
}

abbrev pub libraries : Libraries
libraries = record {
  gherkin = gherkin;
  Strategy = String;
  create_strategy = λ pattern. if str_eq pattern "[" then none else some pattern;
  match = str_eq;
  find_lineage_by = λ events pickle. none;
}

abbrev sources_of : List String → List String → Sources plain
sources_of paths patterns = record {
  paths = paths;
  tag_expression = some none;
  name_regexes = patterns;
  ordering = reverse_order;
}

abbrev runtime : RuntimeOptions plain
runtime = record {
  dry_run = false;
  fail_fast = false;
  fail_global_hook_fast = false;
  retry = 1;
  strict = true;
  retry_tag_expression = none;
  feature_hooks = false;
  repeat = none;
  repeat_tag_expression = none;
}

abbrev nothing_registered : DefinitionRegistration plain
nothing_registered = record {
  address = 0;
  registry = [];
  custom_parameters =
      record {
        name = "colour";
        regex = "red";
        use_for_snippets = true;
        local_id = 1;
        location = ("parameters.cpp", 1);
      }
      ∷ [];
  plugins = [];
  static_registry = [];
  static_custom_parameters = [];
}

-- A hook and a step of the program itself
abbrev pub registration : DefinitionRegistration plain
registration =
    (register_step "a good step" (λ table doc arguments. Body.finish) ("steps.cpp", 7)
      (register_hook (record { expression = ""; name = "hook"; order = 0 }) before
        (λ scenario has_error. flaky) ("hooks.cpp", 3) nothing_registered).1).1

abbrev colour : Parameter
colour = record {
  name = "colour";
  regex = "red" ∷ [];
  is_builtin = false;
  use_for_snippets = true;
  file_name = "parameters.cpp";
  line = 1;
}

-- A library whose registry is a list, which `GetParameters` refers to
abbrev pub parameters : ParameterLibrary
parameters = record {
  less = λ p q. ltb p.local_id q.local_id;
  ParameterRegistry = List Parameter;
  at_start = [];
  parameters = λ registry. registry;
  add_parameter = λ parameter registry.
      if contains_parameter parameter.name registry
      then none
      else some (registry ++ (parameter ∷ []));
  shown = λ before now. now;
}

parameters-IsAddable :
    All (IsAddable parameters) (get_registered_parameters parameters.less registration)
unfolding get_registered_parameters register_entry
parameters-IsAddable = ((λ now new. (now ++ (colour ∷ []), rw new refl)), tt)

registration-IsReadable : All (IsReadable plain) (map reading_of (registered_entries registration))
unfolding registered_entries register_entry
registration-IsReadable = ((none, refl), ((λ what h. cc h), tt))

run_cucumber-IsRunOf_example :
    IsRunOf libraries 3 runtime parameters registration
      (sources_of ("one.feature" ∷ "two.feature" ∷ []) ("a, scenario" ∷ []))
      world
      (run_cucumber libraries 3 runtime parameters registration
        (sources_of ("one.feature" ∷ "two.feature" ∷ []) ("a, scenario" ∷ []))
        world)
run_cucumber-IsRunOf_example =
    run_cucumber-IsRunOf libraries 3 runtime parameters registration
      (sources_of ("one.feature" ∷ "two.feature" ∷ []) ("a, scenario" ∷ [])) world

load_pickles-IsAnswer_example :
    Returns
      (λ answer v.
        (events : List Envelope) × (v.events ≡ [] ++ events)
        × All IsInput events
        × IsAnswer plain (some none) events answer)
      (load_pickles gherkin (sources_of ("one.feature" ∷ "broken.feature" ∷ []) []) world)
load_pickles-IsAnswer_example =
    load_pickles-IsAnswer gherkin (sources_of ("one.feature" ∷ "broken.feature" ∷ []) []) world

list_scenarios-IsListing_example :
    Returns
      (λ lines v.
        (events : List Envelope) × (v.events ≡ [] ++ events)
        × All IsInput events
        × IsListing libraries (sources_of ("one.feature" ∷ []) []) events lines)
      (list_scenarios libraries (sources_of ("one.feature" ∷ []) []) world)
list_scenarios-IsListing_example =
    list_scenarios-IsListing libraries (sources_of ("one.feature" ∷ []) []) world

abbrev twins : List PickleSource
twins =
    record {
      pickle = pickle_of_file "p" "one.feature";
      gherkin_document = record { uri = some "one.feature"; feature_tags = some [] };
    }
    ∷ record {
      pickle = pickle_of_file "q" "one.feature";
      gherkin_document = record { uri = some "one.feature"; feature_tags = some [] };
    }
    ∷ []

-- Two scenarios of the same name
named :
    make_unique_test_names plain (λ pickle. none) twins
    ≡ ("p", "a, scenario") ∷ ("q", "a, scenario.#II") ∷ []
unfolding make_unique_test_names emplace contains_text
named = refl

make_unique_test_names-Distinct_example :
    AllDistinct (values_of (make_unique_test_names plain (λ pickle. none) twins))
    × All (HasName (make_unique_test_names plain (λ pickle. none) twins)) twins
make_unique_test_names-Distinct_example =
    make_unique_test_names-Distinct plain (λ pickle. none) plain-IsDistinct twins

sanitize_name-IsPlain_example :
    AllCodes IsPlain (sanitize_name " a;\tb\r\n")
    × StartsFilled (sanitize_name " a;\tb\r\n")
    × EndsFilled (sanitize_name " a;\tb\r\n")
sanitize_name-IsPlain_example = sanitize_name-IsPlain " a;\tb\r\n"

emit_support_code_messages-Succeeds_example :
    Succeeds (emit_support_code_messages parameters registration)
emit_support_code_messages-Succeeds_example =
    emit_support_code_messages-Succeeds plain-IsDistinct parameters registration
      (λ before now. refl) parameters-IsAddable registration-IsReadable

abbrev files : FileSystem
files = record {
  is_directory = λ path. str_eq path "features";
  is_regular_file = λ path. true;
  extension = λ path. if str_eq path "one.feature" then ".feature" else ".txt";
  entries = λ folder. "one.feature" ∷ "notes.txt" ∷ [];
  recursive_entries = λ folder. [];
  compare_paths = compare;
}

abbrev pub options : Options
options = record {
  tags = [];
  paths = "features" ∷ [];
  dry_run = false;
  fail_fast = false;
  fail_global_hook_fast = false;
  retry = 0;
  retry_tag_filter = [];
  repeat = none;
  repeat_tag_filter = [];
  strict = true;
  feature_hooks = true;
  recursive = false;
  list_scenarios = false;
  load_paths = [];
  name_regexes = [];
  ordering = reverse_order;
}

get_feature_files-All_example : All (IsFeature files) (get_feature_files files options)
get_feature_files-All_example = get_feature_files-All files options
