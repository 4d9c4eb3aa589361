-- ===== src/Application.antt =====
-- `Application` (cucumber_cpp/library/Application.cpp): from the options of the command line, which
-- CLI11 has read, to the exit code.
pub mod Laws
pub mod Program
use Prim.Native.Nat as Nat
use amp_cucumber_cpp_runner.Prelude.{
  ℕ, String, ◌<>◌, Bool, true, false, ◌&&◌, Option, none, some, List, [], ◌∷◌, ◌++◌, str_eq,
  if◌then◌else◌,
}
use amp_cucumber_cpp_runner.Platform.{Platform}
use amp_cucumber_cpp_runner.World.{M, pure, throw, catch_all, tag_expression_error, ◌>>=◌}
use amp_cucumber_cpp_runner.Support.DefinitionRegistration.{DefinitionRegistration}
use amp_cucumber_cpp_runner.Runtime.Worker.{RuntimeOptions}
use amp_cucumber_cpp_runner.Api.LoadPickles.{Ordering, Sources}
use amp_cucumber_cpp_runner.Plugin.ParameterLoader.{ParameterLibrary}
use amp_cucumber_cpp_runner.Api.RunCucumber.{Libraries, run_cucumber}
use amp_cucumber_cpp_runner.Api.ListScenarios.{list_scenarios}

-- `std::filesystem`: the kind of a path, its extension, and the paths in a directory, or anywhere
-- below it, and the order of paths
pub record FileSystem : Type 0 where
  pub is_directory : String → Bool
  pub is_regular_file : String → Bool
  pub extension : String → String
  pub entries : String → List String
  pub recursive_entries : String → List String
  pub compare_paths : String → String → Nat.Ordering

-- `Application::Options`, of which the formatters' are left out
pub record Options : Type 0 where
  pub tags : List String
  pub paths : List String
  pub dry_run : Bool
  pub fail_fast : Bool
  pub fail_global_hook_fast : Bool
  pub retry : ℕ
  pub retry_tag_filter : List String
  pub repeat : Option ℕ
  pub repeat_tag_filter : List String
  pub strict : Bool
  pub feature_hooks : Bool
  pub recursive : Bool
  pub list_scenarios : Bool
  pub load_paths : List String
  pub name_regexes : List String
  pub ordering : Ordering

module _ (files : FileSystem) where
  -- `IsFeatureFile`
  abbrev pub is_feature_file : String → Bool
  is_feature_file path = files.is_regular_file path && str_eq (files.extension path) ".feature"

  -- `std::set::emplace`
  unfoldable pub add_file : String → List String → List String
  add_file path [] = path ∷ []
  add_file path (file ∷ found) = elim (files.compare_paths path file) [
    | Nat.Ordering.lt ↦ path ∷ file ∷ found
    | Nat.Ordering.eq ↦ file ∷ found
    | Nat.Ordering.gt ↦ file ∷ add_file path found
  ]

  -- The feature files among some paths, put into `foundFiles`
  unfoldable pub add_feature_files : List String → List String → List String
  unfolding add_file
  add_feature_files [] found = found
  add_feature_files (path ∷ paths) found =
      add_feature_files paths (if is_feature_file path then add_file path found else found)

  -- `CollectFilesFromDirectory`
  abbrev pub collect_files_from_directory : Options → String → List String → List String
  collect_files_from_directory options folder =
      add_feature_files
        (if options.recursive then files.recursive_entries folder else files.entries folder)

  -- The loop of `GetFeatureFiles`
  unfoldable pub collect_files : Options → List String → List String → List String
  unfolding add_feature_files
  collect_files options [] found = found
  collect_files options (path ∷ paths) found = collect_files options paths (
      if files.is_directory path
      then collect_files_from_directory options path found
      else add_feature_files (path ∷ []) found)

  -- `GetFeatureFiles`
  unfoldable pub get_feature_files : Options → List String
  unfolding collect_files
  get_feature_files options = collect_files options options.paths []

-- `fmt::join(texts, " ")`
abbrev pub join : List String → String
join [] = ""
join (text ∷ []) = text
join (text ∷ next ∷ texts) = text <> " " <> join (next ∷ texts)

-- `EXIT_SUCCESS` and `EXIT_FAILURE`
abbrev pub exit_code : Bool → ℕ
exit_code passed = if passed then 0 else 1

abbrev is_listed : Option (List String) → Bool
is_listed none = false
is_listed (some scenarios) = true

module _ {P : Platform} (files : FileSystem) where
  abbrev parsed_tags : Option P.TagExpression → M P P.TagExpression
  parsed_tags none = throw tag_expression_error
  parsed_tags (some expression) = pure expression

  -- `cucumber::tag_expressions::Parse` of some tags
  abbrev pub parse_joined : List String → M P P.TagExpression
  parse_joined tags = parsed_tags (P.parse_tags (join tags))

  -- `MakeSources`
  unfoldable pub make_sources : Options → M P (Sources P)
  make_sources options = do
    tags ← parse_joined options.tags
    pure (record {
      paths = get_feature_files files options;
      tag_expression = some tags;
      name_regexes = options.name_regexes;
      ordering = options.ordering;
    })

  unfoldable pub make_runtime_options : Options → M P (RuntimeOptions P)
  make_runtime_options options = do
    retry_tags ← parse_joined options.retry_tag_filter
    repeat_tags ← parse_joined options.repeat_tag_filter
    pure (record {
      dry_run = options.dry_run;
      fail_fast = options.fail_fast;
      fail_global_hook_fast = options.fail_global_hook_fast;
      retry = options.retry;
      strict = options.strict;
      retry_tag_expression = some retry_tags;
      feature_hooks = options.feature_hooks;
      repeat = options.repeat;
      repeat_tag_expression = some repeat_tags;
    })

  module _ (L : Libraries) (depth : ℕ) (parameters : ParameterLibrary)
      (registration : DefinitionRegistration P) where
    unfoldable pub run_passed : Options → M P Bool
    run_passed options = do
      sources ← make_sources options
      runtime ← make_runtime_options options
      run_cucumber L depth runtime parameters registration sources

    -- `Application::RunFeatures`
    unfoldable pub run_features : Options → M P ℕ
    run_features options = do passed ← run_passed options; pure (exit_code passed)

    -- `Application::ListScenarios`, less the printing of the list
    unfoldable pub list_features : Options → M P ℕ
    list_features options = do
      sources ← make_sources options
      scenarios ← list_scenarios L sources
      pure (exit_code (is_listed scenarios))

    -- What `Application::Run` does with the options, with its handlers of exceptions
    unfoldable pub run_application : Options → M P ℕ
    unfolding run_features list_features
    run_application options =
        catch_all (if options.list_scenarios then list_features options else run_features options) 1
