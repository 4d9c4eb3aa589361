-- ===== src/Formatter/Usage.antt =====
-- `UsageFormatter` (cucumber_cpp/library/formatter/UsageFormatter.cpp): which steps have used each
-- step definition, and how long they took.
pub mod Columns
pub mod Complete
pub mod Known
pub mod Mean
pub mod Sorted
pub mod Table
pub mod Widths
pub mod Report
use Prim.Native.Nat.{Ordering, compare as compare_numbers}
use Prim.Native.String.{compare, len}
use mathlib.Core.Option
use amp_cucumber_cpp_runner.Prelude.{
  ℕ, zero, suc, ◌+◌, ◌/◌, String, ◌<>◌, Bool, true, false, not, ◌&&◌, ◌||◌, Option, none, some,
  List, [], ◌∷◌, ◌++◌, ltb, ◌==◌, length, keep_if, map, str_eq, if◌then◌else◌,
}
use amp_cucumber_cpp_runner.Messages.{Status, Duration}
use amp_cucumber_cpp_runner.Platform.{Platform}
use amp_cucumber_cpp_runner.World.{Result, ok, err, out_of_range}
use amp_cucumber_cpp_runner.Util.Duration.{duration_to_nano_seconds}

-- `HasExecuted`
abbrev pub has_executed : Status → Bool
has_executed Status.unknown = true
has_executed Status.passed = true
has_executed Status.pending = true
has_executed Status.failed = true
has_executed _ = false

-- `std::optional<std::chrono::nanoseconds>` as a mean: -1, where there are no matches; none, where
-- none of them has been executed; or a number.
pub data MeanDuration : Type 0 where
  minus_one no_duration : MeanDuration
  nanoseconds : ℕ → MeanDuration

-- The place of a mean in the order of optionals
abbrev pub mean_rank : MeanDuration → ℕ
mean_rank no_duration = 0
mean_rank minus_one = 1
mean_rank (nanoseconds n) = n + 2

abbrev pub rank_of_duration : Option ℕ → ℕ
rank_of_duration none = 0
rank_of_duration (some n) = n + 1

pub record UsageMatch : Type 0 where
  pub duration : Option ℕ
  pub line : ℕ
  pub text : String
  pub uri : String

pub record Usage : Type 0 where
  pub line : ℕ
  pub matches : List UsageMatch
  pub pattern : String
  pub pattern_type : String
  pub uri : String
  pub mean_duration : MeanDuration

-- What `cucumber::query` answers: a step definition, a finished step with the texts and the line of
-- its pickle step and its Gherkin step, and a test case with its finished steps
pub record KnownDefinition : Type 0 where
  pub id : String
  pub pattern : String
  pub pattern_type : String
  pub uri : Option String
  pub line : Option ℕ

pub record UsedStep : Type 0 where
  pub definition_ids : Option (List String)
  pub status : Status
  pub duration : Duration
  pub text : String
  pub line : ℕ

pub record UsedCase : Type 0 where
  pub is_finished : Bool
  pub uri : Option String
  pub steps : List UsedStep

abbrev or_zero : Option ℕ → ℕ
or_zero none = 0
or_zero (some n) = n

abbrev or_empty : Option String → String
or_empty none = ""
or_empty (some text) = text

abbrev pub Mapping : Type 0
Mapping = List (String × Usage)

-- `mapping[id] = usage`, in the order of the ids
unfoldable pub assign_usage : String → Usage → Mapping → Mapping
assign_usage id usage [] = (id, usage) ∷ []
assign_usage id usage ((key, old) ∷ mapping) = elim (compare id key) [
  | Ordering.lt ↦ (id, usage) ∷ (key, old) ∷ mapping
  | Ordering.eq ↦ (key, usage) ∷ mapping
  | Ordering.gt ↦ (key, old) ∷ assign_usage id usage mapping
]

abbrev pub unused : KnownDefinition → Usage
unused definition = record {
  line = or_zero definition.line;
  matches = [];
  pattern = definition.pattern;
  pattern_type = definition.pattern_type;
  uri = or_empty definition.uri;
  mean_duration = no_duration;
}

-- `BuildEmptyMapping`, on the mapping so far
unfoldable pub build_empty_mapping : List KnownDefinition → Mapping → Mapping
unfolding assign_usage
build_empty_mapping [] mapping = mapping
build_empty_mapping (definition ∷ definitions) mapping =
    build_empty_mapping definitions (assign_usage definition.id (unused definition) mapping)

-- `CreateUsageMatch`
abbrev pub create_usage_match : Option String → UsedStep → UsageMatch
create_usage_match uri step = record {
  duration =
      if has_executed step.status then some (duration_to_nano_seconds step.duration) else none;
  line = step.line;
  text = step.text;
  uri = or_empty uri;
}

-- `mapping.at(id).matches.emplace_back`
unfoldable pub add_match : String → UsageMatch → Mapping → Result Mapping
add_match id used [] = err out_of_range
add_match id used ((key, usage) ∷ mapping) =
    if str_eq key id
    then ok ((key, record usage { matches = usage.matches ++ (used ∷ []) }) ∷ mapping)
    else elim (add_match id used mapping) [ ok rest ↦ ok ((key, usage) ∷ rest) | err e ↦ err e ]

-- `AddUsageMatchToMapping`, with `ShouldProcessTestStep`: steps with one definition alone
abbrev pub add_step : Option String → UsedStep → Option (List String) → Mapping → Result Mapping
add_step uri step (some (id ∷ [])) mapping = add_match id (create_usage_match uri step) mapping
add_step uri step _ mapping = ok mapping

unfoldable pub add_steps : Option String → List UsedStep → Mapping → Result Mapping
unfolding add_match
add_steps uri [] mapping = ok mapping
add_steps uri (step ∷ steps) mapping = elim (add_step uri step step.definition_ids mapping) [
  | ok more ↦ add_steps uri steps more
  | err e ↦ err e
]

-- `PopulateMappingWithMatches`
unfoldable pub populate_mapping : List UsedCase → Mapping → Result Mapping
unfolding add_steps
populate_mapping [] mapping = ok mapping
populate_mapping (used ∷ cases) mapping =
    elim (if used.is_finished then add_steps used.uri used.steps mapping else ok mapping) [
      | ok more ↦ populate_mapping cases more
      | err e ↦ err e
    ]

-- The durations that there are
abbrev pub valid_durations : List UsageMatch → List ℕ
valid_durations [] = []
valid_durations (used ∷ matches) = elim used.duration [
  | none ↦ valid_durations matches
  | some n ↦ n ∷ valid_durations matches
]

abbrev pub total : List ℕ → ℕ
total [] = 0
total (n ∷ ns) = n + total ns

abbrev pub mean_of : List ℕ → MeanDuration
mean_of [] = no_duration
mean_of (n ∷ ns) = nanoseconds (total (n ∷ ns) / length (n ∷ ns))

-- `CalculateMeanDuration`
unfoldable pub calculate_mean_duration : List UsageMatch → MeanDuration
calculate_mean_duration [] = minus_one
calculate_mean_duration (used ∷ matches) = mean_of (valid_durations (used ∷ matches))

-- `FinalizeMappingWithMeanDurations`, of the values of the mapping
unfoldable pub finalize_mapping : Mapping → List Usage
unfolding calculate_mean_duration
finalize_mapping [] = []
finalize_mapping ((key, usage) ∷ mapping) =
    record usage { mean_duration = calculate_mean_duration usage.matches }
    ∷ finalize_mapping mapping
