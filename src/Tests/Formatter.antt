-- ===== src/Tests/Formatter.antt =====
-- The formatters at small inputs: cucumber_cpp/library/formatter.
use amp_cucumber_cpp_runner.Prelude.{
  ℕ, ◌≤◌, ◌≡◌, refl, ◌<>◌, true, false, Option, none, some, List, [], ◌∷◌, find_key, arith,
}
use amp_cucumber_cpp_runner.Messages.{Status}
use amp_cucumber_cpp_runner.World.{ok, err, out_of_range}
use amp_cucumber_cpp_runner.Util.Duration.{duration_to_nano_seconds}
use amp_cucumber_cpp_runner.Formatter.Junit.{StartedCase, Query, Texts}
use amp_cucumber_cpp_runner.Formatter.Junit.Document.{unsigned, handle_test_run_finished}
use amp_cucumber_cpp_runner.Formatter.Junit.Counts.{
  occurrences, count_nodes, handle_test_run_finished-IsCounted,
}
use amp_cucumber_cpp_runner.Formatter.Usage.{
  UsageMatch, Usage, KnownDefinition, UsedStep, UsedCase, nanoseconds, calculate_mean_duration,
}
use amp_cucumber_cpp_runner.Formatter.Usage.Report.{get_usage}
use amp_cucumber_cpp_runner.Prelude.{contains_text}
use amp_cucumber_cpp_runner.Formatter.Usage.Known.{AllKnown, IsDefined}
use amp_cucumber_cpp_runner.Formatter.Usage.Complete.{reported, used_in_cases, get_usage-reported}
use amp_cucumber_cpp_runner.Formatter.Usage.Sorted.{IsSortedReport, get_usage-IsSortedReport}
use amp_cucumber_cpp_runner.Formatter.Usage.Mean.{calculate_mean_duration-between}
use amp_cucumber_cpp_runner.Formatter.Registry.{
  Formatters, Output, given, file, formatter_option, before_colon, after_colon, open_output,
  make_listener, enable_formatter, enable_formatters,
}
use amp_cucumber_cpp_runner.Tests.Sample.{plain}

abbrev texts : Texts
texts = record {
  pad = λ width text. text;
  lower = λ text. text;
  seconds = λ millis. plain.to_decimal millis;
}

abbrev case_of : Option Status → StartedCase
case_of status = record {
  feature_name = some "feature";
  uri = "one.feature";
  long_name = "feature - scenario";
  duration = none;
  most_severe = elim status [
    | none ↦ none
    | some s ↦ some (record { status = s; message = none; exception = none })
  ];
  steps = [];
}

abbrev cases : List StartedCase
cases =
    case_of (some Status.failed)
    ∷ case_of (some Status.passed)
    ∷ case_of (some Status.skipped)
    ∷ case_of (some Status.undefined)
    ∷ case_of none
    ∷ []

abbrev query : Query
query = record {
  started = cases;
  count = λ status. occurrences status cases;
  tests = 5;
  duration = none;
  timestamp = none;
}

handle_test_run_finished-IsCounted_example :
    let suite = handle_test_run_finished plain texts "Cucumber" none query in
    (find_key "failures" suite.attributes
      ≡ some (unsigned plain texts (count_nodes "failure" suite.cases)))
    × (find_key "skipped" suite.attributes
        ≡ some (unsigned plain texts (count_nodes "skipped" suite.cases)))
handle_test_run_finished-IsCounted_example =
    handle_test_run_finished-IsCounted plain texts "Cucumber" none query (λ status. refl)

abbrev match_of : Option ℕ → UsageMatch
match_of duration = record {
  duration = duration;
  line = 3;
  text = "a good step";
  uri = "one.feature";
}

abbrev timed_matches : List UsageMatch
timed_matches = match_of (some 3) ∷ match_of none ∷ match_of (some 8) ∷ []

mean : calculate_mean_duration timed_matches ≡ nanoseconds 5
unfolding calculate_mean_duration
mean = refl

calculate_mean_duration-between_example : (3 ≤ 5) × (5 ≤ 8)
calculate_mean_duration-between_example =
    calculate_mean_duration-between timed_matches 3 8 5 mean (omega arith, (omega arith, tt))
      (omega arith, (omega arith, tt))

abbrev pub usages : List Usage
usages =
    record {
      line = 7;
      matches = timed_matches;
      pattern = "a good step that has a long pattern";
      pattern_type = "CUCUMBER_EXPRESSION";
      uri = "steps.cpp";
      mean_duration = nanoseconds 5;
    }
    ∷ []

abbrev definitions : List KnownDefinition
definitions =
    record {
      id = "a";
      pattern = "a good step";
      pattern_type = "CUCUMBER_EXPRESSION";
      uri = some "steps.cpp";
      line = some 7;
    }
    ∷ []

abbrev used_step : UsedStep
used_step = record {
  definition_ids = some ("a" ∷ []);
  status = Status.passed;
  duration = record { seconds = 0; nanos = 5 };
  text = "a good step";
  line = 3;
}

abbrev used_cases : List UsedCase
used_cases =
    record { is_finished = true; uri = some "one.feature"; steps = used_step ∷ used_step ∷ [] } ∷ []

abbrev used : Usage
used = record {
  line = 7;
  matches = match_of (some 5) ∷ match_of (some 5) ∷ [];
  pattern = "a good step";
  pattern_type = "CUCUMBER_EXPRESSION";
  uri = "steps.cpp";
  mean_duration = nanoseconds 5;
}

usage : get_usage definitions used_cases false ≡ ok (used ∷ [])
unfolding get_usage duration_to_nano_seconds
usage = refl

known : AllKnown (IsDefined definitions) used_cases
unfolding contains_text
known = ((refl, (refl, tt)), tt)

get_usage-IsSortedReport_example :
    (usages : List Usage) × (get_usage definitions used_cases true ≡ ok usages)
    × IsSortedReport usages
get_usage-IsSortedReport_example = get_usage-IsSortedReport definitions used_cases true known

get_usage-reported_example :
    (usages : List Usage) × (get_usage definitions used_cases false ≡ ok usages)
    × (reported usages ≡ used_in_cases used_cases)
get_usage-reported_example = get_usage-reported definitions used_cases known

option_of_text :
    formatter_option "junit:out:1.xml" ≡ record { name = "junit"; output = "out:1.xml" }
unfolding formatter_option before_colon after_colon
option_of_text = refl

abbrev registered : Formatters Output
registered = record {
  available_formatters = ("usage", record { factory = λ output. output; has_output = true }) ∷ [];
  custom_output_files = [];
}

-- A second formatter writes to the file that the first one opened.
shared_file :
    enable_formatters Output (λ path. "/" <> path) ("usage" ∷ "usage:a" ∷ "usage:a" ∷ []) registered
    ≡ (
      ok (given ∷ file "/a" ∷ file "/a" ∷ []),
      record registered { custom_output_files = "/a" ∷ [] },
    )
unfolding enable_formatters enable_formatter formatter_option before_colon after_colon open_output
    make_listener contains_text find_key
shared_file = refl

-- The file is opened before the name is looked up.
unknown_formatter :
    enable_formatters Output (λ path. "/" <> path) ("other:a" ∷ []) registered
    ≡ (err out_of_range, record registered { custom_output_files = "/a" ∷ [] })
unfolding enable_formatters enable_formatter formatter_option before_colon after_colon open_output
    make_listener contains_text find_key
unknown_formatter = refl
