-- ===== src/Formatter/Junit/Document.antt =====
-- The document of the report (cucumber_cpp/library/formatter/JunitXmlFormatter.cpp): the tree of the
-- nodes that are appended to the XML library's document.
use amp_cucumber_cpp_runner.Prelude.{
  ℕ, ◌%◌, String, Option, none, some, List, [], ◌∷◌, ◌++◌, str_eq, if◌then◌else◌,
}
use amp_cucumber_cpp_runner.Platform.{Platform}
use amp_cucumber_cpp_runner.Formatter.Junit.{
  Query, Texts, failure, skipped, ReportFailure, ReportTestCase, ReportSuite, make_report,
}

-- A node of the document, with its character data: `failure`, `skipped` or `system-out`
pub record DetailNode : Type 0 where
  pub name : String
  pub attributes : List (String × String)
  pub data_text : Option String

-- A `testcase` node
pub record CaseNode : Type 0 where
  pub attributes : List (String × String)
  pub details : List DetailNode

-- The `testsuite` node
pub record SuiteNode : Type 0 where
  pub attributes : List (String × String)
  pub cases : List CaseNode

-- An attribute that is appended where there is a value
abbrev attribute_of : String → Option String → List (String × String)
attribute_of name none = []
attribute_of name (some value) = (name, value) ∷ []

abbrev failure_node : ReportFailure → DetailNode
failure_node reported = elim reported.kind [
  | failure ↦ record {
    name = "failure";
    attributes = attribute_of "type" reported.type ++ attribute_of "message" reported.message;
    data_text = reported.stack;
  }
  | skipped ↦ record {
    name = "skipped";
    attributes = attribute_of "message" reported.message;
    data_text = reported.stack;
  }
]

-- `AddFailure`
abbrev pub add_failure : Option ReportFailure → List DetailNode
add_failure none = []
add_failure (some reported) = failure_node reported ∷ []

-- `AddSystemOut`
abbrev pub add_system_out : String → List DetailNode
add_system_out output =
    if str_eq output ""
    then []
    else record { name = "system-out"; attributes = []; data_text = some output } ∷ []

module _ (P : Platform) (texts : Texts) where
  abbrev pub case_node : ReportTestCase → CaseNode
  case_node c = record {
    attributes =
        ("classname", c.classname) ∷ ("name", c.name) ∷ ("time", texts.seconds c.time) ∷ [];
    details = add_failure c.reported ++ add_system_out c.output;
  }

  -- `AddTestCases`
  unfoldable pub add_test_cases : List ReportTestCase → List CaseNode
  add_test_cases [] = []
  add_test_cases (c ∷ cases) = case_node c ∷ add_test_cases cases

  -- A number that is cast to `unsigned int`
  abbrev pub unsigned : ℕ → String
  unsigned n = P.to_decimal (n % 4_294_967_296)

  -- `AddTestSuiteAttributes` and `AddTimestamp`
  abbrev pub suite_attributes : String → ReportSuite → List (String × String)
  suite_attributes name report =
      ("name", name)
      ∷ ("time", texts.seconds report.time)
      ∷ ("tests", unsigned report.tests)
      ∷ ("skipped", unsigned report.skipped_tests)
      ∷ ("failures", unsigned report.failures)
      ∷ ("errors", unsigned report.errors)
      ∷ attribute_of "timestamp" report.timestamp

  -- `HandleTestRunFinished`, with the options for the names of the suite and of the classes
  unfoldable pub handle_test_run_finished : String → Option String → Query → SuiteNode
  unfolding make_report add_test_cases
  handle_test_run_finished suite_name class_name query =
      let report = make_report P texts query class_name in
      record {
        attributes = suite_attributes suite_name report;
        cases = add_test_cases report.test_cases;
      }
