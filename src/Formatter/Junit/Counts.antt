-- ===== src/Formatter/Junit/Counts.antt =====
-- That the numbers of a suite are those of its test cases.
use amp_cucumber_cpp_runner.Prelude.{
  ℕ, ◌+◌, ◌≡◌, refl, sym, ap, ◌∙◌, String, Bool, true, false, Option, none, some, List, [], ◌∷◌,
  ◌++◌, find_key, str_eq, Bool-cases, inl, inr, arith, if◌then◌else◌,
}
use amp_cucumber_cpp_runner.Messages.{Status}
use amp_cucumber_cpp_runner.Platform.{Platform}
use amp_cucumber_cpp_runner.Formatter.Junit.{
  ReportedException, SevereResult, StartedCase, Query, Texts, make_failure, make_test_case,
  make_test_cases, make_report,
}
use amp_cucumber_cpp_runner.Formatter.Junit.Document.{
  DetailNode, CaseNode, add_failure, add_system_out, case_node, add_test_cases, unsigned,
  handle_test_run_finished,
}

abbrev same_status : Status → Status → Bool
same_status Status.unknown Status.unknown = true
same_status Status.passed Status.passed = true
same_status Status.skipped Status.skipped = true
same_status Status.pending Status.pending = true
same_status Status.undefined Status.undefined = true
same_status Status.ambiguous Status.ambiguous = true
same_status Status.failed Status.failed = true
same_status _ _ = false

-- One for a test case whose most severe result has the status, and else nothing
abbrev is_counted : Status → Option SevereResult → ℕ
is_counted status none = 0
is_counted status (some result) = if same_status status result.status then 1 else 0

-- How many test cases have a status as that of their most severe result
abbrev pub occurrences : Status → List StartedCase → ℕ
occurrences status [] = 0
occurrences status (started ∷ cases) =
    is_counted status started.most_severe + occurrences status cases

-- The numbers that the query answers are those of the test cases that it answers.
abbrev pub IsCounted : Query → Type 0
IsCounted query = (status : Status) → query.count status ≡ occurrences status query.started

abbrev details_named : String → List DetailNode → ℕ
details_named name [] = 0
details_named name (detail ∷ details) =
    (if str_eq detail.name name then 1 else 0) + details_named name details

-- How many nodes of a name the test cases have among their children
abbrev pub count_nodes : String → List CaseNode → ℕ
count_nodes name [] = 0
count_nodes name (node ∷ nodes) = details_named name node.details + count_nodes name nodes

details_named-append :
    (name : String) (xs ys : List DetailNode)
    → details_named name (xs ++ ys) ≡ details_named name xs + details_named name ys
details_named-append name [] ys = omega arith
details_named-append name (x ∷ xs) ys = omega (arith, details_named-append name xs ys)

system_out-other :
    (name output : String)
    → str_eq "system-out" name ≡ false
    → details_named name (add_system_out output) ≡ 0
system_out-other name output h = elim (Bool-cases (str_eq output "")) [
  | inl empty ↦ rw empty refl
  | inr text ↦ rw (text, h) (omega arith)
]

-- How often a test case counts as a failure: for any status but passed and skipped
abbrev failing : Option SevereResult → ℕ
failing severe =
    is_counted Status.unknown severe
    + is_counted Status.pending severe
    + is_counted Status.undefined severe
    + is_counted Status.ambiguous severe
    + is_counted Status.failed severe

-- The nodes of a test case with a result of a status
nodes_of_status :
    (status : Status) (message : Option String) (exception : Option ReportedException)
    → let severe : Option SevereResult =
        some (record { status = status; message = message; exception = exception }) in
      (details_named "failure" (add_failure (make_failure severe)) ≡ failing severe)
      × (details_named "skipped" (add_failure (make_failure severe))
          ≡ is_counted Status.skipped severe)
nodes_of_status Status.unknown message exception = (omega arith, omega arith)
nodes_of_status Status.passed message exception = (omega arith, omega arith)
nodes_of_status Status.skipped message exception = (omega arith, omega arith)
nodes_of_status Status.pending message exception = (omega arith, omega arith)
nodes_of_status Status.undefined message exception = (omega arith, omega arith)
nodes_of_status Status.ambiguous message exception = (omega arith, omega arith)
nodes_of_status Status.failed message exception = (omega arith, omega arith)

nodes_of_severe :
    (severe : Option SevereResult)
    → (details_named "failure" (add_failure (make_failure severe)) ≡ failing severe)
      × (details_named "skipped" (add_failure (make_failure severe))
          ≡ is_counted Status.skipped severe)
nodes_of_severe none = (omega arith, omega arith)
nodes_of_severe (some result) = nodes_of_status result.status result.message result.exception

module _ (P : Platform) (texts : Texts) where
  details-case_node :
      (name : String) (class_name : Option String) (started : StartedCase)
      → str_eq "system-out" name ≡ false
      → details_named name (case_node P texts (make_test_case P texts class_name started)).details
        ≡ details_named name (add_failure (make_failure started.most_severe))
  details-case_node name class_name started h =
      let output = (make_test_case P texts class_name started).output in
      let nodes = add_failure (make_failure started.most_severe) in
      omega (
        arith,
        details_named-append name nodes (add_system_out output),
        system_out-other name output h,
      )

  nodes_of_cases :
      (class_name : Option String) (cases : List StartedCase)
      → let nodes = add_test_cases P texts (make_test_cases P texts class_name cases) in
        (count_nodes "failure" nodes
          ≡ occurrences Status.unknown cases
            + occurrences Status.pending cases
            + occurrences Status.undefined cases
            + occurrences Status.ambiguous cases
            + occurrences Status.failed cases)
        × (count_nodes "skipped" nodes ≡ occurrences Status.skipped cases)
  unfolding make_test_cases add_test_cases
  nodes_of_cases class_name [] = (omega arith, omega arith)
  nodes_of_cases class_name (started ∷ cases) =
      let (failures, skips) = nodes_of_cases class_name cases in
      let (failure_here, skip_here) = nodes_of_severe started.most_severe in
      (
        omega (arith, failures, failure_here, details-case_node "failure" class_name started refl),
        omega (arith, skips, skip_here, details-case_node "skipped" class_name started refl),
      )

  -- Where the query counts the test cases that it answers, the attributes for the failures and the
  -- skipped test cases of the suite are the numbers of the nodes of these names in its test cases.
  pub handle_test_run_finished-IsCounted :
      (suite_name : String) (class_name : Option String) (query : Query)
      → IsCounted query
      → let suite = handle_test_run_finished P texts suite_name class_name query in
        (find_key "failures" suite.attributes
          ≡ some (unsigned P texts (count_nodes "failure" suite.cases)))
        × (find_key "skipped" suite.attributes
            ≡ some (unsigned P texts (count_nodes "skipped" suite.cases)))
  unfolding handle_test_run_finished make_report find_key
  handle_test_run_finished-IsCounted suite_name class_name query counted =
      let (failures, skips) = nodes_of_cases class_name query.started in
      (
        ap (λ n. some (unsigned P texts n))
            (cc (
              counted Status.unknown,
              counted Status.pending,
              counted Status.undefined,
              counted Status.ambiguous,
              counted Status.failed,
              failures,
            )),
        ap (λ n. some (unsigned P texts n)) (counted Status.skipped ∙ sym skips),
      )
