-- ===== src/Messages.antt =====
-- The cucumber messages that the runner builds and reads: the fields that the code names, with
-- timestamps left out. The message types themselves are generated outside the repository.
use amp_cucumber_cpp_runner.Prelude.{ℕ, String, Bool, true, false, Option, List}

-- `cucumber::messages::TestStepResultStatus`
pub data Status : Type 0 where
  unknown passed skipped pending undefined ambiguous failed : Status

abbrev pub is_passed : Status → Bool
is_passed Status.passed = true
is_passed _ = false

abbrev pub is_failed : Status → Bool
is_failed Status.failed = true
is_failed _ = false

abbrev pub is_skipped : Status → Bool
is_skipped Status.skipped = true
is_skipped _ = false

pub record Duration : Type 0 where
  pub seconds : ℕ
  pub nanos : ℕ

pub record Exception : Type 0 where
  pub type : String
  pub message : String

pub record TestStepResult : Type 0 where
  pub duration : Duration
  pub message : Option String
  pub status : Status
  pub exception : Option Exception

-- A capture: its text, and the texts of the captures inside it. Deeper ones are never read.
pub record Group : Type 0 where
  pub value : Option String
  pub children : Option (List (Option String))

pub record StepMatchArgument : Type 0 where
  pub group : Group
  pub parameter_type_name : Option String

pub record PickleTable : Type 0 where
  pub rows : List (List String)

pub record PickleDocString : Type 0 where
  pub content : String
  pub media_type : Option String

pub record PickleStep : Type 0 where
  pub id : String
  pub text : String
  pub data_table : Option PickleTable
  pub doc_string : Option PickleDocString

pub record Pickle : Type 0 where
  pub id : String
  pub uri : String
  pub name : String
  pub steps : List PickleStep
  pub tags : List String
  -- the line of its location
  pub line : Option ℕ

-- `cucumber::messages::GherkinDocument`: its uri, and the tags of its feature
pub record GherkinDocument : Type 0 where
  pub uri : Option String
  pub feature_tags : Option (List String)

-- A hook has a `hook_id`, a step has the three other optional fields.
pub record TestStep : Type 0 where
  pub id : String
  pub hook_id : Option String
  pub pickle_step_id : Option String
  pub step_definition_ids : Option (List String)
  pub step_match_arguments_lists : Option (List (List StepMatchArgument))

pub record TestCase : Type 0 where
  pub id : String
  pub pickle_id : String
  pub test_run_started_id : Option String
  pub test_steps : List TestStep

pub data Encoding : Type 0 where
  identity base64 : Encoding

pub record Attachment : Type 0 where
  pub body : String
  pub content_encoding : Encoding
  pub file_name : Option String
  pub media_type : String
  pub test_case_started_id : Option String
  pub test_step_id : Option String
  pub test_run_hook_started_id : Option String

-- The source of an error: its uri and, where it has a location, its line and its column
pub record ParseError : Type 0 where
  pub uri : Option String
  pub line : Option ℕ
  pub column : Option ℕ
  pub message : String

pub record ParameterType : Type 0 where
  pub id : String
  pub name : String
  pub regular_expressions : List String
  pub use_for_snippets : Bool
  pub uri : String
  pub line : ℕ

pub data PatternType : Type 0 where
  cucumber_expression_type regular_expression_type : PatternType

-- `cucumber::messages::StepDefinition`, with the fields of its pattern and its source reference
pub record StepDefinitionMessage : Type 0 where
  pub id : String
  pub pattern_source : String
  pub pattern_type : PatternType
  pub uri : String
  pub line : ℕ

pub data MessageHookType : Type 0 where
  before_test_run after_test_run before_test_case after_test_case before_test_step after_test_step :
      MessageHookType

-- `cucumber::messages::Hook`
pub record HookMessage : Type 0 where
  pub id : String
  pub name : Option String
  pub tag_expression : Option String
  pub type : Option MessageHookType
  pub uri : String
  pub line : ℕ

-- `cucumber::messages::Envelope` holds one of these.
pub data Envelope : Type 0 where
  test_run_started : (id : String) → Envelope
  test_run_finished : (id : String) (success : Bool) → Envelope
  test_run_hook_started : (id run_id hook_id : String) → Envelope
  test_run_hook_finished : (id : String) (result : TestStepResult) → Envelope
  test_case : TestCase → Envelope
  test_case_started : (id case_id : String) (attempt : ℕ) → Envelope
  test_step_started : (started_id step_id : String) → Envelope
  test_step_finished : (started_id step_id : String) (result : TestStepResult) → Envelope
  test_case_finished : (started_id : String) (will_be_retried : Bool) → Envelope
  suggestion : (id pickle_step_id : String) → Envelope
  attachment : Attachment → Envelope
  source : (uri text : String) → Envelope
  gherkin_document : GherkinDocument → Envelope
  pickle : Pickle → Envelope
  parse_error : ParseError → Envelope
  parameter_type : ParameterType → Envelope
  undefined_parameter_type : (expression name : String) → Envelope
  step_definition : StepDefinitionMessage → Envelope
  hook : HookMessage → Envelope
