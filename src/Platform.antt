-- ===== src/Platform.antt =====
-- What the runner takes from outside the repository: the cucumber libraries, the id generator, the
-- clock, fmt and the file system, each as an operation on opaque data, and what is assumed of them.
use amp_cucumber_cpp_runner.Prelude.{ℕ, String, ◌≡◌, ◌<◌, Bool, List, Option}
use amp_cucumber_cpp_runner.Messages.{Status}
use amp_cucumber_cpp_runner.Util.TestStepResultStatus.{StepStatus, position, transform_status}

-- `cucumber::cucumber_expressions::Argument`
pub record ExpressionArgument : Type 0 where
  pub name : String
  pub value : Option String
  pub children : List (Option String)

-- The construction of a matcher: `UndefinedParameterTypeError` carries the expression and the name;
-- another exception, such as `std::regex_error`, its text.
pub data Compiled (A : Type 0) : Type 0 where
  compiled : A → Compiled A
  undefined_parameter_type : (expression name : String) → Compiled A
  refused : (what : String) → Compiled A

-- `ExpressionPatternType`
pub data ExpressionPatternType : Type 0 where
  cucumber_expression regular_expression : ExpressionPatternType

pub record Platform : Type 1 where
  -- what the code under test and the user's own variables hold
  pub User : Type 0
  -- what a context's shared pointer points to
  pub Value : Type 0
  -- `cucumber::tag_expressions`
  pub TagExpression : Type 0
  -- `cucumber::tag_expressions::Parse`, which throws at what is no expression
  pub parse_tags : String → Option TagExpression
  pub evaluate : TagExpression → List String → Bool
  -- `cucumber::cucumber_expressions`: the captures of a text that matches
  pub Matcher : Type 0
  pub compile : ExpressionPatternType → String → Compiled Matcher
  pub match : Matcher → String → Option (List ExpressionArgument)
  -- the enumerator's number, and its text, in `cucumber::messages`
  pub underlying : Status → ℕ
  pub status_name : Status → String
  -- the answers of `IdGenerator::NextId`, in order
  pub id_of : ℕ → String
  -- the nanoseconds of each measurement that `Stopwatch` makes, in order
  pub elapsed : ℕ → ℕ
  -- `fmt::format("{}", n)`
  pub to_decimal : ℕ → String
  -- `base64::to_base64`
  pub to_base64 : String → String
  -- `std::filesystem::relative` to the working directory
  pub relative_path : String → String

-- The messages number their statuses as `util::TestStepResultStatus` does: in order of severity.
pub record IsOrdered (P : Platform) : Type 0 where
  pub underlying-lt :
      (a b : StepStatus)
      → position a < position b
      → P.underlying (transform_status a) < P.underlying (transform_status b)

-- No two ids are the same, and no two numbers are printed alike.
pub record IsDistinct (P : Platform) : Type 0 where
  pub id_of-injective : (m n : ℕ) → P.id_of m ≡ P.id_of n → m ≡ n
  pub to_decimal-injective : (m n : ℕ) → P.to_decimal m ≡ P.to_decimal n → m ≡ n
