-- ===== src/Tests/Sample.antt =====
-- A platform of plain data that meets the assumptions, and a small suite over it. The user's state
-- counts how often a body has looked at it.
use text.Mathlib.TextLemmas.{nil≢cons, cons≢nil, tail-eq_of_cons-eq}
use amp_cucumber_cpp_runner.Prelude.{
  ℕ, zero, suc, ◌+◌, ◌<◌, ◌≡◌, refl, ap, Bool, true, false, Option, none, some, List, [], ◌∷◌, ◌==◌,
  String, str_eq, arith, if◌then◌else◌,
}
use amp_cucumber_cpp_runner.Messages.{Status}
use amp_cucumber_cpp_runner.Util.TestStepResultStatus.{StepStatus, position, transform_status}
use amp_cucumber_cpp_runner.Platform.{Platform, IsOrdered, IsDistinct, compiled}
use amp_cucumber_cpp_runner.World.{World, ok, err}
use amp_cucumber_cpp_runner.Context.{root}
use amp_cucumber_cpp_runner.Util.Body.{Body, Thrown}
use amp_cucumber_cpp_runner.Support.{SupportCodeLibrary}
use amp_cucumber_cpp_runner.Support.HookRegistry.{HookType, HookDefinition, before}
use amp_cucumber_cpp_runner.Support.StepRegistry.{StepRegistry, StepEntry, load_steps}

-- A number in strokes
abbrev pub strokes : ℕ → String
strokes zero = String.[]
strokes (suc n) = String.◌∷◌ "I" (strokes n)

strokes-injective : (m n : ℕ) → strokes m ≡ strokes n → m ≡ n
strokes-injective zero zero e = refl
strokes-injective zero (suc n) e = absurd (nil≢cons e)
strokes-injective (suc m) zero e = absurd (cons≢nil e)
strokes-injective (suc m) (suc n) e = ap suc (strokes-injective m n (tail-eq_of_cons-eq e))

abbrev number_of : Status → ℕ
number_of Status.unknown = 0
number_of Status.passed = 1
number_of Status.skipped = 2
number_of Status.pending = 3
number_of Status.undefined = 4
number_of Status.ambiguous = 5
number_of Status.failed = 6

abbrev name_of : Status → String
name_of Status.failed = "FAILED"
name_of Status.undefined = "UNDEFINED"
name_of Status.ambiguous = "AMBIGUOUS"
name_of _ = "OTHER"

-- A tag expression is a tag that must be there, or none. A matcher is a text.
abbrev has_tag : String → List String → Bool
has_tag tag [] = false
has_tag tag (t ∷ ts) = if str_eq t tag then true else has_tag tag ts

abbrev pub plain : Platform
plain = record {
  User = ℕ;
  Value = ℕ;
  TagExpression = Option String;
  parse_tags = λ text. some (if str_eq text "" then none else some text);
  evaluate = λ e tags. elim e [ none ↦ true | some tag ↦ has_tag tag tags ];
  Matcher = String;
  compile = λ type text. compiled text;
  match = λ pattern text. if str_eq pattern text then some [] else none;
  underlying = number_of;
  status_name = name_of;
  id_of = strokes;
  elapsed = λ n. 1_500_000_000;
  to_decimal = strokes;
  to_base64 = λ text. text;
  relative_path = λ path. path;
}

plain_lt :
    (a b : StepStatus)
    → position a < position b
    → number_of (transform_status a) < number_of (transform_status b)
plain_lt a b h = ground arith

pub plain-IsOrdered : IsOrdered plain
plain-IsOrdered = record { underlying-lt = plain_lt }

pub plain-IsDistinct : IsDistinct plain
plain-IsDistinct = record {
  id_of-injective = strokes-injective;
  to_decimal-injective = strokes-injective;
}

abbrev pub world : World plain
world = record { events = []; issued = 0; measured = 0; context = root []; user = 0 }

-- A body that does what it does on the so-manieth look at the user's state.
abbrev pub counting : (ℕ → Body plain) → Body plain
counting outcome = Body.ask (λ n. Body.tell (n + 1) (outcome n))

abbrev pub failing_body : Body plain
failing_body = Body.throw (Thrown.standard "std::runtime_error" "broken")

abbrev pub hook : String → HookType → Body plain → HookDefinition plain
hook id type body = record {
  data_of = record {
    id = id;
    type = type;
    expression = none;
    name = none;
    file_name = "hooks.cpp";
    line = 1;
  };
  tag_expression = none;
  factory = λ scenario has_error. body;
}

-- Fails on the first look, and passes from then on.
abbrev pub flaky : Body plain
flaky = counting (λ n. if n == 0 then failing_body else Body.finish)

abbrev pub entry : String → String → Body plain → StepEntry plain
entry id text body = record {
  regex = text;
  factory = λ table doc arguments. body;
  line = 1;
  file_name = "steps.cpp";
  id = id;
}

abbrev pub no_steps : StepRegistry plain
no_steps = record { registry = []; id_to_definition = []; undefined_parameters = [] }

-- The steps that the sample's files register.
abbrev pub entries : List (StepEntry plain)
entries =
    entry "good" "a good step" Body.finish
    ∷ entry "bad" "a bad step" failing_body
    ∷ entry "twice" "an ambiguous step" Body.finish
    ∷ entry "again" "an ambiguous step" Body.finish
    ∷ entry "outer" "a nested step" (
        Body.nested (record { text = "a bad step"; data_table = none; doc_string = none })
          Body.finish Body.throw)
    ∷ []

-- What they make, in which no pattern is refused
abbrev pub loaded_steps : StepRegistry plain
loaded_steps = elim (load_steps entries no_steps) [ ok r ↦ r | err e ↦ no_steps ]

abbrev pub support : SupportCodeLibrary plain
support = record {
  hook_registry = ("hook", hook "hook" before flaky) ∷ [];
  step_registry = loaded_steps;
}
