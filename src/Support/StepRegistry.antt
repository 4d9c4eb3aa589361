-- ===== src/Support/StepRegistry.antt =====
-- `StepRegistry` (cucumber_cpp/library/support/StepRegistry.cpp): the definitions in the order of
-- registration, and a map from ids to them.
pub mod Laws
use amp_cucumber_cpp_runner.Prelude.{
  ℕ, String, Option, none, some, List, [], ◌∷◌, ◌++◌, ◌||◌, str_eq, if◌then◌else◌, Bool, true,
  false, ◌==◌,
}
use Prim.Native.Char.{code}
use amp_cucumber_cpp_runner.Messages.{PickleTable, PickleDocString}
use amp_cucumber_cpp_runner.Platform.{
  Platform, ExpressionArgument, ExpressionPatternType, cucumber_expression, regular_expression,
  Compiled, compiled, undefined_parameter_type, refused,
}
use amp_cucumber_cpp_runner.World.{Result, ok, err, expression_error}
use amp_cucumber_cpp_runner.Util.Body.{Body}

-- `util::Argument`: the name of a converter and the texts that it converts.
pub record Argument : Type 0 where
  pub converter_name : String
  pub converter_args : List (Option String)

-- A step's body, from its table, its doc string and its captures.
abbrev pub StepFactory : Platform → Type 0
StepFactory P = Option PickleTable → Option PickleDocString → List Argument → Body P

-- `StepRegistry::Definition`, with the matcher as `regex`
pub record StepDefinition (P : Platform) : Type 0 where
  pub factory : StepFactory P
  pub id : String
  pub line : ℕ
  pub uri : String
  pub pattern : String
  pub regex : P.Matcher
  pub pattern_type : ExpressionPatternType

-- `UndefinedParameterType`: the expression and the name
abbrev pub UndefinedParameters : Type 0
UndefinedParameters = List (String × String)

pub record StepRegistry (P : Platform) : Type 0 where
  pub registry : List (StepDefinition P)
  pub id_to_definition : List (String × StepDefinition P)
  pub undefined_parameters : UndefinedParameters

-- A registration as `DefinitionRegistration` holds it.
pub record StepEntry (P : Platform) : Type 0 where
  pub regex : String
  pub factory : StepFactory P
  pub line : ℕ
  pub file_name : String
  pub id : String

abbrev begins_with : ℕ → String → Bool
begins_with n String.[] = false
begins_with n (String.◌∷◌ c s) = code c == n

abbrev ends_with : ℕ → String → Bool
ends_with n String.[] = false
ends_with n (String.◌∷◌ c String.[]) = code c == n
ends_with n (String.◌∷◌ c (String.◌∷◌ d s)) = ends_with n (String.◌∷◌ d s)

-- A text that begins with `^` or ends with `$` is a regular expression.
abbrev pub anchored : String → Bool
anchored text = begins_with b'^' text || ends_with b'$' text

module _ {ℓ} {A : Type ℓ} where
  unfoldable pub find_entry : String → List (String × A) → Option A
  find_entry key [] = none
  find_entry key ((k, a) ∷ m) = if str_eq k key then some a else find_entry key m

  -- `map[key] = a`. Only look-ups read the map, so the order of its keys does not show.
  unfoldable pub set_entry : String → A → List (String × A) → List (String × A)
  set_entry key a [] = (key, a) ∷ []
  set_entry key a ((k, b) ∷ m) = if str_eq k key then (k, a) ∷ m else (k, b) ∷ set_entry key a m

module _ {P : Platform} where
  unfoldable pub get_definition_by_id : String → StepRegistry P → Option (StepDefinition P)
  unfolding find_entry
  get_definition_by_id id r = find_entry id r.id_to_definition

  -- `StepRegistry::Register`, where what is no `UndefinedParameterTypeError` is not caught
  unfoldable pub register : StepEntry P → StepRegistry P → Result (StepRegistry P)
  unfolding set_entry
  register e r =
      let type : ExpressionPatternType =
        if anchored e.regex then regular_expression else cucumber_expression in
      elim (P.compile type e.regex) [
        | undefined_parameter_type expression name ↦ ok (record r {
          undefined_parameters = r.undefined_parameters ++ ((expression, name) ∷ []);
        })
        | refused what ↦ err (expression_error what)
        | compiled matcher ↦
            let d : StepDefinition P = record {
              factory = e.factory;
              id = e.id;
              line = e.line;
              uri = e.file_name;
              pattern = e.regex;
              regex = matcher;
              pattern_type = type;
            } in
            ok (record r {
              registry = r.registry ++ (d ∷ []);
              id_to_definition = set_entry e.id d r.id_to_definition;
            })
      ]

  -- `StepRegistry::LoadSteps`, over the registered steps
  unfoldable pub load_steps : List (StepEntry P) → StepRegistry P → Result (StepRegistry P)
  unfolding register
  load_steps [] r = ok r
  load_steps (e ∷ entries) r = elim (register e r) [
    | ok next ↦ load_steps entries next
    | err error ↦ err error
  ]
