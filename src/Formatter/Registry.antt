-- ===== src/Formatter/Registry.antt =====
-- The registry of formatters (cucumber_cpp/library/api/Formatters.cpp). What a formatter is, is left
-- open: a factory makes a `Listener` that writes to an output.
pub mod Outputs
use Prim.Native.Char.{Char, code}
use amp_cucumber_cpp_runner.Prelude.{
  String, Bool, true, false, Option, none, some, List, [], ◌∷◌, ◌==◌, str_eq, contains_text,
  emplace, find_key, if◌then◌else◌,
}
use amp_cucumber_cpp_runner.World.{Result, ok, err, out_of_range}

pub record FormatterOption : Type 0 where
  pub name : String
  pub output : String

-- What stands before the first colon, and what after it
unfoldable pub before_colon : String → String
before_colon String.[] = ""
before_colon (String.◌∷◌ c s) =
    let rest = before_colon s in if code c == b':' then "" else String.◌∷◌ c rest

unfoldable pub after_colon : String → String
after_colon String.[] = ""
after_colon (String.◌∷◌ c s) = let rest = after_colon s in if code c == b':' then s else rest

unfoldable pub formatter_option : String → FormatterOption
unfolding before_colon after_colon
formatter_option text = record { name = before_colon text; output = after_colon text }

-- `std::ostream`: the one that is given, or the file with an absolute path
pub data Output : Type 0 where
  given : Output
  file : String → Output

module _ (Listener : Type 0) where
  pub record RegisteredFormatter : Type 0 where
    pub factory : Output → Listener
    pub has_output : Bool

  pub record Formatters : Type 0 where
    pub available_formatters : List (String × RegisteredFormatter)
    -- the paths of the files that are open
    pub custom_output_files : List String

  unfoldable pub register_formatter : String → RegisteredFormatter → Formatters → Formatters
  unfolding emplace
  register_formatter name formatter f = record f {
    available_formatters = emplace name formatter f.available_formatters;
  }

  unfoldable pub names_of : List (String × RegisteredFormatter) → List (String × Bool)
  names_of [] = []
  names_of ((name, formatter) ∷ fs) = (name, formatter.has_output) ∷ names_of fs

  -- `GetAvailableFormatterNames`
  unfoldable pub get_available_formatter_names : Formatters → List (String × Bool)
  unfolding names_of
  get_available_formatter_names f = names_of f.available_formatters

  -- `customOutputFiles.contains` and `try_emplace`
  unfoldable pub open_output : String → List String → List String
  unfolding contains_text
  open_output path files = if contains_text path files then files else path ∷ files

  -- `availableFormatters.at(name).factory(output)`
  unfoldable pub make_listener : String → Output → Formatters → Result Listener
  unfolding find_key
  make_listener name output f = elim (find_key name f.available_formatters) [
    | none ↦ err out_of_range
    | some formatter ↦ ok (formatter.factory output)
  ]

  -- `std::filesystem::absolute`
  module _ (absolute : String → String) where
    -- One round of the loop of `EnableFormatters`
    unfoldable pub enable_formatter : FormatterOption → Formatters → Result Listener × Formatters
    unfolding open_output make_listener
    enable_formatter option f =
        if str_eq option.output "" then (make_listener option.name given f, f) else (
          make_listener option.name (file (absolute option.output)) f,
          record f {
            custom_output_files = open_output (absolute option.output) f.custom_output_files;
          },
        )

    abbrev pub with_listener : Listener → Result (List Listener) → Result (List Listener)
    with_listener l (ok ls) = ok (l ∷ ls)
    with_listener l (err e) = err e

    -- The listeners that follow one, unless it could not be made
    abbrev pub after_listener :
        Result Listener
        → Formatters
        → Result (List Listener) × Formatters
        → Result (List Listener) × Formatters
    after_listener (err e) f later = (err e, f)
    after_listener (ok l) f later = (with_listener l later.0, later.1)

    -- `EnableFormatters`, of the names in the order of their set. A name that is not registered
    -- throws, and the files that were opened before stay open.
    unfoldable pub enable_formatters :
        List String → Formatters → Result (List Listener) × Formatters
    unfolding enable_formatter formatter_option
    enable_formatters [] f = (ok [], f)
    enable_formatters (name ∷ names) f =
        let (made, f') = enable_formatter (formatter_option name) f in
        after_listener made f' (enable_formatters names f')
