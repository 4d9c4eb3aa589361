-- ===== src/Api/TestNames.antt =====
-- The names of test cases: `SanitizeName` and `GetHierarchicalTestName`
-- (cucumber_cpp/library/util/GetHierarchicalTestName.cpp), `Trim` (cucumber_cpp/library/util/Trim.hpp)
-- and `MakeUniqueTestNames` (cucumber_cpp/library/api/MakeUniqueTestNames.cpp).
pub mod Distinct
pub mod Trimming
use Prim.Native.Char.{Char, code}
use amp_cucumber_cpp_runner.Prelude.{
  ℕ, zero, suc, ◌+◌, String, ◌<>◌, Bool, true, false, ◌||◌, Option, none, some, List, [], ◌∷◌,
  length, ◌==◌, str_eq, contains_text, emplace, if◌then◌else◌,
}
use amp_cucumber_cpp_runner.Messages.{Pickle}
use amp_cucumber_cpp_runner.Platform.{Platform}
use amp_cucumber_cpp_runner.Assemble.{PickleSource}

-- `cucumber::query::Lineage`: the names of a feature and a rule, whether there is an example, and
-- the places of its table and its row
pub record Lineage : Type 0 where
  pub feature_name : Option String
  pub rule_name : Option String
  pub has_example : Bool
  pub examples_index : Option ℕ
  pub example_index : Option ℕ

abbrev is_whitespace : Char → Bool
is_whitespace c = code c == b' ' || code c == b'\t' || code c == b'\n' || code c == b'\r'

unfoldable pub trim_start : String → String
trim_start String.[] = ""
trim_start (String.◌∷◌ c s) =
    let rest = trim_start s in if is_whitespace c then rest else String.◌∷◌ c s

unfoldable pub trim_end : String → String
trim_end String.[] = ""
trim_end (String.◌∷◌ c s) =
    let rest = trim_end s in
    if is_whitespace c
    then (if str_eq rest "" then "" else String.◌∷◌ c rest)
    else String.◌∷◌ c rest

-- `Trim`
unfoldable pub trim : String → String
unfolding trim_start trim_end
trim s = trim_end (trim_start s)

-- `std::ranges::replace`
unfoldable pub replace : ℕ → Char → String → String
replace old new String.[] = ""
replace old new (String.◌∷◌ c s) = String.◌∷◌ (if code c == old then new else c) (replace old new s)

-- `SanitizeName`
unfoldable pub sanitize_name : String → String
unfolding replace trim
sanitize_name name =
    trim (replace b';' "," (replace b'\t' " " (replace b'\r' " " (replace b'\n' " " name))))

module _ (P : Platform) where
  -- The suffix for the row of a table of examples
  abbrev pub example_suffix : Bool → Option ℕ → Option ℕ → String
  example_suffix true (some table) (some row) =
      ".#" <> P.to_decimal (table + 1) <> "." <> P.to_decimal (row + 1)
  example_suffix true none (some row) = ".#" <> P.to_decimal (row + 1)
  example_suffix has_example table row = ""

  -- The name of the feature, or the uri where there is none or it is empty
  abbrev feature_or_uri : Option String → String → String
  feature_or_uri none uri = uri
  feature_or_uri (some name) uri = if str_eq name "" then uri else name

  abbrev pub name_in : Pickle → Lineage → String
  name_in pickle lineage =
      let feature = sanitize_name (feature_or_uri lineage.feature_name pickle.uri) in
      let rule = sanitize_name (elim lineage.rule_name [ none ↦ "" | some name ↦ name ]) in
      let scenario = sanitize_name pickle.name in
      let suffix =
        example_suffix lineage.has_example lineage.examples_index lineage.example_index in
      if str_eq rule ""
      then feature <> "." <> scenario <> suffix
      else feature <> "." <> rule <> "." <> scenario <> suffix

  -- The name that is tried at a count
  abbrev pub candidate : String → ℕ → String
  candidate name counter = name <> ".#" <> P.to_decimal counter

  -- The loop of `MakeUnique`. Each round finds another of the names seen, so the bound is not met.
  unfoldable pub search_unique :
      (bound : ℕ) → String → List String → (counter : ℕ) → String → String
  search_unique zero name seen counter unique = unique
  search_unique (suc bound) name seen counter unique =
      let later = search_unique bound name seen (counter + 1) (candidate name (counter + 1)) in
      if contains_text unique seen then later else unique

  -- `MakeUnique`, less the insertion of its answer into the names seen
  unfoldable pub make_unique : String → List String → String
  unfolding search_unique
  make_unique name seen = search_unique (length seen) name seen 1 name

module _ (P : Platform) (find_lineage : Pickle → Option Lineage) where
  -- `GetHierarchicalTestName`
  unfoldable pub get_hierarchical_test_name : Pickle → String
  unfolding sanitize_name
  get_hierarchical_test_name pickle = elim (find_lineage pickle) [
    | none ↦ sanitize_name pickle.name
    | some lineage ↦ name_in P pickle lineage
  ]

  -- The loop of `MakeUniqueTestNames`, on `seenNames` and `uniqueNames`
  unfoldable pub name_all :
      List PickleSource → List String → List (String × String) → List (String × String)
  unfolding make_unique get_hierarchical_test_name
  name_all [] seen names = names
  name_all (source ∷ sources) seen names =
      let unique = make_unique P (get_hierarchical_test_name source.pickle) seen in
      name_all sources (unique ∷ seen) (emplace source.pickle.id unique names)

  -- `MakeUniqueTestNames`
  unfoldable pub make_unique_test_names : List PickleSource → List (String × String)
  unfolding name_all
  make_unique_test_names sources = name_all sources [] []
