-- ===== src/Support/ParameterMap.antt =====
-- `PARAMETER_MAP` (cucumber_cpp/library/support/ParameterMap.cpp and
-- cucumber_cpp/library/ParameterMap.hpp): the regular expression that matches one of several keys,
-- and the values that belong to them.
pub mod Laws
pub mod Reading
pub mod Sorting
use Prim.Native.Char.{Char, code}
use Prim.Native.String.{len}
use amp_cucumber_cpp_runner.Prelude.{
  ℕ, String, ◌<>◌, Bool, true, false, ◌||◌, Option, none, some, List, [], ◌∷◌, map, ltb, ◌==◌,
  str_eq, contains_text, emplace, if◌then◌else◌,
}
use amp_cucumber_cpp_runner.World.{Error, invalid_argument, out_of_range, Result, ok, err}

-- `specialCharacters`
unfoldable pub is_special : ℕ → Bool
is_special c =
    c == b'\\'
    || c == b'^'
    || c == b'$'
    || c == b'.'
    || c == b'|'
    || c == b'?'
    || c == b'*'
    || c == b'+'
    || c == b'('
    || c == b')'
    || c == b'['
    || c == b']'
    || c == b'{'
    || c == b'}'

-- `EscapeRegex`
unfoldable pub escape_regex : String → String
escape_regex String.[] = ""
escape_regex (String.◌∷◌ c s) =
    let rest = escape_regex s in
    if is_special (code c) then "\\" <> String.◌∷◌ c rest else String.◌∷◌ c rest

-- The loop of `ValidateKeys`, on the keys that it has seen
unfoldable pub validate_each : List String → List String → Option Error
validate_each seen [] = none
validate_each seen (key ∷ keys) =
    let rest = validate_each (key ∷ seen) keys in
    if str_eq key ""
    then some (invalid_argument "PARAMETER_MAP keys must not be empty")
    else if contains_text key seen
    then some (invalid_argument ("PARAMETER_MAP contains duplicate key: " <> key))
    else rest

-- `ValidateKeys`
abbrev pub validate_keys : List String → Option Error
validate_keys [] = some (invalid_argument "PARAMETER_MAP requires at least one key")
validate_keys (key ∷ keys) = validate_each [] (key ∷ keys)

-- `std::ranges::stable_sort` by decreasing size: a key goes in front of those that are no longer.
unfoldable pub insert_key : String → List String → List String
insert_key key [] = key ∷ []
insert_key key (k ∷ keys) =
    if ltb (len key) (len k) then k ∷ insert_key key keys else key ∷ k ∷ keys

unfoldable pub sort_keys : List String → List String
unfolding insert_key
sort_keys [] = []
sort_keys (key ∷ keys) = insert_key key (sort_keys keys)

-- The loop over the sorted keys, on `result`
unfoldable pub append_keys : String → List String → String
unfolding escape_regex
append_keys result [] = result
append_keys result (key ∷ keys) =
    append_keys (result <> ((if str_eq result "" then "(" else "|") <> escape_regex key)) keys

-- `KeysToRegex`
unfoldable pub keys_to_regex : List String → Result String
keys_to_regex keys = elim (validate_keys keys) [
  | some e ↦ err e
  | none ↦ ok (append_keys "" (sort_keys keys) <> ")")
]

module _ {ℓ} {T : Type ℓ} where
  unfoldable pub emplace_all : List (String × T) → List (String × T) → List (String × T)
  emplace_all [] values = values
  emplace_all ((key, value) ∷ entries) values = emplace_all entries (emplace key value values)

  abbrev pub keys_of : List (String × T) → List String
  keys_of [] = []
  keys_of ((key, value) ∷ entries) = key ∷ keys_of entries

  -- `ParameterMapEntries::Lookup`
  unfoldable pub lookup : String → List (String × T) → Result T
  lookup key [] = err out_of_range
  lookup key ((k, v) ∷ values) = if str_eq k key then ok v else lookup key values

-- `ParameterMapEntries`
pub record ParameterMapEntries {ℓ} (T : Type ℓ) : Type ℓ where
  pub regex : String
  pub values : List (String × T)

-- Its constructor
unfoldable pub make_entries {ℓ} : {T : Type ℓ} → List (String × T) → Result (ParameterMapEntries T)
unfolding keys_to_regex emplace_all
make_entries entries = elim (keys_to_regex (keys_of entries)) [
  | err e ↦ err e
  | ok regex ↦ ok (record { regex = regex; values = emplace_all entries [] })
]
