-- ===== src/Support/ParameterMap/Reading.antt =====
-- The expression of a parameter map, read back into the keys that it matches.
use Prim.Native.Char.{Char, code}
use Prim.Native.String.{len}
use mathlib.Core.Option
use text.Mathlib.TextLemmas as Text
use amp_cucumber_cpp_runner.Prelude.{
  ℕ, ◌≡◌, refl, sym, ap, ◌∙◌, String, ◌<>◌, Bool, true, false, Option, none, some, List, [], ◌∷◌,
  ◌==◌, arith, Bool-cases, eq_iff, ltb, inl, inr, str_eq, if◌then◌else◌,
}
use amp_cucumber_cpp_runner.World.{ok}
use amp_cucumber_cpp_runner.Support.ParameterMap.Laws.{
  IsValid, validate_keys-IsValid, keys_to_regex_of_valid,
}
use amp_cucumber_cpp_runner.Support.ParameterMap.{
  is_special, escape_regex, insert_key, sort_keys, append_keys, keys_to_regex,
}

-- The syntax characters of ECMAScript's regular expressions, `^ $ \ . * + ? ( ) [ ] { } |`: each of
-- them stands for itself behind a backslash alone, and any other character does without one.
abbrev syntax_characters : List ℕ
syntax_characters =
    b'^' ∷ b'$' ∷ b'\\' ∷ b'.' ∷ b'*' ∷ b'+' ∷ b'?' ∷ b'(' ∷ b')' ∷ b'[' ∷ b']' ∷ b'{' ∷ b'}' ∷ b'|'
    ∷ []

abbrev is_among : ℕ → List ℕ → Bool
is_among c [] = false
is_among c (d ∷ ds) = if c == d then true else is_among c ds

unfoldable pub is_syntax : ℕ → Bool
is_syntax c = is_among c syntax_characters

-- The alternatives of a group whose opening parenthesis has been read: the Boolean tells whether
-- the last character was a backslash, the text is what the alternative in hand matches. A backslash
-- takes a syntax character literally; any other syntax character but `|` and `)` is refused.
unfoldable pub read_alternatives : Bool → String → String → Option (List String)
read_alternatives escaped text String.[] = none
read_alternatives true text (String.◌∷◌ c s) =
    let rest = read_alternatives false (text <> String.◌∷◌ c "") s in
    if is_syntax (code c) then rest else none
read_alternatives false text (String.◌∷◌ c s) =
    let quoted = read_alternatives true text s in
    let next = read_alternatives false "" s in
    let plain = read_alternatives false (text <> String.◌∷◌ c "") s in
    if code c == b'\\'
    then quoted
    else if code c == b'|'
    then Option.map (λ keys. text ∷ keys) next
    else if code c == b')'
    then (if str_eq s "" then some (text ∷ []) else none)
    else if is_syntax (code c)
    then none
    else plain

unfoldable pub read_regex : String → Option (List String)
unfolding read_alternatives
read_regex String.[] = none
read_regex (String.◌∷◌ c s) =
    let keys = read_alternatives false "" s in if code c == b'(' then keys else none

-- What is escaped is what has to be.
is_special-syntax : (c : ℕ) → is_special c ≡ is_syntax c
unfolding is_special is_syntax
is_special-syntax c = ground arith

-- A character that is not special is none of those that the reader treats apart.
plain-parts :
    (c : ℕ)
    → is_special c ≡ false
    → ((c == b'\\') ≡ false) × ((c == b'|') ≡ false) × ((c == b')') ≡ false)
unfolding is_special
plain-parts c h = (ground (arith, h), ground (arith, h), ground (arith, h))

quote-append : (s : String) → "\\" <> s ≡ String.◌∷◌ "\\" s
quote-append s = Text.cons-append "\\" "" s ∙ ap (String.◌∷◌ "\\") (Text.nil-append s)

open-append : (s : String) → "(" <> s ≡ String.◌∷◌ "(" s
open-append s = Text.cons-append "(" "" s ∙ ap (String.◌∷◌ "(") (Text.nil-append s)

bar-append : (s : String) → "|" <> s ≡ String.◌∷◌ "|" s
bar-append s = Text.cons-append "|" "" s ∙ ap (String.◌∷◌ "|") (Text.nil-append s)

read-escape_regex :
    (k text rest : String)
    → read_alternatives false text (escape_regex k <> rest)
      ≡ read_alternatives false (text <> k) rest
unfolding read_alternatives escape_regex
read-escape_regex String.[] text rest = simp (Text.nil-append, Text.append-nil)
read-escape_regex (String.◌∷◌ c k) text rest = elim (Bool-cases (is_special (code c))) [
  | inl special ↦ simp (
    special,
    sym (is_special-syntax (code c)) ∙ special,
    quote-append,
    Text.cons-append,
    Text.nil-append,
    Text.append_assoc,
    read-escape_regex k,
  )
  | inr plain ↦
      let (no_quote, no_bar, no_end) = plain-parts (code c) plain in
      simp (
        plain,
        sym (is_special-syntax (code c)) ∙ plain,
        no_quote,
        no_bar,
        no_end,
        Text.cons-append,
        Text.nil-append,
        Text.append_assoc,
        read-escape_regex k,
      )
]

-- What follows the first alternative
unfoldable bars : List String → String
bars [] = ""
bars (k ∷ keys) = "|" <> (escape_regex k <> bars keys)

read-bars :
    (keys : List String) (text : String)
    → read_alternatives false text (bars keys <> ")") ≡ some (text ∷ keys)
unfolding bars read_alternatives
read-bars [] text = ap (read_alternatives false text) (Text.nil-append ")")
read-bars (k ∷ keys) text = simp (
  bar-append,
  Text.cons-append,
  Text.nil-append,
  Text.append_assoc,
  read-escape_regex,
  read-bars keys,
)

cons-not_empty : (c : Char) (s : String) → str_eq (String.◌∷◌ c s) "" ≡ false
cons-not_empty c s = elim (Bool-cases (str_eq (String.◌∷◌ c s) "")) [
  | inl same ↦ absurd (Text.cons≢nil ((eq_iff (String.◌∷◌ c s) "").0 same))
  | inr other ↦ other
]

append_keys-bars :
    (keys : List String) (c : Char) (result : String)
    → append_keys (String.◌∷◌ c result) keys ≡ String.◌∷◌ c (result <> bars keys)
unfolding append_keys bars
append_keys-bars [] c result = simp (Text.append-nil)
append_keys-bars (k ∷ keys) c result =
    simp (cons-not_empty, Text.cons-append, append_keys-bars keys, Text.append_assoc)

read_regex-append_keys :
    (k : String) (keys : List String)
    → read_regex (append_keys "" (k ∷ keys) <> ")") ≡ some (k ∷ keys)
unfolding append_keys read_regex
read_regex-append_keys k keys = simp (
  open-append,
  Text.nil-append,
  append_keys-bars keys,
  Text.cons-append,
  Text.append_assoc,
  read-escape_regex,
  read-bars keys,
)

insert_key-cons :
    (key : String) (keys : List String)
    → (k : String) × (ks : List String) × (insert_key key keys ≡ k ∷ ks)
unfolding insert_key
insert_key-cons key [] = (key, [], refl)
insert_key-cons key (k ∷ keys) = elim (Bool-cases (ltb (len key) (len k))) [
  | inl shorter ↦ (k, insert_key key keys, rw shorter refl)
  | inr other ↦ (key, k ∷ keys, rw other refl)
]

-- Keys that are at least one, not empty and all different are given an expression. Read by the
-- syntax of regular expressions, where each of its special characters means itself behind a
-- backslash alone, it is a group of these keys as alternatives, longer ones in front.
pub read_regex-keys_to_regex :
    (keys : List String)
    → IsValid keys
    → (regex : String) × (keys_to_regex keys ≡ ok regex)
      × (read_regex regex ≡ some (sort_keys keys))
unfolding sort_keys
read_regex-keys_to_regex [] (filled, _, _) = absurd (filled refl)
read_regex-keys_to_regex (key ∷ keys) valid =
    let (k, ks, sorted) = insert_key-cons key (sort_keys keys) in
    (
      append_keys "" (insert_key key (sort_keys keys)) <> ")",
      keys_to_regex_of_valid (key ∷ keys) ((validate_keys-IsValid (key ∷ keys)).1 valid),
      rw sorted (read_regex-append_keys k ks),
    )
