-- ===== src/Api/TestNames/Distinct.antt =====
-- That no two test cases have the same name.
use text.Mathlib.TextEquality.{eq_iff}
use text.Mathlib.TextPositions.{eq_refl}
use text.Mathlib.TextLemmas as Text
use amp_cucumber_cpp_runner.Prelude.{
  ℕ, zero, suc, ◌+◌, ◌≤◌, ◌<◌, ◌≡◌, ◌≢◌, refl, sym, ◌∙◌, String, true, false, List, [], ◌∷◌, length,
  All, All-mono, AllDistinct, values_of, All-emplace, find_key-emplace, Option, some, Option-cases,
  arith, Bool-cases, inl, inr, str_eq, contains_text, contains_text-nil, emplace, find_key,
  if◌then◌else◌,
}
use amp_cucumber_cpp_runner.Messages.{Pickle}
use amp_cucumber_cpp_runner.Platform.{Platform, IsDistinct}
use amp_cucumber_cpp_runner.Assemble.{PickleSource}
use amp_cucumber_cpp_runner.Api.TestNames.{
  Lineage, candidate, search_unique, make_unique, get_hierarchical_test_name, name_all,
  make_unique_test_names,
}

unfoldable remove : String → List String → List String
remove key [] = []
remove key (k ∷ keys) = let rest = remove key keys in if str_eq k key then rest else k ∷ rest

length-remove_le : (key : String) (keys : List String) → length (remove key keys) ≤ length keys
unfolding remove
length-remove_le key [] = omega arith
length-remove_le key (k ∷ keys) = ground (arith, length-remove_le key keys)

length-remove :
    (key : String) (keys : List String)
    → contains_text key keys ≡ true
    → length (remove key keys) < length keys
unfolding remove contains_text
length-remove key [] h = cc h
length-remove key (k ∷ keys) h =
    ground (arith, h, length-remove_le key keys, length-remove key keys)

contains_text-remove :
    (j key : String) (keys : List String)
    → key ≢ j
    → contains_text j (remove key keys) ≡ contains_text j keys
unfolding remove contains_text
contains_text-remove j key [] h = refl
contains_text-remove j key (k ∷ keys) h =
    ground (arith, h, eq_iff k key, eq_iff k j, contains_text-remove j key keys h)

module _ (P : Platform) (distinct : IsDistinct P) where
  candidate-injective : (name : String) (m n : ℕ) → candidate P name m ≡ candidate P name n → m ≡ n
  candidate-injective name m n e =
      distinct.to_decimal-injective m n
        (Text.append_cancel_left ".#" _ _ (Text.append_cancel_left name _ _ e))

  name-candidate : (name : String) (n : ℕ) → name ≢ candidate P name n
  name-candidate name n e = Text.nil≢cons (
      Text.append_cancel_left name "" _ (Text.append-nil name ∙ e)
      ∙ Text.cons-append "." "#" (P.to_decimal n))

  -- `left` holds of the names seen all that are still to be tried.
  search_unique-fresh :
      (bound : ℕ) (name : String) (seen left : List String) (counter : ℕ) (unique : String)
      → length left ≤ bound
      → contains_text unique seen ≡ contains_text unique left
      → ((j : ℕ)
          → counter < j
          → (unique ≢ candidate P name j)
            × (contains_text (candidate P name j) seen ≡ contains_text (candidate P name j) left))
      → contains_text (search_unique P bound name seen counter unique) seen ≡ false
  unfolding search_unique
  search_unique-fresh zero name seen [] counter unique small here later =
      here ∙ contains_text-nil unique
  search_unique-fresh zero name seen (k ∷ left) counter unique small here later =
      absurd (omega (arith, small))
  search_unique-fresh (suc bound) name seen left counter unique small here later =
      elim (Bool-cases (contains_text unique seen)) [
        | inr fresh ↦ rw fresh fresh
        | inl taken ↦
            let fewer = length-remove unique left (sym here ∙ taken) in
            rw taken (
              search_unique-fresh bound name seen (remove unique left) (counter + 1)
                (candidate P name (counter + 1)) (omega (arith, small, fewer))
                ((later (counter + 1) (omega arith)).1
                  ∙ sym (contains_text-remove _ unique left (later (counter + 1) (omega arith)).0))
                (λ j more.
                  let (differs, same) = later j (omega (arith, more)) in
                  (
                    λ e. omega (arith, more, candidate-injective name _ _ e),
                    same ∙ sym (contains_text-remove _ unique left differs),
                  )))
      ]

  make_unique-fresh :
      (name : String) (seen : List String) → contains_text (make_unique P name seen) seen ≡ false
  unfolding make_unique
  make_unique-fresh name seen =
      search_unique-fresh (length seen) name seen seen 1 name (omega arith) refl
        (λ j later. (name-candidate name j, refl))

-- What is told apart by whether it has been seen is not the same.
seen-new :
    (seen : List String) (old new : String)
    → contains_text old seen ≡ true
    → contains_text new seen ≡ false
    → old ≢ new
seen-new seen old new before h e = cc (before, h, e)

contains_text-head : (key : String) (seen : List String) → contains_text key (key ∷ seen) ≡ true
unfolding contains_text
contains_text-head key seen = rw eq_refl refl

contains_text-tail :
    (j key : String) (seen : List String)
    → contains_text j seen ≡ true
    → contains_text j (key ∷ seen) ≡ true
unfolding contains_text
contains_text-tail j key seen h = ground (arith, h)

emplace-AllDistinct :
    (key value : String) (values : List (String × String))
    → All (λ v. v ≢ value) (values_of values)
    → AllDistinct (values_of values)
    → AllDistinct (values_of (emplace key value values))
unfolding emplace
emplace-AllDistinct key value [] new distinct = (tt, tt)
emplace-AllDistinct key value ((k, v) ∷ values) (new, news) (other, others) =
    elim (Bool-cases (str_eq k key)) [
      | inl same ↦ rw same (other, others)
      | inr differs ↦ rw differs (
        All-emplace (λ j. v ≢ j) key value values new other,
        emplace-AllDistinct key value values news others,
      )
    ]

abbrev pub HasName : List (String × String) → PickleSource → Type 0
HasName names source = (name : String) × (find_key source.pickle.id names ≡ some name)

find_key-emplace_kept :
    (j key value name : String) (names : List (String × String))
    → find_key j names ≡ some name
    → find_key j (emplace key value names) ≡ some name
find_key-emplace_kept j key value name names h = rw (find_key-emplace, h) refl

find_key-emplace_new :
    (key value : String) (names : List (String × String))
    → (name : String) × (find_key key (emplace key value names) ≡ some name)
find_key-emplace_new key value names = elim (Option-cases (find_key key names)) [
  | inl absent ↦ (value, rw (find_key-emplace, absent, eq_refl) refl)
  | inr (name, known) ↦ (name, rw (find_key-emplace, known) refl)
]

module _ (P : Platform) (find_lineage : Pickle → Option Lineage) where
  name_all-kept :
      (sources : List PickleSource) (seen : List String) (names : List (String × String))
      (key name : String)
      → find_key key names ≡ some name
      → find_key key (name_all P find_lineage sources seen names) ≡ some name
  unfolding name_all
  name_all-kept [] seen names key name h = h
  name_all-kept (source ∷ sources) seen names key name h =
      name_all-kept sources _ _ key name (find_key-emplace_kept key source.pickle.id _ name names h)

  name_all-HasName :
      (sources : List PickleSource) (seen : List String) (names : List (String × String))
      → All (HasName (name_all P find_lineage sources seen names)) sources
  unfolding name_all
  name_all-HasName [] seen names = tt
  name_all-HasName (source ∷ sources) seen names =
      let (name, new) = find_key-emplace_new source.pickle.id _ names in
      ((name, name_all-kept sources _ _ source.pickle.id name new), name_all-HasName sources _ _)

  pub make_unique_test_names-HasName :
      (sources : List PickleSource)
      → All (HasName (make_unique_test_names P find_lineage sources)) sources
  unfolding make_unique_test_names
  make_unique_test_names-HasName sources = name_all-HasName sources [] []

module _ (P : Platform) (find_lineage : Pickle → Option Lineage) (distinct : IsDistinct P) where
  name_all-AllDistinct :
      (sources : List PickleSource) (seen : List String) (names : List (String × String))
      → All (λ name. contains_text name seen ≡ true) (values_of names)
      → AllDistinct (values_of names)
      → AllDistinct (values_of (name_all P find_lineage sources seen names))
  unfolding name_all
  name_all-AllDistinct [] seen names known different = different
  name_all-AllDistinct (source ∷ sources) seen names known different =
      let base = get_hierarchical_test_name P find_lineage source.pickle in
      let unique = make_unique P base seen in
      name_all-AllDistinct sources (unique ∷ seen) (emplace source.pickle.id unique names)
        (All-emplace (λ name. contains_text name (unique ∷ seen) ≡ true) source.pickle.id unique
          names (contains_text-head unique seen)
          (All-mono _ _ (values_of names) (λ name. contains_text-tail name unique seen) known))
        (emplace-AllDistinct source.pickle.id unique names
          (All-mono _ _ (values_of names)
            (λ name before.
              seen-new seen name unique before (make_unique-fresh P distinct base seen))
            known)
          different)

  -- Where fmt prints no two numbers alike, `MakeUniqueTestNames` gives every pickle a name, and no
  -- name to two ids.
  pub make_unique_test_names-Distinct :
      (sources : List PickleSource)
      → let names = make_unique_test_names P find_lineage sources in
        AllDistinct (values_of names) × All (HasName names) sources
  unfolding make_unique_test_names
  make_unique_test_names-Distinct sources = (
    name_all-AllDistinct sources [] [] tt tt,
    make_unique_test_names-HasName P find_lineage sources,
  )
