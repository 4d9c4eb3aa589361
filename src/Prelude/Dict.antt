-- ===== src/Prelude/Dict.antt =====
-- Sets and maps keyed by text, as lists. Only look-ups read them, so their order does not matter.
use Prim.Native.String.{String}
use mathlib.Core.Path.{◌≡◌, refl}
use mathlib.Core.Logic.{◌≢◌, ◌↔◌, inl, inr}
use mathlib.Core.Bool.{Bool, true, false}
use mathlib.Core.Option.{Option, none, some}
use mathlib.Core.List.{List, [], ◌∷◌}
use native.Mathlib.Omega.{arith}
use text.Mathlib.Text.{◌==◌ as str_eq}
use text.Mathlib.TextEquality.{eq_iff}
use amp_cucumber_cpp_runner.Prelude.Lists.{All}
use amp_cucumber_cpp_runner.Prelude.Tests.{Bool-cases, if◌then◌else◌}

abbrev pub AllDistinct : List String → Type 0
AllDistinct [] = Unit
AllDistinct (k ∷ keys) = All (λ j. k ≢ j) keys × AllDistinct keys

-- `std::set::contains`
unfoldable pub contains_text : String → List String → Bool
contains_text key [] = false
contains_text key (k ∷ keys) = if str_eq k key then true else contains_text key keys

pub contains_text-nil : (k : String) → contains_text k [] ≡ false
unfolding contains_text
contains_text-nil k = refl

pub contains_text-cons :
    (k key : String) (seen : List String)
    → (contains_text k (key ∷ seen) ≡ false) ↔ ((key ≢ k) × (contains_text k seen ≡ false))
unfolding contains_text
contains_text-cons k key seen = ground (arith, eq_iff key k)

module _ {ℓ} {T : Type ℓ} where
  -- `std::map::emplace` and `try_emplace`, which keep the value of a key that is there.
  unfoldable pub emplace : String → T → List (String × T) → List (String × T)
  emplace key value [] = (key, value) ∷ []
  emplace key value ((k, v) ∷ values) =
      if str_eq k key then (k, v) ∷ values else (k, v) ∷ emplace key value values

  -- `std::map::find`
  unfoldable pub find_key : String → List (String × T) → Option T
  find_key key [] = none
  find_key key ((k, v) ∷ values) = if str_eq k key then some v else find_key key values

  pub find_key-emplace :
      (j key : String) (value : T) (values : List (String × T))
      → find_key j (emplace key value values) ≡ elim (find_key j values) [
        | some v ↦ some v
        | none ↦ if str_eq key j then some value else none
      ]
  unfolding find_key emplace
  find_key-emplace j key value [] = refl
  find_key-emplace j key value ((k, v) ∷ values) =
      ground (arith, eq_iff key j, eq_iff k j, eq_iff k key, find_key-emplace j key value values)

  abbrev pub values_of : List (String × T) → List T
  values_of [] = []
  values_of ((key, value) ∷ values) = value ∷ values_of values

  pub All-emplace {κ} :
      (Q : T → Type κ) (key : String) (value : T) (values : List (String × T))
      → Q value
      → All Q (values_of values)
      → All Q (values_of (emplace key value values))
  unfolding emplace
  All-emplace Q key value [] h hs = (h, tt)
  All-emplace Q key value ((k, v) ∷ values) h (q, qs) = elim (Bool-cases (str_eq k key)) [
    | inl same ↦ rw same (q, qs)
    | inr other ↦ rw other (q, All-emplace Q key value values h qs)
  ]
