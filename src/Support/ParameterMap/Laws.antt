-- ===== src/Support/ParameterMap/Laws.antt =====
-- The keys that a parameter map accepts, and the look-ups in it.
use text.Mathlib.TextEquality.{eq_iff}
use text.Mathlib.TextPositions.{eq_refl}
use amp_cucumber_cpp_runner.Prelude.{
  ◌<>◌, elim_none, ◌≡◌, refl, ◌≢◌, ◌↔◌, String, false, none, List, [], ◌∷◌, All, All-mono, All-both,
  All-intro, str_eq, AllDistinct, contains_text, contains_text-nil, contains_text-cons, emplace,
  arith, if◌then◌else◌,
}
use amp_cucumber_cpp_runner.World.{ok, err, out_of_range}
use amp_cucumber_cpp_runner.Support.ParameterMap.{
  validate_each, validate_keys, sort_keys, append_keys, keys_to_regex, keys_of, emplace_all, lookup,
  ParameterMapEntries, make_entries,
}

-- At least one key, none of them empty, and no two the same
abbrev pub IsValid : List String → Type 0
IsValid keys = (keys ≢ []) × All (λ k. k ≢ "") keys × AllDistinct keys

lookup-nil {ℓ} : {T : Type ℓ} (k : String) → lookup {T = T} k [] ≡ err out_of_range
unfolding lookup
lookup-nil k = refl

lookup-emplace {ℓ} :
    {T : Type ℓ} (j key : String) (value : T) (values : List (String × T))
    → lookup j (emplace key value values)
      ≡ elim (lookup j values) [ ok v ↦ ok v | err e ↦ if str_eq key j then ok value else err e ]
unfolding lookup emplace
lookup-emplace j key value [] = refl
lookup-emplace j key value ((k, v) ∷ values) =
    ground (arith, eq_iff key j, eq_iff k j, eq_iff k key, lookup-emplace j key value values)

abbrev Fresh : List String → List String → Type 0
Fresh seen keys =
    All (λ k. k ≢ "") keys × All (λ k. contains_text k seen ≡ false) keys × AllDistinct keys

Fresh-cons :
    (seen : List String) (key : String) (keys : List String)
    → Fresh seen (key ∷ keys)
      ↔ ((key ≢ "") × (contains_text key seen ≡ false) × Fresh (key ∷ seen) keys)
Fresh-cons seen key keys = (
  λ ((filled, filleds), (new, news), (other, others)). (
    filled,
    new,
    (
      filleds,
      All-both (λ k. key ≢ k) (λ k. contains_text k seen ≡ false) _ keys
          (λ k p q. (contains_text-cons k key seen).1 (p, q)) other news,
      others,
    ),
  ),
  λ (filled, new, (filleds, news, others)). (
    (filled, filleds),
    (new, All-mono _ _ keys (λ k h. ((contains_text-cons k key seen).0 h).1) news),
    (All-mono _ _ keys (λ k h. ((contains_text-cons k key seen).0 h).0) news, others),
  ),
)

validate_each-Fresh : (seen keys : List String) → (validate_each seen keys ≡ none) ↔ Fresh seen keys
unfolding validate_each
validate_each-Fresh seen [] = (λ _. (tt, tt, tt), λ _. refl)
validate_each-Fresh seen (key ∷ keys) =
    grind (arith, eq_iff key "", validate_each-Fresh (key ∷ seen) keys, Fresh-cons seen key keys)

-- `ValidateKeys` accepts the keys that are at least one, not empty and all different.
pub validate_keys-IsValid : (keys : List String) → (validate_keys keys ≡ none) ↔ IsValid keys
validate_keys-IsValid [] = (λ h. cc h, λ (filled, _, _). absurd (filled refl))
validate_keys-IsValid (key ∷ keys) =
    let (fresh, valid) = validate_each-Fresh [] (key ∷ keys) in
    (
      λ h. let (filled, _, others) = fresh h in (λ e. cc e, filled, others),
      λ (_, filled, others). valid (filled, All-intro _ (key ∷ keys) (contains_text-nil), others),
    )

-- The expression of keys that are accepted
pub keys_to_regex_of_valid :
    (keys : List String)
    → validate_keys keys ≡ none
    → keys_to_regex keys ≡ ok (append_keys "" (sort_keys keys) <> ")")
unfolding keys_to_regex
keys_to_regex_of_valid keys valid =
    elim_none (λ r. r ≡ ok (append_keys "" (sort_keys keys) <> ")")) (validate_keys keys)
      (ok (append_keys "" (sort_keys keys) <> ")")) err valid refl

module _ {ℓ} {T : Type ℓ} where
  lookup-emplace_other :
      (j key : String) (value : T) (values : List (String × T))
      → key ≢ j
      → lookup j values ≡ err out_of_range
      → lookup j (emplace key value values) ≡ err out_of_range
  lookup-emplace_other j key value values differs absent =
      ground (arith, eq_iff key j, lookup-emplace j key value values)

  lookup-emplace_all :
      (entries values : List (String × T)) (key : String) (value : T)
      → lookup key values ≡ ok value
      → lookup key (emplace_all entries values) ≡ ok value
  unfolding emplace_all
  lookup-emplace_all [] values key value h = h
  lookup-emplace_all ((k, v) ∷ entries) values key value h =
      lookup-emplace_all entries (emplace k v values) key value (rw (lookup-emplace, h) refl)

  lookup-entries :
      (entries values : List (String × T))
      → All (λ k. lookup k values ≡ err out_of_range) (keys_of entries)
      → AllDistinct (keys_of entries)
      → All (λ e. lookup e.0 (emplace_all entries values) ≡ ok e.1) entries
  unfolding emplace_all
  lookup-entries [] values absent distinct = tt
  lookup-entries ((key, value) ∷ entries) values (absent, absents) (other, others) = (
    lookup-emplace_all entries (emplace key value values) key value
        (rw (lookup-emplace, absent, eq_refl) refl),
    lookup-entries entries (emplace key value values)
        (All-both (λ j. key ≢ j) _ _ (keys_of entries)
          (λ j. lookup-emplace_other j key value values) other absents)
        others,
  )

  -- A parameter map whose keys are at least one, not empty and all different is made, and in it
  -- every entry is looked up at its key.
  pub lookup-make_entries :
      (entries : List (String × T))
      → IsValid (keys_of entries)
      → (made : ParameterMapEntries T) × (make_entries entries ≡ ok made)
        × All (λ e. lookup e.0 made.values ≡ ok e.1) entries
  unfolding make_entries
  lookup-make_entries entries valid =
      let accepted = (validate_keys-IsValid (keys_of entries)).1 valid in
      (
        record {
          regex = append_keys "" (sort_keys (keys_of entries)) <> ")";
          values = emplace_all entries [];
        },
        rw (make_entries, keys_to_regex_of_valid (keys_of entries) accepted) refl,
        lookup-entries entries [] (All-intro _ (keys_of entries) lookup-nil) valid.2,
      )
