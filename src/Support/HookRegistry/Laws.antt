-- ===== src/Support/HookRegistry/Laws.antt =====
-- Which hooks `FindIds` finds (cucumber_cpp/library/support/HookRegistry.cpp).
use amp_cucumber_cpp_runner.Prelude.{
  ◌≡◌, inl, inr, String, some, List, [], ◌∷◌, str_eq, eq_refl, All, Bool-cases,
}
use amp_cucumber_cpp_runner.Platform.{Platform}
use amp_cucumber_cpp_runner.Support.HookRegistry.{
  HookType, HookRegistry, HookDefinition, type_filter, matches, find_ids, get_definition_by_id,
}

module _ {P : Platform} where
  abbrev pub IsRegistered : HookRegistry P → String → Type 0
  IsRegistered registry id = (d : HookDefinition P) × (get_definition_by_id id registry ≡ some d)

  -- A longer registry has the definitions of a shorter one, or others under the same ids.
  IsRegistered-cons :
      (key : String) (d : HookDefinition P) (registry : HookRegistry P) (id : String)
      → IsRegistered registry id
      → IsRegistered ((key, d) ∷ registry) id
  unfolding get_definition_by_id
  IsRegistered-cons key d registry id (found, e) = elim (Bool-cases (str_eq key id)) [
    | inl same ↦ (d, rw same)
    | inr other ↦ (found, rw (other, e))
  ]

  All-IsRegistered-cons :
      (key : String) (d : HookDefinition P) (registry : HookRegistry P) (ids : List String)
      → All (IsRegistered registry) ids
      → All (IsRegistered ((key, d) ∷ registry)) ids
  All-IsRegistered-cons key d registry [] h = tt
  All-IsRegistered-cons key d registry (id ∷ ids) (h, hs) =
      (IsRegistered-cons key d registry id h, All-IsRegistered-cons key d registry ids hs)

  IsRegistered-head :
      (key : String) (d : HookDefinition P) (registry : HookRegistry P)
      → IsRegistered ((key, d) ∷ registry) key
  unfolding get_definition_by_id
  IsRegistered-head key d registry = (d, simp eq_refl)

  -- Every id that `FindIds` yields is one that `GetDefinitionById` knows.
  pub find_ids-All-IsRegistered :
      (type : HookType) (tags : List String) (registry : HookRegistry P)
      → All (IsRegistered registry) (find_ids type tags registry)
  unfolding find_ids
  find_ids-All-IsRegistered type tags [] = tt
  find_ids-All-IsRegistered type tags ((key, d) ∷ registry) =
      let rest =
        All-IsRegistered-cons key d registry _ (find_ids-All-IsRegistered type tags registry) in
      elim (Bool-cases (type_filter type d)) [
        | inr other ↦ rw other rest
        | inl same ↦ elim (Bool-cases (matches tags d)) [
          | inl applies ↦ rw (same, applies) (IsRegistered-head key d registry, rest)
          | inr not_ ↦ rw (same, not_) rest
        ]
      ]
