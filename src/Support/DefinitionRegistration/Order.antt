-- ===== src/Support/DefinitionRegistration/Order.antt =====
-- The order of the registry: `SourceLocationOrder` and the map that it orders
-- (cucumber_cpp/library/support/DefinitionRegistration.cpp).
use amp_cucumber_cpp_runner.Prelude.{
  ◌≡◌, refl, sym, ◌∙◌, ap, Option, List, [], ◌∷◌, All, arith, opposite, IsOrder, numbers-IsOrder,
  texts-IsOrder, is_lt, is_eq, is_gt, ordering_cases, IsSorted, lookup_key, lookup-nil, All-below,
  sorted_ext, lookup-front, lookup-hidden, lookup-rest, lookup-cons, or_else, or_else-none,
  or_else_assoc,
}
use amp_cucumber_cpp_runner.Platform.{Platform}
use amp_cucumber_cpp_runner.Support.DefinitionRegistration.{
  Location, Entry, Registry, DefinitionRegistration, compare_locations, try_emplace, register_entry,
}
use amp_cucumber_cpp_runner.Support.DefinitionRegistration.Initialisers.{register_entries}

pub compare_locations-IsOrder : IsOrder compare_locations
compare_locations-IsOrder = record {
  itself = λ a. ground (arith, texts-IsOrder.itself a.0, numbers-IsOrder.itself a.1);
  equal = λ a b h. ground (arith, texts-IsOrder.equal a.0 b.0, numbers-IsOrder.equal a.1 b.1);
  flip = λ a b. ground (arith, texts-IsOrder.flip a.0 b.0, numbers-IsOrder.flip a.1 b.1);
  trans = λ a b c.
      grind (arith, texts-IsOrder.equal a.0 b.0, texts-IsOrder.equal b.0 c.0, texts-IsOrder.trans);
}

-- Sorted by location, each location once
abbrev pub IsOrdered : {P : Platform} → Registry P → Type 0
IsOrdered registry = IsSorted compare_locations registry

-- The entry that a registry has at a location, or the first one of a list of registrations
abbrev pub entry_at : {P : Platform} → Location → List (Location × Entry P) → Option (Entry P)
entry_at location registry = lookup_key compare_locations location registry

module _ {P : Platform} where
  All-try_emplace {ℓ} :
      (Q : Location × Entry P → Type ℓ) (key : Location) (new : Entry P) (registry : Registry P)
      → Q (key, new)
      → All Q registry
      → All Q (try_emplace key new registry)
  unfolding try_emplace
  All-try_emplace Q key new [] q qs = (q, tt)
  All-try_emplace Q key new ((location, entry) ∷ registry) q (r, rs) =
      elim (ordering_cases (compare_locations key location)) [
        | is_lt below ↦ rw (below, try_emplace) (q, (r, rs))
        | is_eq same ↦ rw (same, try_emplace) (r, rs)
        | is_gt above ↦ rw (above, try_emplace) (r, All-try_emplace Q key new registry q rs)
      ]

  try_emplace-IsOrdered :
      (key : Location) (new : Entry P) (registry : Registry P)
      → IsOrdered registry
      → IsOrdered (try_emplace key new registry)
  unfolding try_emplace
  try_emplace-IsOrdered key new [] h = (tt, tt)
  try_emplace-IsOrdered key new ((location, entry) ∷ registry) (h, hs) =
      elim (ordering_cases (compare_locations key location)) [
        | is_lt below ↦
            rw (below, try_emplace)
              (
                (
                  below,
                  All-below compare_locations compare_locations-IsOrder key location registry below
                      h,
                ),
                (h, hs),
              )
        | is_eq same ↦ rw (same, try_emplace) (h, hs)
        | is_gt above ↦
            rw (above, try_emplace)
              (
                All-try_emplace _ key new registry
                    (compare_locations-IsOrder.flip key location ∙ ap opposite above) h,
                try_emplace-IsOrdered key new registry hs,
              )
      ]

  entry_at-try_emplace :
      (location key : Location) (new : Entry P) (registry : Registry P)
      → IsOrdered registry
      → entry_at location (try_emplace key new registry)
        ≡ or_else (entry_at location registry) (entry_at location ((key, new) ∷ []))
  unfolding try_emplace
  entry_at-try_emplace location key new [] h = rw (lookup-nil compare_locations location) refl
  entry_at-try_emplace location key new ((other, entry) ∷ registry) (h, hs) =
      elim (ordering_cases (compare_locations key other)) [
        | is_lt below ↦
            rw (below, try_emplace)
              (lookup-front compare_locations compare_locations-IsOrder location key new _
                (below, All-below _ compare_locations-IsOrder key other registry below h))
        | is_eq same ↦
            rw (same, try_emplace)
              (lookup-hidden compare_locations compare_locations-IsOrder location key other new
                entry registry same)
        | is_gt above ↦
            rw (above, try_emplace)
              (lookup-rest compare_locations compare_locations-IsOrder location other entry _
                registry _ (entry_at-try_emplace location key new registry hs))
      ]

  register_entries-IsOrdered :
      (entries : List (Location × Entry P)) (r : DefinitionRegistration P)
      → IsOrdered r.registry
      → IsOrdered (register_entries entries r).registry
  unfolding register_entries register_entry
  register_entries-IsOrdered [] r h = h
  register_entries-IsOrdered ((location, entry) ∷ entries) r h =
      register_entries-IsOrdered entries _ (try_emplace-IsOrdered location entry r.registry h)

  entry_at-register_entries :
      (location : Location) (entries : List (Location × Entry P)) (r : DefinitionRegistration P)
      → IsOrdered r.registry
      → entry_at location (register_entries entries r).registry
        ≡ or_else (entry_at location r.registry) (entry_at location entries)
  unfolding register_entries register_entry
  entry_at-register_entries location [] r h =
      rw (lookup-nil compare_locations location) (sym (or_else-none _))
  entry_at-register_entries location ((key, entry) ∷ entries) r h =
      entry_at-register_entries location entries _ (try_emplace-IsOrdered key entry r.registry h)
      ∙ ap (λ o. or_else o (entry_at location entries))
          (entry_at-try_emplace location key entry r.registry h)
      ∙ or_else_assoc (entry_at location r.registry) (entry_at location ((key, entry) ∷ []))
          (entry_at location entries)
      ∙ ap (or_else (entry_at location r.registry))
          (sym (lookup-cons compare_locations compare_locations-IsOrder location key entry entries))

  -- The registry does not depend on the order in which the static initialisers run, but where they
  -- register at one line: it is sorted by file and line, has at each location the entry that was
  -- first registered there, and any other order of registrations, in which the first ones at each
  -- location are the same, makes the same registry of an empty one.
  pub register_entries-IsMap :
      (entries others : List (Location × Entry P)) (r : DefinitionRegistration P)
      → r.registry ≡ []
      → ((location : Location) → entry_at location entries ≡ entry_at location others)
      → IsOrdered (register_entries entries r).registry
        × ((location : Location)
            → entry_at location (register_entries entries r).registry ≡ entry_at location entries)
        × ((register_entries entries r).registry ≡ (register_entries others r).registry)
  register_entries-IsMap entries others r empty same =
      let ordered : IsOrdered r.registry = rw empty tt in
      let found = λ (list : List (Location × Entry P)) (location : Location).
        entry_at-register_entries location list r ordered
        ∙ ap (λ l. or_else (entry_at location l) (entry_at location list)) empty
        ∙ ap (λ o. or_else o (entry_at location list)) (lookup-nil compare_locations location) in
      (
        register_entries-IsOrdered entries r ordered,
        found entries,
        sorted_ext compare_locations compare_locations-IsOrder _ _
            (register_entries-IsOrdered entries r ordered)
            (register_entries-IsOrdered others r ordered)
            (λ location. found entries location ∙ same location ∙ sym (found others location)),
      )
