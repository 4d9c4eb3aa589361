-- ===== src/Support/DefinitionRegistration/Ids.antt =====
-- That loading ids tells all entries apart.
use amp_cucumber_cpp_runner.Prelude.{
  ℕ, zero, suc, ◌+◌, ◌<◌, ◌≡◌, ◌≢◌, refl, ap, String, List, [], ◌∷◌, ◌++◌, append_assoc, map,
  map-append, length, All, AllDistinct, arith,
}
use amp_cucumber_cpp_runner.Platform.{Platform, IsDistinct}
use amp_cucumber_cpp_runner.Support.DefinitionRegistration.{
  Entry, of_hook, of_step, Registry, Plugin, DefinitionRegistration, assign_ids, assign_plugin_ids,
  load_ids, with_id,
}
use amp_cucumber_cpp_runner.Support.DefinitionRegistration.Entries.{
  entries_of, plugin_values, registered_entries, hooks_of, steps_of, plugin_hooks, plugin_steps,
  get_hooks, registered_steps,
}

module _ (P : Platform) where
  -- `count` ids, of which `issued` is the number of the first
  abbrev ids_from : (issued count : ℕ) → List String
  ids_from issued zero = []
  ids_from issued (suc count) = P.id_of issued ∷ ids_from (issued + 1) count

  ids_from-append :
      (issued m n : ℕ) → ids_from issued (m + n) ≡ ids_from issued m ++ ids_from (issued + m) n
  ids_from-append issued zero n =
      let start : issued + 0 ≡ issued = omega arith in
      let sum : 0 + n ≡ n = omega arith in rw (start, sum) refl
  ids_from-append issued (suc m) n =
      let next : issued + suc m ≡ issued + 1 + m = omega arith in
      let sum : suc m + n ≡ suc (m + n) = omega arith in
      rw (next, sum) (ap (λ ids. P.id_of issued ∷ ids) (ids_from-append (issued + 1) m n))

  ids_from-differ :
      (distinct : IsDistinct P) (issued count n : ℕ)
      → n < issued
      → All (λ id. P.id_of n ≢ id) (ids_from issued count)
  ids_from-differ distinct issued zero n before = tt
  ids_from-differ distinct issued (suc count) n before = (
    λ e. omega (arith, before, distinct.id_of-injective n issued e),
    ids_from-differ distinct (issued + 1) count n (omega (arith, before)),
  )

  ids_from-AllDistinct :
      (distinct : IsDistinct P) (issued count : ℕ) → AllDistinct (ids_from issued count)
  ids_from-AllDistinct distinct issued zero = tt
  ids_from-AllDistinct distinct issued (suc count) = (
    ids_from-differ distinct (issued + 1) count issued (omega arith),
    ids_from-AllDistinct distinct (issued + 1) count,
  )

module _ {P : Platform} where
  abbrev pub id_of_entry : Entry P → String
  id_of_entry (of_hook entry) = entry.id
  id_of_entry (of_step entry) = entry.id

  id-with_id : (id : String) (entry : Entry P) → id_of_entry (with_id id entry) ≡ id
  id-with_id id (of_hook entry) = refl
  id-with_id id (of_step entry) = refl

  ids-assign_ids :
      (issued : ℕ) (registry : Registry P)
      → map id_of_entry (entries_of (assign_ids issued registry))
        ≡ ids_from P issued (length registry)
  unfolding assign_ids
  ids-assign_ids issued [] = refl
  ids-assign_ids issued ((location, entry) ∷ registry) =
      cc (id-with_id (P.id_of issued) entry, ids-assign_ids (issued + 1) registry)

  abbrev plugin_sizes : List (Plugin P) → ℕ
  plugin_sizes [] = 0
  plugin_sizes (plugin ∷ plugins) = length plugin.registry + plugin_sizes plugins

  ids-assign_plugin_ids :
      (issued : ℕ) (plugins : List (Plugin P))
      → map id_of_entry (plugin_values (assign_plugin_ids issued plugins))
        ≡ ids_from P issued (plugin_sizes plugins)
  unfolding assign_plugin_ids
  ids-assign_plugin_ids issued [] = refl
  ids-assign_plugin_ids issued (plugin ∷ plugins) = simp (
    map-append,
    ids-assign_ids,
    ids-assign_plugin_ids (issued + length plugin.registry) plugins,
    ids_from-append,
  )

  -- The number of entries of a registration
  abbrev pub entry_count : DefinitionRegistration P → ℕ
  entry_count r = length r.static_registry + (length r.registry + plugin_sizes r.plugins)

  -- `LoadIds` gives the entries, in the order in which they are visited, the next ids of the
  -- generator.
  ids-load_ids :
      (issued : ℕ) (r : DefinitionRegistration P)
      → map id_of_entry (registered_entries (load_ids issued r)) ≡ ids_from P issued (entry_count r)
  unfolding load_ids registered_entries
  ids-load_ids issued r =
      simp (map-append, ids-assign_ids, ids-assign_plugin_ids, ids_from-append, append_assoc)

  hooks_of-append : (xs ys : List (Entry P)) → hooks_of (xs ++ ys) ≡ hooks_of xs ++ hooks_of ys
  hooks_of-append [] ys = refl
  hooks_of-append (of_hook entry ∷ xs) ys = ap (λ hooks. entry ∷ hooks) (hooks_of-append xs ys)
  hooks_of-append (of_step entry ∷ xs) ys = hooks_of-append xs ys

  steps_of-append : (xs ys : List (Entry P)) → steps_of (xs ++ ys) ≡ steps_of xs ++ steps_of ys
  steps_of-append [] ys = refl
  steps_of-append (of_hook entry ∷ xs) ys = steps_of-append xs ys
  steps_of-append (of_step entry ∷ xs) ys = ap (λ steps. entry ∷ steps) (steps_of-append xs ys)

  plugin_hooks-values :
      (plugins : List (Plugin P)) → plugin_hooks plugins ≡ hooks_of (plugin_values plugins)
  plugin_hooks-values [] = refl
  plugin_hooks-values (plugin ∷ plugins) = simp (hooks_of-append, plugin_hooks-values plugins)

  plugin_steps-values :
      (plugins : List (Plugin P)) → plugin_steps plugins ≡ steps_of (plugin_values plugins)
  plugin_steps-values [] = refl
  plugin_steps-values (plugin ∷ plugins) = simp (steps_of-append, plugin_steps-values plugins)

  -- `GetHooks` and `ForEachRegisteredStep` share out the entries of `ForEachRegisteredEntry`.
  pub get_hooks-entries :
      (r : DefinitionRegistration P)
      → (get_hooks r ≡ hooks_of (registered_entries r))
        × (registered_steps r ≡ steps_of (registered_entries r))
  unfolding get_hooks registered_steps registered_entries
  get_hooks-entries r =
      (simp (hooks_of-append, plugin_hooks-values), simp (steps_of-append, plugin_steps-values))

-- Where the generator repeats no id, `LoadIds` gives no two of the registered entries the same id.
pub load_ids-AllDistinct :
    {P : Platform} (distinct : IsDistinct P) (issued : ℕ) (r : DefinitionRegistration P)
    → AllDistinct (map id_of_entry (registered_entries (load_ids issued r)))
load_ids-AllDistinct {P} distinct issued r =
    rw (ids-load_ids issued r) (ids_from-AllDistinct P distinct issued (entry_count r))
