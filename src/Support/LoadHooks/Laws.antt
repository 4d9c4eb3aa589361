-- ===== src/Support/LoadHooks/Laws.antt =====
-- That every hook that is loaded is known to the registry.
use text.Mathlib.TextEquality.{eq_iff, path_by_compare}
use text.Mathlib.TextPositions.{eq_refl}
use amp_cucumber_cpp_runner.Prelude.{
  ◌≡◌, ◌≢◌, refl, sym, ◌∙◌, String, none, some, List, [], ◌∷◌, All, All-both, AllDistinct, arith,
  inl, inr,
}
use amp_cucumber_cpp_runner.Platform.{Platform}
use amp_cucumber_cpp_runner.World.{Result-cases, ok-injective, ok}
use amp_cucumber_cpp_runner.Support.HookRegistry.{
  HookDefinition, HookRegistry, register, get_definition_by_id,
}
use amp_cucumber_cpp_runner.Support.DefinitionRegistration.{HookEntry}
use amp_cucumber_cpp_runner.Support.LoadHooks.{make_definition, load_hooks}

module _ {P : Platform} where
  get-register_other :
      (j key : String) (new : HookDefinition P) (registry : HookRegistry P)
      → key ≢ j
      → get_definition_by_id j (register key new registry) ≡ get_definition_by_id j registry
  unfolding get_definition_by_id register
  get-register_other j key new [] differs = ground (arith, eq_iff key j, differs)
  get-register_other j key new ((id, d) ∷ registry) differs =
      ground (arith, eq_iff key j, differs, get-register_other j key new registry differs)

  get-register_new :
      (key : String) (new : HookDefinition P) (registry : HookRegistry P)
      → get_definition_by_id key registry ≡ none
      → get_definition_by_id key (register key new registry) ≡ some new
  unfolding get_definition_by_id register
  get-register_new key new [] absent = rw eq_refl refl
  get-register_new key new ((id, d) ∷ registry) absent = ground (
    arith,
    eq_refl key,
    eq_iff id key,
    eq_refl id,
    path_by_compare key id,
    absent,
    get-register_new key new registry,
  )

  -- The registry has a definition of the hook under its id.
  abbrev pub IsLoaded : HookRegistry P → HookEntry P → Type 0
  IsLoaded registry entry =
      (d : HookDefinition P) × (make_definition entry ≡ ok d)
      × (get_definition_by_id entry.id registry ≡ some d)

  abbrev pub ids_of : List (HookEntry P) → List String
  ids_of [] = []
  ids_of (entry ∷ entries) = entry.id ∷ ids_of entries

  load_hooks-kept :
      (entries : List (HookEntry P)) (registry loaded : HookRegistry P) (key : String)
      → All (λ id. key ≢ id) (ids_of entries)
      → load_hooks entries registry ≡ ok loaded
      → get_definition_by_id key loaded ≡ get_definition_by_id key registry
  unfolding load_hooks
  load_hooks-kept [] registry loaded key others h = rw (ok-injective h) refl
  load_hooks-kept (entry ∷ entries) registry loaded key (other, others) h =
      elim (Result-cases (make_definition entry)) [
        | inr (e, refused) ↦ cc (rw (load_hooks, refused) at h)
        | inl (d, made) ↦
            load_hooks-kept entries (register entry.id d registry) loaded key others
              (rw (load_hooks, made) at h)
            ∙ get-register_other key entry.id d registry (λ e. other (sym e))
      ]

  -- Where no two hooks have the same id, and none an id that is taken, `LoadHooks` makes of each
  -- hook a definition that `GetDefinitionById` answers, unless a tag expression is refused.
  pub load_hooks-IsLoaded :
      (entries : List (HookEntry P)) (registry loaded : HookRegistry P)
      → AllDistinct (ids_of entries)
      → All (λ id. get_definition_by_id id registry ≡ none) (ids_of entries)
      → load_hooks entries registry ≡ ok loaded
      → All (IsLoaded loaded) entries
  unfolding load_hooks
  load_hooks-IsLoaded [] registry loaded distinct new h = tt
  load_hooks-IsLoaded (entry ∷ entries) registry loaded (other, others) (new, news) h =
      elim (Result-cases (make_definition entry)) [
        | inr (e, refused) ↦ cc (rw (load_hooks, refused) at h)
        | inl (d, made) ↦
            let rest = rw (load_hooks, made) at h in
            (
              (
                d,
                made,
                load_hooks-kept entries (register entry.id d registry) loaded entry.id other rest
                    ∙ get-register_new entry.id d registry new,
              ),
              load_hooks-IsLoaded entries (register entry.id d registry) loaded others
                  (All-both (λ id. entry.id ≢ id) _ _ (ids_of entries)
                    (λ id differs absent.
                      get-register_other id entry.id d registry differs ∙ absent)
                    other news)
                  rest,
            )
      ]
