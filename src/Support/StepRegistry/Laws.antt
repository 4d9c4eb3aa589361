-- ===== src/Support/StepRegistry/Laws.antt =====
-- The step registry: its list against its map (cucumber_cpp/library/support/StepRegistry.cpp).
use amp_cucumber_cpp_runner.Prelude.{
  ◌≡◌, ◌≢◌, refl, sym, ap, ◌∙◌, ◌++◌, String, Option, none, some, List, [], ◌∷◌, str_eq, eq_iff,
  eq_refl, Bool-cases, All, inl, inr, if◌then◌else◌, All-append, All-mono, arith,
}
use amp_cucumber_cpp_runner.Platform.{
  Platform, Compiled, compiled, undefined_parameter_type, refused,
}
use amp_cucumber_cpp_runner.World.{Error, Result, ok, err}
use amp_cucumber_cpp_runner.Support.StepRegistry.{
  StepDefinition, StepRegistry, StepEntry, find_entry, set_entry, get_definition_by_id, register,
  load_steps,
}

module _ {ℓ} {A : Type ℓ} where
  pub find_entry-set_entry :
      (k key : String) (a : A) (m : List (String × A))
      → find_entry k (set_entry key a m) ≡ (if str_eq key k then some a else find_entry k m)
  unfolding find_entry set_entry
  find_entry-set_entry k key a [] = refl
  find_entry-set_entry k key a ((j, b) ∷ m) =
      ground (arith, eq_iff j key, eq_iff j k, eq_iff key k, find_entry-set_entry k key a m)

-- What a call leaves that has not thrown
abbrev pub Holds : {B : Type 0} → (B → Type 0) → Result B → Type 0
Holds Q (ok b) = Q b
Holds Q (err e) = Unit

elim_Compiled :
    {A B : Type 0} (Q : B → Type 0) (c : Compiled A) (u : String → String → B) (f : String → Error)
    (s : A → B)
    → ((e n : String) → Q (u e n))
    → ((a : A) → Q (s a))
    → Holds Q (elim c [
      | undefined_parameter_type e n ↦ ok (u e n)
      | refused what ↦ err (f what)
      | compiled a ↦ ok (s a)
    ])
elim_Compiled Q (compiled a) u f s hu hs = hs a
elim_Compiled Q (undefined_parameter_type e n) u f s hu hs = hu e n
elim_Compiled Q (refused what) u f s hu hs = tt

-- A call whose refusal is the only thing that throws returns where nothing is refused.
pub returns_Compiled :
    {A B : Type 0} (c : Compiled A) (u : String → String → B) (f : String → Error) (s : A → B)
    → ((what : String) → c ≢ refused what)
    → (b : B) × ((elim c [
      | undefined_parameter_type e n ↦ ok (u e n)
      | refused what ↦ err (f what)
      | compiled a ↦ ok (s a)
    ])
        ≡ ok b)
returns_Compiled (compiled a) u f s h = (s a, refl)
returns_Compiled (undefined_parameter_type e n) u f s h = (u e n, refl)
returns_Compiled (refused what) u f s h = absurd (h what refl)

Holds-then :
    {B : Type 0} (Q : B → Type 0) (r : Result B) (next : B → Result B)
    → Holds Q r
    → ((b : B) → Q b → Holds Q (next b))
    → Holds Q (elim r [ ok b ↦ next b | err e ↦ err e ])
Holds-then Q (ok b) next q h = h b q
Holds-then Q (err e) next q h = tt

module _ {P : Platform} where
  -- `GetDefinitionById` knows the id.
  abbrev pub IsKnown : StepRegistry P → String → Type 0
  IsKnown r id = (d : StepDefinition P) × (get_definition_by_id id r ≡ some d)

  -- The registry's map knows the id of every definition in its list.
  abbrev pub IsConsistent : StepRegistry P → Type 0
  IsConsistent r = All (λ d. IsKnown r d.id) r.registry

  known_after_set :
      (id key : String) (new : StepDefinition P) (m : List (String × StepDefinition P))
      → ((d : StepDefinition P) × (find_entry id m ≡ some d))
      → ((d : StepDefinition P) × (find_entry id (set_entry key new m) ≡ some d))
  known_after_set id key new m (d, e) = elim (Bool-cases (str_eq key id)) [
    | inl same ↦ (new, rw (find_entry-set_entry id key new m, same) refl)
    | inr other ↦ (d, rw (find_entry-set_entry id key new m, other) e)
  ]

  known_new :
      (key : String) (new : StepDefinition P) (m : List (String × StepDefinition P))
      → ((d : StepDefinition P) × (find_entry key (set_entry key new m) ≡ some d))
  known_new key new m = (new, rw (find_entry-set_entry key key new m, eq_refl key) refl)

  register-IsConsistent :
      (e : StepEntry P) (r : StepRegistry P) → IsConsistent r → Holds IsConsistent (register e r)
  unfolding register get_definition_by_id
  register-IsConsistent e r h =
      elim_Compiled IsConsistent _ _ _ _ (λ expression name. h)
        λ matcher.
          All-append _ r.registry _
            (All-mono _ _ r.registry (λ d k. known_after_set d.id e.id _ r.id_to_definition k) h)
            (known_new e.id _ r.id_to_definition, tt)

  -- What is registered one after the other
  load_steps-Holds :
      (Q : StepRegistry P → Type 0)
      → ((e : StepEntry P) (r : StepRegistry P) → Q r → Holds Q (register e r))
      → (entries : List (StepEntry P)) (r : StepRegistry P) → Q r
      → Holds Q (load_steps entries r)
  unfolding load_steps
  load_steps-Holds Q step [] r h = h
  load_steps-Holds Q step (e ∷ entries) r h =
      Holds-then Q (register e r) (load_steps entries) (step e r h)
        (λ next q. load_steps-Holds Q step entries next q)

  -- Loading any steps into a consistent registry, such as an empty one, leaves it consistent, unless
  -- it throws.
  pub load_steps-IsConsistent :
      (entries : List (StepEntry P)) (r : StepRegistry P)
      → IsConsistent r
      → Holds IsConsistent (load_steps entries r)
  load_steps-IsConsistent = load_steps-Holds IsConsistent register-IsConsistent

  -- The last of some definitions that has an id
  abbrev pub last_with : String → List (StepDefinition P) → Option (StepDefinition P)
  last_with id [] = none
  last_with id (d ∷ definitions) = elim (last_with id definitions) [
    | some later ↦ some later
    | none ↦ if str_eq d.id id then some d else none
  ]

  -- The map has at each id the last definition of the list with that id, and no other ids.
  abbrev pub IsIndexed : StepRegistry P → Type 0
  IsIndexed r = (id : String) → get_definition_by_id id r ≡ last_with id r.registry

  last_with-append :
      (id : String) (definitions : List (StepDefinition P)) (d : StepDefinition P)
      → last_with id (definitions ++ (d ∷ []))
        ≡ (if str_eq d.id id then some d else last_with id definitions)
  last_with-append id [] d = refl
  last_with-append id (c ∷ definitions) d = elim (Bool-cases (str_eq d.id id)) [
    | inl same ↦ rw (last_with-append id definitions d, same) refl
    | inr other ↦ rw (last_with-append id definitions d, other) refl
  ]

  set_entry-last_with :
      (d : StepDefinition P) (r : StepRegistry P)
      → IsIndexed r
      → (id : String)
      → find_entry id (set_entry d.id d r.id_to_definition) ≡ last_with id (r.registry ++ (d ∷ []))
  unfolding get_definition_by_id
  set_entry-last_with d r h id =
      find_entry-set_entry id d.id d r.id_to_definition
      ∙ ap (λ rest. if str_eq d.id id then some d else rest) (h id)
      ∙ sym (last_with-append id r.registry d)

  register-IsIndexed :
      (e : StepEntry P) (r : StepRegistry P) → IsIndexed r → Holds IsIndexed (register e r)
  unfolding register get_definition_by_id
  register-IsIndexed e r h =
      elim_Compiled IsIndexed _ _ _ _ (λ expression name. h) λ matcher. set_entry-last_with _ r h

  -- Loading any steps into a registry whose map has at each id the last definition of its list with
  -- that id, such as an empty one, leaves one with such a map, unless it throws: looking up the id of
  -- a definition that steps are matched with yields that definition, where ids are not repeated.
  pub load_steps-IsIndexed :
      (entries : List (StepEntry P)) (r : StepRegistry P)
      → IsIndexed r
      → Holds IsIndexed (load_steps entries r)
  load_steps-IsIndexed = load_steps-Holds IsIndexed register-IsIndexed
