-- ===== src/Formatter/Usage/Known.antt =====
-- That usages are answered where every step's definition is known.
use mathlib.Core.Path.{subst}
use text.Mathlib.TextEquality.{eq_iff, path_by_compare}
use text.Mathlib.TextPositions.{eq_refl}
use amp_cucumber_cpp_runner.Prelude.{
  ◌≡◌, refl, String, Bool, true, false, Option, none, some, List, [], ◌∷◌, ◌++◌, map, contains_text,
  All, All-mono, str_eq, Bool-cases, inl, inr, arith, if◌then◌else◌,
}
use amp_cucumber_cpp_runner.World.{ok}
use amp_cucumber_cpp_runner.Formatter.Usage.{
  UsageMatch, Usage, KnownDefinition, UsedStep, UsedCase, Mapping, unused, assign_usage,
  build_empty_mapping, add_match, add_step, add_steps, populate_mapping,
}

unfoldable is_mapped : String → Mapping → Bool
is_mapped id [] = false
is_mapped id ((key, usage) ∷ mapping) = if str_eq key id then true else is_mapped id mapping

is_mapped-assign_self :
    (id : String) (usage : Usage) (mapping : Mapping)
    → is_mapped id (assign_usage id usage mapping) ≡ true
unfolding is_mapped assign_usage
is_mapped-assign_self id usage [] = rw eq_refl refl
is_mapped-assign_self id usage ((key, old) ∷ mapping) = ground (
  arith,
  eq_refl id,
  eq_iff key id,
  path_by_compare id key,
  eq_refl key,
  is_mapped-assign_self id usage mapping,
)

is_mapped-assign :
    (j id : String) (usage : Usage) (mapping : Mapping)
    → is_mapped j mapping ≡ true
    → is_mapped j (assign_usage id usage mapping) ≡ true
unfolding is_mapped assign_usage
is_mapped-assign j id usage [] h = cc h
is_mapped-assign j id usage ((key, old) ∷ mapping) h =
    ground (arith, h, is_mapped-assign j id usage mapping)

add_match-total :
    (id : String) (used : UsageMatch) (mapping : Mapping)
    → is_mapped id mapping ≡ true
    → (more : Mapping) × (add_match id used mapping ≡ ok more)
      × ((j : String) → is_mapped j mapping ≡ true → is_mapped j more ≡ true)
unfolding is_mapped add_match
add_match-total id used [] h = cc h
add_match-total id used ((key, usage) ∷ mapping) h = elim (Bool-cases (str_eq key id)) [
  | inl same ↦ (
    (key, record usage { matches = usage.matches ++ (used ∷ []) }) ∷ mapping,
    rw same refl,
    λ j k. k,
  )
  | inr other ↦
      let (more, added, kept) = add_match-total id used mapping (rw (is_mapped, other) at h) in
      ((key, usage) ∷ more, rw (other, added) refl, λ j k. ground (arith, k, kept j))
]

-- What is mapped stays so.
abbrev KeepsMapped : Mapping → Mapping → Type 0
KeepsMapped old new = (j : String) → is_mapped j old ≡ true → is_mapped j new ≡ true

-- The definition of a step that has one alone is among some.
abbrev pub IsKnown : (String → Type 0) → Option (List String) → Type 0
IsKnown Q (some (id ∷ [])) = Q id
IsKnown Q _ = Unit

abbrev IsMapped : Mapping → String → Type 0
IsMapped mapping id = is_mapped id mapping ≡ true

IsKnown-mono :
    (Q S : String → Type 0) (ids : Option (List String))
    → ((id : String) → Q id → S id)
    → IsKnown Q ids
    → IsKnown S ids
IsKnown-mono Q S none f h = tt
IsKnown-mono Q S (some []) f h = tt
IsKnown-mono Q S (some (id ∷ [])) f h = f id h
IsKnown-mono Q S (some (id ∷ next ∷ ids)) f h = tt

abbrev pub AllKnown : (String → Type 0) → List UsedCase → Type 0
AllKnown Q cases = All (λ used. All (λ step. IsKnown Q step.definition_ids) used.steps) cases

AllKnown-mono :
    (Q S : String → Type 0) (cases : List UsedCase)
    → ((id : String) → Q id → S id)
    → AllKnown Q cases
    → AllKnown S cases
AllKnown-mono Q S cases f =
    All-mono _ _ cases
      (λ used. All-mono _ _ used.steps (λ step. IsKnown-mono Q S step.definition_ids f))

add_step-total :
    (uri : Option String) (step : UsedStep) (ids : Option (List String)) (mapping : Mapping)
    → IsKnown (IsMapped mapping) ids
    → (more : Mapping) × (add_step uri step ids mapping ≡ ok more) × KeepsMapped mapping more
add_step-total uri step none mapping h = (mapping, refl, λ j k. k)
add_step-total uri step (some []) mapping h = (mapping, refl, λ j k. k)
add_step-total uri step (some (id ∷ [])) mapping h = add_match-total id _ mapping h
add_step-total uri step (some (id ∷ next ∷ ids)) mapping h = (mapping, refl, λ j k. k)

add_steps-total :
    (uri : Option String) (steps : List UsedStep) (mapping : Mapping)
    → All (λ step. IsKnown (IsMapped mapping) step.definition_ids) steps
    → (more : Mapping) × (add_steps uri steps mapping ≡ ok more) × KeepsMapped mapping more
unfolding add_steps
add_steps-total uri [] mapping h = (mapping, refl, λ j k. k)
add_steps-total uri (step ∷ steps) mapping (h, hs) =
    let (next, added, kept) = add_step-total uri step step.definition_ids mapping h in
    let (more, rest, kept_more) =
      add_steps-total uri steps next
        (All-mono _ _ steps (λ s. IsKnown-mono _ _ s.definition_ids kept) hs) in
    (more, rw (add_steps, added) rest, λ j k. kept_more j (kept j k))

populate_mapping-total :
    (cases : List UsedCase) (mapping : Mapping)
    → AllKnown (IsMapped mapping) cases
    → (more : Mapping) × (populate_mapping cases mapping ≡ ok more)
unfolding populate_mapping
populate_mapping-total [] mapping h = (mapping, refl)
populate_mapping-total (used ∷ cases) mapping (h, hs) = elim (Bool-cases used.is_finished) [
  | inr open_ ↦
      let (more, rest) = populate_mapping-total cases mapping hs in
      (more, rw (populate_mapping, open_) rest)
  | inl finished ↦
      let (next, added, kept) = add_steps-total used.uri used.steps mapping h in
      let (more, rest) = populate_mapping-total cases next (AllKnown-mono _ _ cases kept hs) in
      (more, rw (populate_mapping, finished, added) rest)
]

build_empty_mapping-kept :
    (definitions : List KnownDefinition) (mapping : Mapping)
    → KeepsMapped mapping (build_empty_mapping definitions mapping)
unfolding build_empty_mapping
build_empty_mapping-kept [] mapping j h = h
build_empty_mapping-kept (definition ∷ definitions) mapping j h =
    build_empty_mapping-kept definitions _ j
      (is_mapped-assign j definition.id (unused definition) mapping h)

abbrev id_of_definition : KnownDefinition → String
id_of_definition definition = definition.id

-- An id is that of one of some definitions.
abbrev pub IsDefined : List KnownDefinition → String → Type 0
IsDefined definitions id = contains_text id (map id_of_definition definitions) ≡ true

build_empty_mapping-IsMapped :
    (definitions : List KnownDefinition) (mapping : Mapping) (id : String)
    → IsDefined definitions id
    → IsMapped (build_empty_mapping definitions mapping) id
unfolding build_empty_mapping contains_text
build_empty_mapping-IsMapped [] mapping id h = cc h
build_empty_mapping-IsMapped (definition ∷ definitions) mapping id h =
    elim (Bool-cases (str_eq definition.id id)) [
      | inl same ↦ build_empty_mapping-kept definitions _ id (
          subst (λ i. is_mapped i (assign_usage definition.id (unused definition) mapping) ≡ true)
            ((eq_iff definition.id id).0 same)
            (is_mapped-assign_self definition.id (unused definition) mapping))
      | inr other ↦ build_empty_mapping-IsMapped definitions _ id (rw (contains_text, other) at h)
    ]

-- The mapping is made, where every step's only definition is defined.
pub populate_mapping_of_defined :
    (definitions : List KnownDefinition) (cases : List UsedCase)
    → AllKnown (IsDefined definitions) cases
    → (mapping : Mapping) × (populate_mapping cases (build_empty_mapping definitions [])
        ≡ ok mapping)
populate_mapping_of_defined definitions cases h =
    populate_mapping-total cases (build_empty_mapping definitions [])
      (AllKnown-mono _ _ cases (build_empty_mapping-IsMapped definitions []) h)
