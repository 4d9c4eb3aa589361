-- ===== src/Formatter/Usage/Complete.antt =====
-- Every step that has used a definition is reported once.
use Prim.Native.Nat.{Ordering}
use Prim.Native.String.{compare}
use amp_cucumber_cpp_runner.Prelude.{
  ℕ, suc, ◌+◌, ◌≡◌, refl, sym, ap, String, Bool, true, false, Option, none, some, List, [], ◌∷◌,
  length, length-append, map, keep_if, str_eq, Bool-cases, inl, inr, arith, if◌then◌else◌,
}
use amp_cucumber_cpp_runner.World.{Result-cases, ok-injective, ok}
use amp_cucumber_cpp_runner.Formatter.Usage.Known.{AllKnown, IsDefined, populate_mapping_of_defined}
use amp_cucumber_cpp_runner.Formatter.Usage.{
  UsageMatch, Usage, KnownDefinition, UsedStep, UsedCase, Mapping, unused, assign_usage,
  build_empty_mapping, add_match, add_step, add_steps, populate_mapping, finalize_mapping,
}
use amp_cucumber_cpp_runner.Formatter.Usage.Report.{
  usage_before, match_before, insert_before, sort_by, with_sorted_matches, get_usage,
}

-- One for a step with one definition alone, and else nothing
abbrev pub one_if_single : Option (List String) → ℕ
one_if_single (some (id ∷ [])) = 1
one_if_single _ = 0

abbrev pub used_steps : List UsedStep → ℕ
used_steps [] = 0
used_steps (step ∷ steps) = one_if_single step.definition_ids + used_steps steps

-- How many steps of finished test cases have one definition alone
abbrev pub used_in_cases : List UsedCase → ℕ
used_in_cases [] = 0
used_in_cases (used ∷ cases) =
    (if used.is_finished then used_steps used.steps else 0) + used_in_cases cases

abbrev pub reported : List Usage → ℕ
reported [] = 0
reported (usage ∷ usages) = length usage.matches + reported usages

abbrev mapped : Mapping → ℕ
mapped [] = 0
mapped ((key, usage) ∷ mapping) = length usage.matches + mapped mapping

assign_usage-mapped :
    (id : String) (usage : Usage) (mapping : Mapping)
    → length usage.matches ≡ 0
    → mapped mapping ≡ 0
    → mapped (assign_usage id usage mapping) ≡ 0
unfolding assign_usage
assign_usage-mapped id usage [] new h = omega (arith, new)
assign_usage-mapped id usage ((key, old) ∷ mapping) new h =
    elim (compare id key)
      as (λ o.
        mapped (elim o [
          | Ordering.lt ↦ (id, usage) ∷ (key, old) ∷ mapping
          | Ordering.eq ↦ (key, usage) ∷ mapping
          | Ordering.gt ↦ (key, old) ∷ assign_usage id usage mapping
        ])
        ≡ 0) [
          | Ordering.lt ↦ omega (arith, new, h)
          | Ordering.eq ↦ omega (arith, new, h)
          | Ordering.gt ↦
              omega (arith, h, assign_usage-mapped id usage mapping new (omega (arith, h)))
        ]

build_empty_mapping-mapped :
    (definitions : List KnownDefinition) (mapping : Mapping)
    → mapped mapping ≡ 0
    → mapped (build_empty_mapping definitions mapping) ≡ 0
unfolding build_empty_mapping
build_empty_mapping-mapped [] mapping h = h
build_empty_mapping-mapped (definition ∷ definitions) mapping h =
    build_empty_mapping-mapped definitions _
      (assign_usage-mapped definition.id (unused definition) mapping refl h)

add_match-mapped :
    (id : String) (used : UsageMatch) (mapping more : Mapping)
    → add_match id used mapping ≡ ok more
    → mapped more ≡ mapped mapping + 1
unfolding add_match
add_match-mapped id used [] more h = cc h
add_match-mapped id used ((key, usage) ∷ mapping) more h = elim (Bool-cases (str_eq key id)) [
  | inl same ↦
      rw (sym (ok-injective (rw (add_match, same) at h)))
        (omega (arith, length-append usage.matches (used ∷ [])))
  | inr other ↦ elim (Result-cases (add_match id used mapping)) [
    | inr (e, failed) ↦ cc (rw (add_match, other, failed) at h)
    | inl (rest, added) ↦
        rw (sym (ok-injective (rw (add_match, other, added) at h)))
          (omega (arith, add_match-mapped id used mapping rest added))
  ]
]

add_step-mapped :
    (uri : Option String) (step : UsedStep) (ids : Option (List String)) (mapping more : Mapping)
    → add_step uri step ids mapping ≡ ok more
    → mapped more ≡ mapped mapping + one_if_single ids
add_step-mapped uri step none mapping more h = rw (ok-injective h) (omega arith)
add_step-mapped uri step (some []) mapping more h = rw (ok-injective h) (omega arith)
add_step-mapped uri step (some (id ∷ [])) mapping more h = add_match-mapped id _ mapping more h
add_step-mapped uri step (some (id ∷ next ∷ ids)) mapping more h = rw (ok-injective h) (omega arith)

add_steps-mapped :
    (uri : Option String) (steps : List UsedStep) (mapping more : Mapping)
    → add_steps uri steps mapping ≡ ok more
    → mapped more ≡ mapped mapping + used_steps steps
unfolding add_steps
add_steps-mapped uri [] mapping more h = rw (ok-injective h) (omega arith)
add_steps-mapped uri (step ∷ steps) mapping more h =
    elim (Result-cases (add_step uri step step.definition_ids mapping)) [
      | inr (e, failed) ↦ cc (rw (add_steps, failed) at h)
      | inl (next, added) ↦ omega (
        arith,
        add_step-mapped uri step step.definition_ids mapping next added,
        add_steps-mapped uri steps next more (rw (add_steps, added) at h),
      )
    ]

populate_mapping-mapped :
    (cases : List UsedCase) (mapping more : Mapping)
    → populate_mapping cases mapping ≡ ok more
    → mapped more ≡ mapped mapping + used_in_cases cases
unfolding populate_mapping
populate_mapping-mapped [] mapping more h = rw (ok-injective h) (omega arith)
populate_mapping-mapped (used ∷ cases) mapping more h = elim (Bool-cases used.is_finished) [
  | inr open_ ↦ rw open_ (
      omega (arith, populate_mapping-mapped cases mapping more (rw (populate_mapping, open_) at h)))
  | inl finished ↦ elim (Result-cases (add_steps used.uri used.steps mapping)) [
    | inr (e, failed) ↦ cc (rw (populate_mapping, finished, failed) at h)
    | inl (next, added) ↦ rw finished (
        omega (
          arith,
          add_steps-mapped used.uri used.steps mapping next added,
          populate_mapping-mapped cases next more (rw (populate_mapping, finished, added) at h),
        ))
  ]
]

reported-finalize_mapping :
    (mapping : Mapping) → reported (finalize_mapping mapping) ≡ mapped mapping
unfolding finalize_mapping
reported-finalize_mapping [] = refl
reported-finalize_mapping ((key, usage) ∷ mapping) =
    omega (arith, reported-finalize_mapping mapping)

keep_if-all {ℓ} : {A : Type ℓ} (xs : List A) → keep_if (λ x. true) xs ≡ xs
keep_if-all [] = refl
keep_if-all (x ∷ xs) = ap (λ ys. x ∷ ys) (keep_if-all xs)

length-insert_before {ℓ} :
    {A : Type ℓ} (before : A → A → Bool) (a : A) (xs : List A)
    → length (insert_before before a xs) ≡ suc (length xs)
unfolding insert_before
length-insert_before before a [] = refl
length-insert_before before a (x ∷ xs) = elim (Bool-cases (before x a)) [
  | inl ahead ↦ rw ahead (omega (arith, length-insert_before before a xs))
  | inr behind ↦ rw behind refl
]

pub length-sort_by {ℓ} :
    {A : Type ℓ} (before : A → A → Bool) (xs : List A) → length (sort_by before xs) ≡ length xs
unfolding sort_by
length-sort_by before [] = refl
length-sort_by before (x ∷ xs) =
    omega (arith, length-insert_before before x (sort_by before xs), length-sort_by before xs)

reported-insert_before :
    (before : Usage → Usage → Bool) (usage : Usage) (usages : List Usage)
    → reported (insert_before before usage usages) ≡ length usage.matches + reported usages
unfolding insert_before
reported-insert_before before usage [] = refl
reported-insert_before before usage (u ∷ usages) = elim (Bool-cases (before u usage)) [
  | inl ahead ↦ rw ahead (omega (arith, reported-insert_before before usage usages))
  | inr behind ↦ rw behind refl
]

reported-sort_by :
    (before : Usage → Usage → Bool) (usages : List Usage)
    → reported (sort_by before usages) ≡ reported usages
unfolding sort_by
reported-sort_by before [] = refl
reported-sort_by before (usage ∷ usages) = omega (
  arith,
  reported-insert_before before usage (sort_by before usages),
  reported-sort_by before usages,
)

reported-with_sorted :
    (usages : List Usage) → reported (map with_sorted_matches usages) ≡ reported usages
reported-with_sorted [] = refl
reported-with_sorted (usage ∷ usages) =
    omega (arith, length-sort_by match_before usage.matches, reported-with_sorted usages)

-- Where the only definition of each step that has one alone is known, `GetUsage` of all definitions
-- returns, and its usages have as many matches as there are such steps of finished test cases.
pub get_usage-reported :
    (definitions : List KnownDefinition) (cases : List UsedCase)
    → AllKnown (IsDefined definitions) cases
    → (usages : List Usage) × (get_usage definitions cases false ≡ ok usages)
      × (reported usages ≡ used_in_cases cases)
unfolding get_usage
get_usage-reported definitions cases known =
    let (mapping, filled) = populate_mapping_of_defined definitions cases known in
    let all = finalize_mapping mapping in
    (
      map with_sorted_matches (sort_by usage_before all),
      rw (get_usage, filled, keep_if-all) refl,
      omega (
        arith,
        reported-with_sorted (sort_by usage_before all),
        reported-sort_by usage_before all,
        reported-finalize_mapping mapping,
        populate_mapping-mapped cases (build_empty_mapping definitions []) mapping filled,
        build_empty_mapping-mapped definitions [] refl,
      ),
    )
