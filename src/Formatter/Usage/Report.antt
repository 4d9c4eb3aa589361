-- ===== src/Formatter/Usage/Report.antt =====
-- The report of usages and their order: `GetUsage` of
-- cucumber_cpp/library/formatter/UsageFormatter.cpp.
use Prim.Native.Nat.{Ordering, compare as compare_numbers}
use Prim.Native.String.{compare}
use amp_cucumber_cpp_runner.Prelude.{
  ℕ, String, Bool, true, false, not, ◌&&◌, ◌||◌, List, [], ◌∷◌, ltb, ◌==◌, length, keep_if, map,
  if◌then◌else◌,
}
use amp_cucumber_cpp_runner.World.{Result, ok, err}
use amp_cucumber_cpp_runner.Formatter.Usage.{
  KnownDefinition, Usage, UsageMatch, UsedCase, build_empty_mapping, finalize_mapping, mean_rank,
  populate_mapping, rank_of_duration,
}

abbrev pub is_unused : Usage → Bool
is_unused usage = length usage.matches == 0

-- A tuple of a text and a number is less than another.
abbrev pub place_before : String → ℕ → String → ℕ → Bool
place_before uri line other_uri other_line = elim (compare uri other_uri) [
  | Ordering.lt ↦ true
  | Ordering.eq ↦ ltb line other_line
  | Ordering.gt ↦ false
]

-- The order of usages: the used ones by decreasing mean, then by place
abbrev pub usage_before : Usage → Usage → Bool
usage_before lhs rhs =
    if is_unused lhs && not (is_unused rhs)
    then false
    else if not (is_unused lhs) && is_unused rhs
    then true
    else if mean_rank lhs.mean_duration == mean_rank rhs.mean_duration
    then place_before lhs.uri lhs.line rhs.uri rhs.line
    else ltb (mean_rank rhs.mean_duration) (mean_rank lhs.mean_duration)

abbrev pub text_before : UsageMatch → UsageMatch → Bool
text_before lhs rhs = elim (compare lhs.uri rhs.uri) [
  | Ordering.lt ↦ true
  | Ordering.gt ↦ false
  | Ordering.eq ↦ elim (compare_numbers lhs.line rhs.line) [
    | Ordering.lt ↦ true
    | Ordering.gt ↦ false
    | Ordering.eq ↦ elim (compare lhs.text rhs.text) [ Ordering.lt ↦ true | _ ↦ false ]
  ]
]

-- The order of matches: by decreasing duration, then by place and text
abbrev pub match_before : UsageMatch → UsageMatch → Bool
match_before lhs rhs =
    if rank_of_duration lhs.duration == rank_of_duration rhs.duration
    then text_before lhs rhs
    else ltb (rank_of_duration rhs.duration) (rank_of_duration lhs.duration)

module _ {ℓ} {A : Type ℓ} (before : A → A → Bool) where
  -- `std::list::sort`, which keeps the order of what is equal
  unfoldable pub insert_before : A → List A → List A
  insert_before a [] = a ∷ []
  insert_before a (b ∷ as') = if before b a then b ∷ insert_before a as' else a ∷ b ∷ as'

  unfoldable pub sort_by : List A → List A
  unfolding insert_before
  sort_by [] = []
  sort_by (a ∷ as') = insert_before a (sort_by as')

abbrev pub with_sorted_matches : Usage → Usage
with_sorted_matches usage = record usage { matches = sort_by match_before usage.matches }

-- `GetUsage`, with `BuildMapping`
unfoldable pub get_usage : List KnownDefinition → List UsedCase → Bool → Result (List Usage)
unfolding build_empty_mapping populate_mapping finalize_mapping sort_by
get_usage definitions cases unused_only =
    elim (populate_mapping cases (build_empty_mapping definitions [])) [
      | err e ↦ err e
      | ok mapping ↦ ok (
          map with_sorted_matches (
            sort_by usage_before
              (keep_if (λ usage. not unused_only || is_unused usage) (finalize_mapping mapping))))
    ]
