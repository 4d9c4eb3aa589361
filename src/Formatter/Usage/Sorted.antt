-- ===== src/Formatter/Usage/Sorted.antt =====
-- The order of the usage report: `GetUsage` of cucumber_cpp/library/formatter/UsageFormatter.cpp.
use Prim.Native.Nat.{Ordering, compare as compare_numbers}
use Prim.Native.String.{compare}
use amp_cucumber_cpp_runner.Prelude.{
  ℕ, ◌≡◌, ◌≢◌, refl, sym, ◌∙◌, inl, inr, String, Bool, not, ◌||◌, List, [], ◌∷◌, map, keep_if, All,
  All-mono, arith, Bool-cases, IsOrder, numbers-IsOrder, texts-IsOrder, descending,
  descending-IsOrder, by_parts, by_parts-IsOrder, precedes, IsSortedBy, at_most_trans,
  at_most_of_not_before, at_most_of_before, if◌then◌else◌,
}
use amp_cucumber_cpp_runner.World.{ok}
use amp_cucumber_cpp_runner.Formatter.Usage.{
  UsageMatch, Usage, KnownDefinition, UsedCase, mean_rank, rank_of_duration, finalize_mapping,
}
use amp_cucumber_cpp_runner.Formatter.Usage.Report.{
  is_unused, usage_before, match_before, insert_before, sort_by, with_sorted_matches, get_usage,
}
use amp_cucumber_cpp_runner.Formatter.Usage.Known.{AllKnown, IsDefined, populate_mapping_of_defined}
use amp_cucumber_cpp_runner.Formatter.Usage.Complete.{length-sort_by}

module _ {ℓ κ} {A : Type ℓ} {K : Type κ} (cmp : K → K → Ordering) (key : A → K)
    (before : A → A → Bool) (order : IsOrder cmp)
    (agrees : (a b : A) → before a b ≡ precedes (cmp (key a) (key b))) where
  All-insert_before {μ} :
      (Q : A → Type μ) (a : A) (items : List A)
      → Q a
      → All Q items
      → All Q (insert_before before a items)
  unfolding insert_before
  All-insert_before Q a [] q qs = (q, tt)
  All-insert_before Q a (b ∷ items) q (r, rs) = elim (Bool-cases (before b a)) [
    | inl later ↦ rw (later, insert_before) (r, All-insert_before Q a items q rs)
    | inr here ↦ rw (here, insert_before) (q, (r, rs))
  ]

  insert_before-IsSortedBy :
      (a : A) (items : List A)
      → IsSortedBy cmp key items
      → IsSortedBy cmp key (insert_before before a items)
  unfolding insert_before
  insert_before-IsSortedBy a [] h = (tt, tt)
  insert_before-IsSortedBy a (b ∷ items) (h, hs) = elim (Bool-cases (before b a)) [
    | inl later ↦
        rw (later, insert_before)
          (
            All-insert_before (λ c. cmp (key b) (key c) ≢ Ordering.gt) a items
                (at_most_of_before cmp key order (key b) (key a) (sym (agrees b a) ∙ later)) h,
            insert_before-IsSortedBy a items hs,
          )
    | inr here ↦
        let first : cmp (key a) (key b) ≢ Ordering.gt =
          at_most_of_not_before cmp key order (key a) (key b) (sym (agrees b a) ∙ here) in
        rw (here, insert_before)
          (
            (
              first,
              All-mono _ _ items
                  (λ c most. at_most_trans cmp key order (key a) (key b) (key c) first most) h,
            ),
            (h, hs),
          )
  ]

  sort_by-IsSortedBy : (items : List A) → IsSortedBy cmp key (sort_by before items)
  unfolding sort_by
  sort_by-IsSortedBy [] = tt
  sort_by-IsSortedBy (a ∷ items) =
      insert_before-IsSortedBy a (sort_by before items) (sort_by-IsSortedBy items)

-- By file and line
abbrev Place : Type 0
Place = String × ℕ

abbrev compare_places : Place → Place → Ordering
compare_places = by_parts compare compare_numbers

compare_places-IsOrder : IsOrder compare_places
compare_places-IsOrder = by_parts-IsOrder compare compare_numbers texts-IsOrder numbers-IsOrder

-- Whether a definition is unused, its mean, and its place
abbrev UsageKey : Type 0
UsageKey = ℕ × (ℕ × Place)

abbrev pub key_of_usage : Usage → UsageKey
key_of_usage usage =
    (if is_unused usage then 1 else 0, (mean_rank usage.mean_duration, (usage.uri, usage.line)))

-- The used ones first, then by decreasing mean, then by place
abbrev pub compare_usages : UsageKey → UsageKey → Ordering
compare_usages = by_parts compare_numbers (by_parts (descending compare_numbers) compare_places)

compare_usages-IsOrder : IsOrder compare_usages
compare_usages-IsOrder =
    by_parts-IsOrder _ _ numbers-IsOrder
      (by_parts-IsOrder _ _ (descending-IsOrder _ numbers-IsOrder) compare_places-IsOrder)

-- The duration of a match, its place, and its text
abbrev MatchKey : Type 0
MatchKey = ℕ × (Place × String)

abbrev pub key_of_match : UsageMatch → MatchKey
key_of_match used = (rank_of_duration used.duration, ((used.uri, used.line), used.text))

-- By decreasing duration, then by place, then by text
abbrev pub compare_matches : MatchKey → MatchKey → Ordering
compare_matches = by_parts (descending compare_numbers) (by_parts compare_places compare)

compare_matches-IsOrder : IsOrder compare_matches
compare_matches-IsOrder =
    by_parts-IsOrder _ _ (descending-IsOrder _ numbers-IsOrder)
      (by_parts-IsOrder _ _ compare_places-IsOrder texts-IsOrder)

usage_before-precedes :
    (a b : Usage) → usage_before a b ≡ precedes (compare_usages (key_of_usage a) (key_of_usage b))
usage_before-precedes a b = ground arith

match_before-precedes :
    (a b : UsageMatch)
    → match_before a b ≡ precedes (compare_matches (key_of_match a) (key_of_match b))
match_before-precedes a b = ground arith

key-with_sorted_matches :
    (usage : Usage) → key_of_usage (with_sorted_matches usage) ≡ key_of_usage usage
key-with_sorted_matches usage = rw (length-sort_by match_before usage.matches) refl

-- A report whose usages are sorted, and the matches of each
abbrev pub IsSortedReport : List Usage → Type 0
IsSortedReport usages =
    IsSortedBy compare_usages key_of_usage usages
    × All (λ usage. IsSortedBy compare_matches key_of_match usage.matches) usages

at_most_of_equal :
    (a a' b b' : UsageKey)
    → a' ≡ a
    → b' ≡ b
    → compare_usages a b ≢ Ordering.gt
    → compare_usages a' b' ≢ Ordering.gt
at_most_of_equal a a' b b' e f h = λ above. h (sym (λ i. compare_usages (e i) (f i)) ∙ above)

All-with_sorted_matches :
    (usage : Usage) (usages : List Usage)
    → All (λ u. compare_usages (key_of_usage usage) (key_of_usage u) ≢ Ordering.gt) usages
    → All
        (λ u.
          compare_usages (key_of_usage (with_sorted_matches usage)) (key_of_usage u) ≢ Ordering.gt)
        (map with_sorted_matches usages)
All-with_sorted_matches usage [] h = tt
All-with_sorted_matches usage (u ∷ usages) (h, hs) = (
  at_most_of_equal _ _ _ _ (key-with_sorted_matches usage) (key-with_sorted_matches u) h,
  All-with_sorted_matches usage usages hs,
)

with_sorted_matches-IsSortedReport :
    (usages : List Usage)
    → IsSortedBy compare_usages key_of_usage usages
    → IsSortedReport (map with_sorted_matches usages)
with_sorted_matches-IsSortedReport [] h = (tt, tt)
with_sorted_matches-IsSortedReport (usage ∷ usages) (h, hs) =
    let (sorted, matches) = with_sorted_matches-IsSortedReport usages hs in
    (
      (All-with_sorted_matches usage usages h, sorted),
      (
        sort_by-IsSortedBy compare_matches key_of_match match_before compare_matches-IsOrder
            match_before-precedes usage.matches,
        matches,
      ),
    )

-- Where the only definition of each step that has one alone is known, `GetUsage` returns a report
-- that lists the used definitions first, by decreasing mean duration, then the unused ones, those of
-- one mean by file and line; and the matches of each by decreasing duration, those of one duration by
-- file, line and text.
pub get_usage-IsSortedReport :
    (definitions : List KnownDefinition) (cases : List UsedCase) (unused_only : Bool)
    → AllKnown (IsDefined definitions) cases
    → (usages : List Usage) × (get_usage definitions cases unused_only ≡ ok usages)
      × IsSortedReport usages
unfolding get_usage
get_usage-IsSortedReport definitions cases unused_only known =
    let (mapping, filled) = populate_mapping_of_defined definitions cases known in
    let listed = keep_if (λ usage. not unused_only || is_unused usage) (finalize_mapping mapping) in
    (
      map with_sorted_matches (sort_by usage_before listed),
      rw (get_usage, filled) refl,
      with_sorted_matches-IsSortedReport (sort_by usage_before listed) (
          sort_by-IsSortedBy compare_usages key_of_usage usage_before compare_usages-IsOrder
            usage_before-precedes listed),
    )
