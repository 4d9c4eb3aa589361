-- ===== src/Formatter/Usage/Widths.antt =====
-- The columns are wide enough.
use Prim.Native.String.{len}
use amp_cucumber_cpp_runner.Prelude.{ℕ, ◌+◌, ◌≤◌, List, [], ◌∷◌, All, All-mono, arith}
use amp_cucumber_cpp_runner.Platform.{Platform}
use amp_cucumber_cpp_runner.Formatter.Usage.{UsageMatch, Usage}
use amp_cucumber_cpp_runner.Formatter.Usage.Columns.{
  ColumnWidths, larger, format_location, format_duration, widen_by_matches, widen_by_usage,
  widen_by_usages, calculate_column_widths,
}

module _ (P : Platform) where
  -- Columns that are no narrower
  abbrev IsWider : ColumnWidths → ColumnWidths → Type 0
  IsWider old new =
      (old.pattern ≤ new.pattern) × (old.duration ≤ new.duration) × (old.location ≤ new.location)

  abbrev pub MatchFits : ColumnWidths → UsageMatch → Type 0
  MatchFits widths used =
      (len used.text + 2 ≤ widths.pattern)
      × (len (format_location P used.uri used.line) ≤ widths.location)

  abbrev pub UsageFits : ColumnWidths → Usage → Type 0
  UsageFits widths usage =
      (len usage.pattern ≤ widths.pattern)
      × (len (format_duration P usage.mean_duration) ≤ widths.duration)
      × (len (format_location P usage.uri usage.line) ≤ widths.location)
      × All (MatchFits widths) usage.matches

  larger-both : (a b : ℕ) → (a ≤ larger a b) × (b ≤ larger a b)
  larger-both a b = (ground arith, ground arith)

  widen_by_matches-IsWider :
      (matches : List UsageMatch) (widths : ColumnWidths)
      → IsWider widths (widen_by_matches P matches widths)
  unfolding widen_by_matches
  widen_by_matches-IsWider [] widths = (omega arith, omega arith, omega arith)
  widen_by_matches-IsWider (used ∷ matches) widths =
      let (p, d, l) = widen_by_matches-IsWider matches (record widths {
        pattern = larger widths.pattern (len used.text + 2);
        location = larger widths.location (len (format_location P used.uri used.line));
      }) in
      let (p0, p1) = larger-both widths.pattern (len used.text + 2) in
      let (l0, l1) = larger-both widths.location (len (format_location P used.uri used.line)) in
      (omega (arith, p, p0), omega (arith, d), omega (arith, l, l0))

  widen_by_matches-MatchFits :
      (matches : List UsageMatch) (widths : ColumnWidths)
      → All (MatchFits (widen_by_matches P matches widths)) matches
  unfolding widen_by_matches
  widen_by_matches-MatchFits [] widths = tt
  widen_by_matches-MatchFits (used ∷ matches) widths =
      let next = record widths {
        pattern = larger widths.pattern (len used.text + 2);
        location = larger widths.location (len (format_location P used.uri used.line));
      } in
      let (p, d, l) = widen_by_matches-IsWider matches next in
      let (p0, p1) = larger-both widths.pattern (len used.text + 2) in
      let (l0, l1) = larger-both widths.location (len (format_location P used.uri used.line)) in
      ((omega (arith, p, p1), omega (arith, l, l1)), widen_by_matches-MatchFits matches next)

  MatchFits-wider :
      (old new : ColumnWidths)
      → IsWider old new
      → (used : UsageMatch) → MatchFits old used
      → MatchFits new used
  MatchFits-wider old new (p, d, l) used (text, location) =
      (omega (arith, p, text), omega (arith, l, location))

  UsageFits-wider :
      (old new : ColumnWidths)
      → IsWider old new
      → (usage : Usage) → UsageFits old usage
      → UsageFits new usage
  UsageFits-wider old new (p, d, l) usage (pattern, duration, location, matches) = (
    omega (arith, p, pattern),
    omega (arith, d, duration),
    omega (arith, l, location),
    All-mono _ _ usage.matches (MatchFits-wider old new (p, d, l)) matches,
  )

  widen_by_usage-IsWider :
      (usage : Usage) (widths : ColumnWidths)
      → IsWider widths (widen_by_matches P usage.matches (widen_by_usage P usage widths))
  widen_by_usage-IsWider usage widths =
      let (p, d, l) = widen_by_matches-IsWider usage.matches (widen_by_usage P usage widths) in
      let (p0, p1) = larger-both widths.pattern (len usage.pattern) in
      let (d0, d1) = larger-both widths.duration (len (format_duration P usage.mean_duration)) in
      let (l0, l1) = larger-both widths.location (len (format_location P usage.uri usage.line)) in
      (omega (arith, p, p0), omega (arith, d, d0), omega (arith, l, l0))

  widen_by_usage-UsageFits :
      (usage : Usage) (widths : ColumnWidths)
      → UsageFits (widen_by_matches P usage.matches (widen_by_usage P usage widths)) usage
  widen_by_usage-UsageFits usage widths =
      let (p, d, l) = widen_by_matches-IsWider usage.matches (widen_by_usage P usage widths) in
      let (p0, p1) = larger-both widths.pattern (len usage.pattern) in
      let (d0, d1) = larger-both widths.duration (len (format_duration P usage.mean_duration)) in
      let (l0, l1) = larger-both widths.location (len (format_location P usage.uri usage.line)) in
      (
        omega (arith, p, p1),
        omega (arith, d, d1),
        omega (arith, l, l1),
        widen_by_matches-MatchFits usage.matches (widen_by_usage P usage widths),
      )

  widen_by_usages-IsWider :
      (usages : List Usage) (widths : ColumnWidths)
      → IsWider widths (widen_by_usages P usages widths)
  unfolding widen_by_usages
  widen_by_usages-IsWider [] widths = (omega arith, omega arith, omega arith)
  widen_by_usages-IsWider (usage ∷ usages) widths =
      let next = widen_by_matches P usage.matches (widen_by_usage P usage widths) in
      let (p, d, l) = widen_by_usages-IsWider usages next in
      let (p0, d0, l0) = widen_by_usage-IsWider usage widths in
      (omega (arith, p, p0), omega (arith, d, d0), omega (arith, l, l0))

  widen_by_usages-UsageFits :
      (usages : List Usage) (widths : ColumnWidths)
      → All (UsageFits (widen_by_usages P usages widths)) usages
  unfolding widen_by_usages
  widen_by_usages-UsageFits [] widths = tt
  widen_by_usages-UsageFits (usage ∷ usages) widths =
      let next = widen_by_matches P usage.matches (widen_by_usage P usage widths) in
      (
        UsageFits-wider next (widen_by_usages P usages next) (widen_by_usages-IsWider usages next)
            usage (widen_by_usage-UsageFits usage widths),
        widen_by_usages-UsageFits usages next,
      )

  -- Every pattern, indented text, mean duration and location of the usages is no longer than the
  -- width of its column.
  pub calculate_column_widths-UsageFits :
      (usages : List Usage) → All (UsageFits (calculate_column_widths P usages)) usages
  unfolding calculate_column_widths
  calculate_column_widths-UsageFits usages =
      widen_by_usages-UsageFits usages (record { pattern = 14; duration = 8; location = 8 })

  -- The widths are those of the titles at least.
  pub calculate_column_widths-IsWider :
      (usages : List Usage)
      → let widths = calculate_column_widths P usages in
        (14 ≤ widths.pattern) × (8 ≤ widths.duration) × (8 ≤ widths.location)
  unfolding calculate_column_widths
  calculate_column_widths-IsWider usages =
      widen_by_usages-IsWider usages (record { pattern = 14; duration = 8; location = 8 })
