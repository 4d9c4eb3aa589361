-- ===== src/Formatter/Usage/Table/Aligned.antt =====
-- All lines of the table have the same width.
use Prim.Native.String.{len}
use amp_cucumber_cpp_runner.Prelude.{
  ℕ, ◌+◌, ◌-◌, ◌≤◌, ◌≡◌, String, ◌<>◌, List, [], ◌∷◌, All, All-append, map, arith, true, false,
  if◌then◌else◌, ◌∙◌, ap,
}
use amp_cucumber_cpp_runner.Platform.{Platform}
use amp_cucumber_cpp_runner.Formatter.Usage.{UsageMatch, Usage}
use amp_cucumber_cpp_runner.Formatter.Usage.Report.{is_unused}
use amp_cucumber_cpp_runner.Formatter.Usage.Columns.{
  ColumnWidths, larger, format_location, format_duration, calculate_column_widths,
}
use amp_cucumber_cpp_runner.Formatter.Usage.Widths.{
  MatchFits, UsageFits, calculate_column_widths-UsageFits, calculate_column_widths-IsWider,
}
use amp_cucumber_cpp_runner.Formatter.Usage.Table.{
  Printer, TableSymbols, format_relative_location, format_match_duration, rule_row, middle_row,
  bottom_row, other_cells, print_row, print_usage_pattern, print_usage_match, print_usages,
  print_usage_table,
}

-- What fmt counts as the width of a text: the sum of its characters' widths, of which none is
-- larger than the character's bytes; and what it pads.
pub record IsPrinter (F : Printer) (chars : String → ℕ) : Type 0 where
  pub chars-append : (a b : String) → chars (a <> b) ≡ chars a + chars b
  pub chars-≤-len : (a : String) → chars a ≤ len a
  pub chars-blank : chars " " ≡ 1
  pub chars-pad :
      (fill : String) (width : ℕ) (a : String)
      → chars fill ≡ 1
      → chars (F.pad fill width a) ≡ larger width (chars a)

-- Each symbol of the table is one wide.
abbrev pub AreOneWide : TableSymbols → (String → ℕ) → Type 0
AreOneWide symbols chars =
    All (λ symbol. chars symbol ≡ 1)
      (symbols.corner_top_left ∷ symbols.corner_top_right ∷ symbols.corner_bottom_left
        ∷ symbols.corner_bottom_right ∷ symbols.edge_top_t ∷ symbols.edge_bottom_t
        ∷ symbols.edge_left_t ∷ symbols.edge_right_t ∷ symbols.dash ∷ symbols.vertical
        ∷ symbols.cross ∷ [])

-- The width of each line
abbrev pub line_width : ColumnWidths → ℕ
line_width widths = widths.pattern + widths.duration + widths.location + 10

-- The cells that the widths are not measured for: the relative location and the durations of
-- matches
abbrev pub CellsFit :
    Platform → Printer → (String → ℕ) → TableSymbols → ColumnWidths → Usage → Type 0
CellsFit P F chars symbols widths usage =
    (chars (format_relative_location P F symbols usage.uri usage.line) ≤ widths.location)
    × All (λ used. chars (format_match_duration P F symbols used.duration) ≤ widths.duration)
        usage.matches

module _ (P : Platform) (F : Printer) (chars : String → ℕ) (laws : IsPrinter F chars)
    (symbols : TableSymbols) (dash : chars symbols.dash ≡ 1)
    (vertical : chars symbols.vertical ≡ 1) where
  chars-pad_fits :
      (fill : String) (width : ℕ) (a : String)
      → chars fill ≡ 1
      → chars a ≤ width
      → chars (F.pad fill width a) ≡ width
  chars-pad_fits fill width a one fits = laws.chars-pad fill width a one ∙ ground arith

  chars-other_cells :
      (widths : ColumnWidths) (second third : String)
      → chars second ≤ widths.duration
      → chars third ≤ widths.location
      → chars (other_cells P F symbols widths second third) ≡ widths.duration + widths.location + 8
  unfolding other_cells
  chars-other_cells widths second third d l =
      let e = chars-pad_fits " " widths.duration second laws.chars-blank d in
      let f = chars-pad_fits " " widths.location third laws.chars-blank l in
      simp (laws.chars-append) (omega (arith, vertical, laws.chars-blank, e, f))

  chars-print_row :
      (widths : ColumnWidths) (first second third : String)
      → chars first ≤ widths.pattern
      → chars second ≤ widths.duration
      → chars third ≤ widths.location
      → chars (print_row P F symbols widths first second third) ≡ line_width widths
  unfolding print_row
  chars-print_row widths first second third p d l =
      let e = chars-pad_fits " " widths.pattern first laws.chars-blank p in
      let f = chars-other_cells widths second third d l in
      simp (laws.chars-append) (omega (arith, vertical, laws.chars-blank, e, f))

  chars-empty : (width : ℕ) → chars "" ≤ width
  chars-empty width = omega (arith, laws.chars-≤-len "")

  chars-rule_row :
      (left middle right : String) (widths : ColumnWidths)
      → chars left ≡ 1
      → chars middle ≡ 1
      → chars right ≡ 1
      → chars (rule_row P F symbols left middle right widths) ≡ line_width widths
  unfolding rule_row
  chars-rule_row left middle right widths l m r =
      let a = chars-pad_fits symbols.dash widths.pattern "" dash (chars-empty widths.pattern) in
      let b = chars-pad_fits symbols.dash widths.duration "" dash (chars-empty widths.duration) in
      let c = chars-pad_fits symbols.dash widths.location "" dash (chars-empty widths.location) in
      simp (laws.chars-append) (omega (arith, dash, l, m, r, a, b, c))

  chars-print_usage_match :
      (widths : ColumnWidths) (used : UsageMatch)
      → 2 ≤ widths.pattern
      → MatchFits P widths used
      → chars (format_match_duration P F symbols used.duration) ≤ widths.duration
      → chars (print_usage_match P F symbols widths used) ≡ line_width widths
  unfolding print_usage_match
  chars-print_usage_match widths used two (text, location) d =
      let e =
        chars-pad_fits " " (widths.pattern - 2) used.text laws.chars-blank
          (omega (arith, text, laws.chars-≤-len used.text)) in
      let f =
        chars-other_cells widths (format_match_duration P F symbols used.duration)
          (format_location P used.uri used.line) d
          (omega (arith, location, laws.chars-≤-len (format_location P used.uri used.line))) in
      let three =
        laws.chars-append " " "  " ∙ ap (λ n. chars " " + n) (laws.chars-append " " " ") in
      simp (laws.chars-append) (omega (arith, vertical, laws.chars-blank, three, e, f))

  abbrev IsLine : ColumnWidths → String → Type 0
  IsLine widths line = chars line ≡ line_width widths

  chars-print_usage_pattern :
      (widths : ColumnWidths) (usage : Usage)
      → 8 ≤ widths.duration
      → UsageFits P widths usage
      → CellsFit P F chars symbols widths usage
      → IsLine widths (print_usage_pattern P F symbols widths usage)
  chars-print_usage_pattern widths usage eight (pattern, duration, location, matches)
        (relative, _) =
      chars-print_row widths usage.pattern
        (if is_unused usage then "UNUSED" else format_duration P usage.mean_duration)
        (format_relative_location P F symbols usage.uri usage.line)
        (omega (arith, pattern, laws.chars-≤-len usage.pattern))
        (elim (is_unused usage)
          as (λ b.
            chars (if b then "UNUSED" else format_duration P usage.mean_duration)
            ≤ widths.duration) [
              | true ↦ omega (arith, eight, laws.chars-≤-len "UNUSED")
              | false ↦
                  omega (arith, duration, laws.chars-≤-len (format_duration P usage.mean_duration))
            ])
        relative

  print_usage_matches-IsLine :
      (widths : ColumnWidths) (matches : List UsageMatch)
      → 2 ≤ widths.pattern
      → All (MatchFits P widths) matches
      → All
          (λ used. chars (format_match_duration P F symbols used.duration) ≤ widths.duration)
          matches
      → All (IsLine widths) (map (print_usage_match P F symbols widths) matches)
  print_usage_matches-IsLine widths [] two fits durations = tt
  print_usage_matches-IsLine widths (used ∷ matches) two (fit, fits) (d, durations) = (
    chars-print_usage_match widths used two fit d,
    print_usage_matches-IsLine widths matches two fits durations,
  )

  print_usages-IsLine :
      (widths : ColumnWidths) (divider : String) (usages : List Usage)
      → (2 ≤ widths.pattern) × (8 ≤ widths.duration)
      → IsLine widths divider
      → All (UsageFits P widths) usages
      → All (CellsFit P F chars symbols widths) usages
      → All (IsLine widths) (print_usages P F symbols widths divider usages)
  unfolding print_usages
  print_usages-IsLine widths divider [] wide line fits cells = tt
  print_usages-IsLine widths divider (usage ∷ usages) (two, eight) line (fit, fits) (cell, cells) =
      (
        line,
        (
          chars-print_usage_pattern widths usage eight fit cell,
          All-append (IsLine widths) (map (print_usage_match P F symbols widths) usage.matches)
              (print_usages P F symbols widths divider usages)
              (print_usage_matches-IsLine widths usage.matches two fit.3 cell.1)
              (print_usages-IsLine widths divider usages (two, eight) line fits cells),
        ),
      )

-- Where fmt pads texts to their widths, each symbol of the table's theme is one wide, and the
-- relative locations and the durations of matches are no wider than the columns of the locations and
-- of the durations, all lines that PrintUsageTable prints have one width: that of the three columns
-- and ten characters more.
pub print_usage_table-IsAligned :
    (P : Platform) (F : Printer) (chars : String → ℕ) (symbols : TableSymbols) (usages : List Usage)
    → IsPrinter F chars
    → AreOneWide symbols chars
    → All (CellsFit P F chars symbols (calculate_column_widths P usages)) usages
    → All
        (λ line. chars line ≡ line_width (calculate_column_widths P usages))
        (print_usage_table P F symbols usages)
unfolding print_usage_table
print_usage_table-IsAligned P F chars symbols usages laws
      (ctl, (ctr, (cbl, (cbr, (ett, (ebt, (elt, (ert, (dash, (vertical, (cross, _))))))))))) cells =
    let widths = calculate_column_widths P usages in
    let (p, d, l) = calculate_column_widths-IsWider P usages in
    let rule = chars-rule_row P F chars laws symbols dash vertical in
    (
      rule symbols.corner_top_left symbols.edge_top_t symbols.corner_top_right widths ctl ett ctr,
      (
        chars-print_row P F chars laws symbols dash vertical widths "Pattern / Text" "Duration"
            "Location" (omega (arith, p, laws.chars-≤-len "Pattern / Text"))
            (omega (arith, d, laws.chars-≤-len "Duration"))
            (omega (arith, l, laws.chars-≤-len "Location")),
        All-append (λ line. chars line ≡ line_width widths)
            (print_usages P F symbols widths (middle_row P F symbols widths) usages)
            (bottom_row P F symbols widths ∷ [])
            (print_usages-IsLine P F chars laws symbols dash vertical widths
              (middle_row P F symbols widths) usages (omega (arith, p), d)
              (rule symbols.edge_left_t symbols.cross symbols.edge_right_t widths elt cross ert)
              (calculate_column_widths-UsageFits P usages) cells)
            (
              rule symbols.corner_bottom_left symbols.edge_bottom_t symbols.corner_bottom_right
                  widths cbl ebt cbr,
              tt,
            ),
      ),
    )
