-- ===== src/Formatter/Usage/Table.antt =====
-- The printed table of usages: cucumber_cpp/library/formatter/UsageFormatter.cpp and .hpp, with the
-- table's symbols of cucumber_cpp/library/formatter/helper/Theme.cpp and .hpp.
pub mod Aligned
use amp_cucumber_cpp_runner.Prelude.{
  ℕ, ◌-◌, ◌/◌, String, ◌<>◌, Bool, false, Option, none, some, List, [], ◌∷◌, ◌++◌, map, str_eq,
  if◌then◌else◌,
}
use amp_cucumber_cpp_runner.Messages.{Envelope, test_run_finished}
use amp_cucumber_cpp_runner.Platform.{Platform}
use amp_cucumber_cpp_runner.World.{Result, ok, err}
use amp_cucumber_cpp_runner.Formatter.Usage.{UsageMatch, Usage, KnownDefinition, UsedCase}
use amp_cucumber_cpp_runner.Formatter.Usage.Report.{is_unused, get_usage}
use amp_cucumber_cpp_runner.Formatter.Usage.Columns.{
  ColumnWidths, format_location, format_duration, calculate_column_widths,
}

-- fmt's padding on the right with a given text, `{:c<w}`, and a path relative to the source
-- directory
pub record Printer : Type 0 where
  pub pad : (fill : String) → (width : ℕ) → String → String
  pub relative : String → String

-- `Theme::table`
pub record TableSymbols : Type 0 where
  pub corner_top_left : String
  pub corner_top_right : String
  pub corner_bottom_left : String
  pub corner_bottom_right : String
  pub edge_top_t : String
  pub edge_bottom_t : String
  pub edge_left_t : String
  pub edge_right_t : String
  pub dash : String
  pub vertical : String
  pub cross : String

-- The defaults, which `CreateEmptyTheme` and `CreatePlainTheme` keep
abbrev pub plain_table : TableSymbols
plain_table = record {
  corner_top_left = "|";
  corner_top_right = "|";
  corner_bottom_left = "|";
  corner_bottom_right = "|";
  edge_top_t = "|";
  edge_bottom_t = "|";
  edge_left_t = "|";
  edge_right_t = "|";
  dash = "-";
  vertical = "|";
  cross = "+";
}

-- Those of `CreateCucumberTheme`
abbrev pub cucumber_table : TableSymbols
cucumber_table = record {
  corner_top_left = "┌";
  corner_top_right = "┐";
  corner_bottom_left = "└";
  corner_bottom_right = "┘";
  edge_top_t = "┬";
  edge_bottom_t = "┴";
  edge_left_t = "├";
  edge_right_t = "┤";
  dash = "─";
  vertical = "│";
  cross = "┼";
}

-- `CreateTheme`, of which the table is used
abbrev pub create_theme_table : String → TableSymbols
create_theme_table name = if str_eq name "cucumber" then cucumber_table else plain_table

-- `UsageFormatter::Options`, of the values of `unused_only` and `theme`, if given
pub record UsageOptions : Type 0 where
  pub unused_only : Bool
  pub theme : TableSymbols

abbrev pub usage_options : Option Bool → Option String → UsageOptions
usage_options unused_only theme = record {
  unused_only = elim unused_only [ none ↦ false | some b ↦ b ];
  theme = create_theme_table (elim theme [ none ↦ "cucumber" | some name ↦ name ]);
}

module _ (P : Platform) (F : Printer) (symbols : TableSymbols) where
  -- `FormatLocation` relative to the source directory
  abbrev pub format_relative_location : String → ℕ → String
  format_relative_location uri line = F.relative uri <> ":" <> P.to_decimal line

  -- `FormatDuration` of a match
  abbrev pub format_match_duration : Option ℕ → String
  format_match_duration none = "-"
  format_match_duration (some n) = P.to_decimal (n / 1_000_000)

  -- `rowFormat` with its four symbols, printed with empty cells
  unfoldable pub rule_row : String → String → String → ColumnWidths → String
  rule_row left middle right widths =
      left
      <> symbols.dash
      <> F.pad symbols.dash widths.pattern ""
      <> symbols.dash
      <> middle
      <> symbols.dash
      <> F.pad symbols.dash widths.duration ""
      <> symbols.dash
      <> middle
      <> symbols.dash
      <> F.pad symbols.dash widths.location ""
      <> symbols.dash
      <> right

  -- `topRow`, `middleRow` and `bottomRow`
  abbrev pub top_row : ColumnWidths → String
  top_row = rule_row symbols.corner_top_left symbols.edge_top_t symbols.corner_top_right

  abbrev pub middle_row : ColumnWidths → String
  middle_row = rule_row symbols.edge_left_t symbols.cross symbols.edge_right_t

  abbrev pub bottom_row : ColumnWidths → String
  bottom_row = rule_row symbols.corner_bottom_left symbols.edge_bottom_t symbols.corner_bottom_right

  -- What stands behind the first cell
  unfoldable pub other_cells : ColumnWidths → String → String → String
  other_cells widths second third =
      " "
      <> symbols.vertical
      <> " "
      <> F.pad " " widths.duration second
      <> " "
      <> symbols.vertical
      <> " "
      <> F.pad " " widths.location third
      <> " "
      <> symbols.vertical

  -- `PrintRow`
  unfoldable pub print_row : ColumnWidths → String → String → String → String
  unfolding other_cells
  print_row widths first second third =
      symbols.vertical <> " " <> F.pad " " widths.pattern first <> other_cells widths second third

  -- `PrintTableHeader`
  abbrev pub print_table_header : ColumnWidths → List String
  print_table_header widths =
      top_row widths ∷ print_row widths "Pattern / Text" "Duration" "Location" ∷ []

  -- `PrintUsagePattern`
  abbrev pub print_usage_pattern : ColumnWidths → Usage → String
  print_usage_pattern widths usage =
      print_row widths usage.pattern
        (if is_unused usage then "UNUSED" else format_duration P usage.mean_duration)
        (format_relative_location usage.uri usage.line)

  -- `PrintUsageMatch`
  unfoldable pub print_usage_match : ColumnWidths → UsageMatch → String
  unfolding other_cells
  print_usage_match widths used =
      symbols.vertical
      <> "   "
      <> F.pad " " (widths.pattern - 2) used.text
      <> other_cells widths (format_match_duration used.duration)
          (format_location P used.uri used.line)

  -- `PrintUsageWithMatches`
  abbrev pub print_usage_with_matches : ColumnWidths → String → Usage → List String
  print_usage_with_matches widths divider usage =
      divider ∷ print_usage_pattern widths usage ∷ map (print_usage_match widths) usage.matches

  unfoldable pub print_usages : ColumnWidths → String → List Usage → List String
  print_usages widths divider [] = []
  print_usages widths divider (usage ∷ usages) =
      print_usage_with_matches widths divider usage ++ print_usages widths divider usages

  -- `PrintUsageTable`: the printed lines
  unfoldable pub print_usage_table : List Usage → List String
  unfolding print_usages
  print_usage_table usages =
      let widths = calculate_column_widths P usages in
      print_table_header widths
      ++ print_usages widths (middle_row widths) usages
      ++ (bottom_row widths ∷ [])

-- `UsageFormatter::OnEnvelope`, with what the query answers at that time
abbrev pub on_envelope :
    Platform
    → Printer
    → UsageOptions
    → List KnownDefinition
    → List UsedCase
    → Envelope
    → Result (List String)
on_envelope P F options definitions cases (test_run_finished id success) =
    elim (get_usage definitions cases options.unused_only) [
      | ok usages ↦ ok (print_usage_table P F options.theme usages)
      | err e ↦ err e
    ]
on_envelope P F options definitions cases _ = ok []
