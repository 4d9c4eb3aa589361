-- ===== src/Formatter/Usage/Columns.antt =====
-- The widths of the columns of the usage table
-- (cucumber_cpp/library/formatter/UsageFormatter.cpp).
use Prim.Native.String.{len}
use amp_cucumber_cpp_runner.Prelude.{ℕ, ◌+◌, ◌/◌, String, ◌<>◌, List, [], ◌∷◌, ltb, if◌then◌else◌}
use amp_cucumber_cpp_runner.Platform.{Platform}
use amp_cucumber_cpp_runner.Formatter.Usage.{
  UsageMatch, Usage, MeanDuration, minus_one, no_duration, nanoseconds,
}

pub record ColumnWidths : Type 0 where
  pub pattern : ℕ
  pub duration : ℕ
  pub location : ℕ

abbrev pub larger : ℕ → ℕ → ℕ
larger a b = if ltb a b then b else a

module _ (P : Platform) where
  -- `FormatLocation`
  abbrev pub format_location : String → ℕ → String
  format_location uri line = uri <> ":" <> P.to_decimal line

  -- `FormatDuration`, of which -1 nanoseconds are no milliseconds
  abbrev pub format_duration : MeanDuration → String
  format_duration no_duration = "-"
  format_duration minus_one = P.to_decimal 0
  format_duration (nanoseconds n) = P.to_decimal (n / 1_000_000)

  -- The two loops of `CalculateColumnWidths`
  unfoldable pub widen_by_matches : List UsageMatch → ColumnWidths → ColumnWidths
  widen_by_matches [] widths = widths
  widen_by_matches (used ∷ matches) widths = widen_by_matches matches (record widths {
    pattern = larger widths.pattern (len used.text + 2);
    location = larger widths.location (len (format_location used.uri used.line));
  })

  abbrev pub widen_by_usage : Usage → ColumnWidths → ColumnWidths
  widen_by_usage usage widths = record {
    pattern = larger widths.pattern (len usage.pattern);
    location = larger widths.location (len (format_location usage.uri usage.line));
    duration = larger widths.duration (len (format_duration usage.mean_duration));
  }

  unfoldable pub widen_by_usages : List Usage → ColumnWidths → ColumnWidths
  unfolding widen_by_matches
  widen_by_usages [] widths = widths
  widen_by_usages (usage ∷ usages) widths =
      widen_by_usages usages (widen_by_matches usage.matches (widen_by_usage usage widths))

  -- `CalculateColumnWidths`
  unfoldable pub calculate_column_widths : List Usage → ColumnWidths
  unfolding widen_by_usages
  calculate_column_widths usages =
      widen_by_usages usages (record { pattern = 14; duration = 8; location = 8 })
