-- ===== src/Tests/UsageTable.antt =====
-- The usage table at a small input: cucumber_cpp/library/formatter/UsageFormatter.cpp.
use Prim.Native.String.{len}
use text.Mathlib.TextPositions.{len-append}
use amp_cucumber_cpp_runner.Prelude.{ℕ, zero, suc, ◌-◌, ◌≡◌, String, ◌<>◌, All, refl, arith}
use amp_cucumber_cpp_runner.Formatter.Usage.Columns.{
  larger, widen_by_matches, widen_by_usages, calculate_column_widths,
}
use amp_cucumber_cpp_runner.Formatter.Usage.Table.{Printer, plain_table, print_usage_table}
use amp_cucumber_cpp_runner.Formatter.Usage.Table.Aligned.{
  IsPrinter, CellsFit, line_width, print_usage_table-IsAligned,
}
use amp_cucumber_cpp_runner.Tests.Formatter.{usages}
use amp_cucumber_cpp_runner.Tests.Sample.{plain}

-- A printer of ASCII texts
abbrev repeat : ℕ → String → String
repeat zero fill = ""
repeat (suc n) fill = fill <> repeat n fill

abbrev printer : Printer
printer = record { pad = λ fill width a. a <> repeat (width - len a) fill; relative = λ path. path }

len-repeat : (n : ℕ) (fill : String) → len fill ≡ 1 → len (repeat n fill) ≡ n
len-repeat zero fill one = refl
len-repeat (suc n) fill one =
    omega (arith, len-append fill (repeat n fill), one, len-repeat n fill one)

len-pad :
    (fill : String) (width : ℕ) (a : String)
    → len fill ≡ 1
    → len (a <> repeat (width - len a) fill) ≡ larger width (len a)
len-pad fill width a one =
    let e = len-append a (repeat (width - len a) fill) in
    let f = len-repeat (width - len a) fill one in ground (arith, e, f)

abbrev printer_laws : IsPrinter printer len
printer_laws = record {
  chars-append = len-append;
  chars-≤-len = λ a. omega arith;
  chars-blank = refl;
  chars-pad = len-pad;
}

usages-CellsFit :
    All (CellsFit plain printer len plain_table (calculate_column_widths plain usages)) usages
unfolding calculate_column_widths widen_by_usages widen_by_matches
usages-CellsFit = ((omega arith, (omega arith, (omega arith, (omega arith, tt)))), tt)

print_usage_table-IsAligned_example :
    All
      (λ line. len line ≡ line_width (calculate_column_widths plain usages))
      (print_usage_table plain printer plain_table usages)
print_usage_table-IsAligned_example =
    print_usage_table-IsAligned plain printer len plain_table usages printer_laws
      (refl, (refl, (refl, (refl, (refl, (refl, (refl, (refl, (refl, (refl, (refl, tt)))))))))))
      usages-CellsFit
