-- ===== src/Formatter/Registry/Outputs.antt =====
-- The files that the formatters write to: cucumber_cpp/library/api/Formatters.cpp.
use amp_cucumber_cpp_runner.Prelude.{
  ◌≡◌, ◌≢◌, sym, inl, inr, String, false, List, [], ◌∷◌, str_eq, All, AllDistinct, contains_text,
  contains_text-cons, Bool-cases,
}
use amp_cucumber_cpp_runner.World.{Result, ok, err}
use amp_cucumber_cpp_runner.Formatter.Registry.{
  FormatterOption, Formatters, formatter_option, open_output, enable_formatter, after_listener,
  enable_formatters,
}

contains_text-All :
    (path : String) (files : List String)
    → contains_text path files ≡ false
    → All (λ other. path ≢ other) files
contains_text-All path [] h = tt
contains_text-All path (f ∷ files) h =
    let (differs, rest) = (contains_text-cons path f files).0 h in
    ((λ same. differs (sym same)), contains_text-All path files rest)

module _ (Listener : Type 0) where
  open_output-AllDistinct :
      (path : String) (files : List String)
      → AllDistinct files
      → AllDistinct (open_output Listener path files)
  unfolding open_output
  open_output-AllDistinct path files h = elim (Bool-cases (contains_text path files)) [
    | inl there ↦ rw there h
    | inr missing ↦ rw missing (contains_text-All path files missing, h)
  ]

  module _ (absolute : String → String) where
    enable_formatter-AllDistinct :
        (option : FormatterOption) (f : Formatters Listener)
        → AllDistinct f.custom_output_files
        → AllDistinct (enable_formatter Listener absolute option f).1.custom_output_files
    unfolding enable_formatter
    enable_formatter-AllDistinct option f h = elim (Bool-cases (str_eq option.output "")) [
      | inl empty ↦ rw empty h
      | inr written ↦
          rw written (open_output-AllDistinct (absolute option.output) f.custom_output_files h)
    ]

    after_listener-AllDistinct :
        (made : Result Listener) (f : Formatters Listener)
        (later : Result (List Listener) × Formatters Listener)
        → AllDistinct f.custom_output_files
        → AllDistinct later.1.custom_output_files
        → AllDistinct (after_listener Listener absolute made f later).1.custom_output_files
    after_listener-AllDistinct (err e) f later h k = h
    after_listener-AllDistinct (ok l) f later h k = k

    -- No file is opened twice: when the open files have different absolute paths before, they have
    -- different absolute paths after `EnableFormatters`, whether it returns or throws.
    enable_formatters-AllDistinct :
        (names : List String) (f : Formatters Listener)
        → AllDistinct f.custom_output_files
        → AllDistinct (enable_formatters Listener absolute names f).1.custom_output_files
    unfolding enable_formatters
    enable_formatters-AllDistinct [] f h = h
    enable_formatters-AllDistinct (name ∷ names) f h =
        let next = enable_formatter-AllDistinct (formatter_option name) f h in
        after_listener-AllDistinct (enable_formatter Listener absolute (formatter_option name) f).0
          (enable_formatter Listener absolute (formatter_option name) f).1 _ next
          (enable_formatters-AllDistinct names _ next)
