-- ===== src/Api/TestNames/Trimming.antt =====
-- What is left of a name after `SanitizeName`.
use Prim.Native.Char.{Char, code}
use amp_cucumber_cpp_runner.Prelude.{
  ℕ, ◌≡◌, ◌≢◌, refl, sym, ◌∙◌, ◌⊎◌, false, eq_iff, String, ◌==◌, str_eq, Bool-cases, inl, inr,
  arith,
}
use amp_cucumber_cpp_runner.Api.TestNames.{
  is_whitespace, trim_start, trim_end, trim, replace, sanitize_name,
}

abbrev pub AllCodes : (ℕ → Type 0) → String → Type 0
AllCodes Q String.[] = Unit
AllCodes Q (String.◌∷◌ c s) = Q (code c) × AllCodes Q s

AllCodes-replace :
    (Q R : ℕ → Type 0) (old : ℕ) (new : Char) (s : String)
    → ((c : ℕ) → Q c → c ≢ old → R c)
    → R (code new)
    → AllCodes Q s
    → AllCodes R (replace old new s)
unfolding replace
AllCodes-replace Q R old new String.[] keep at_new h = tt
AllCodes-replace Q R old new (String.◌∷◌ c s) keep at_new (h, hs) = (
  elim (Bool-cases (code c == old)) [
    | inl same ↦ rw same at_new
    | inr other ↦ rw other (keep (code c) h (ground (arith, other)))
  ],
  AllCodes-replace Q R old new s keep at_new hs,
)

AllCodes-trim_start : (Q : ℕ → Type 0) (s : String) → AllCodes Q s → AllCodes Q (trim_start s)
unfolding trim_start
AllCodes-trim_start Q String.[] h = tt
AllCodes-trim_start Q (String.◌∷◌ c s) (h, hs) = elim (Bool-cases (is_whitespace c)) [
  | inl blank ↦ rw blank (AllCodes-trim_start Q s hs)
  | inr mark ↦ rw mark (h, hs)
]

AllCodes-trim_end : (Q : ℕ → Type 0) (s : String) → AllCodes Q s → AllCodes Q (trim_end s)
unfolding trim_end
AllCodes-trim_end Q String.[] h = tt
AllCodes-trim_end Q (String.◌∷◌ c s) (h, hs) =
    let rest = AllCodes-trim_end Q s hs in
    elim (Bool-cases (is_whitespace c)) [
      | inr mark ↦ rw mark (h, rest)
      | inl blank ↦ elim (Bool-cases (str_eq (trim_end s) "")) [
        | inl nothing ↦ rw (blank, nothing) tt
        | inr something ↦ rw (blank, something) (h, rest)
      ]
    ]

AllCodes-trim : (Q : ℕ → Type 0) (s : String) → AllCodes Q s → AllCodes Q (trim s)
unfolding trim
AllCodes-trim Q s h = AllCodes-trim_end Q (trim_start s) (AllCodes-trim_start Q s h)

AllCodes-all : (s : String) → AllCodes (λ c. Unit) s
AllCodes-all String.[] = tt
AllCodes-all (String.◌∷◌ c s) = (tt, AllCodes-all s)

abbrev LineFree : ℕ → Type 0
LineFree c = c ≢ b'\n'

abbrev BreakFree : ℕ → Type 0
BreakFree c = (c ≢ b'\n') × (c ≢ b'\r')

abbrev TabFree : ℕ → Type 0
TabFree c = (c ≢ b'\n') × (c ≢ b'\r') × (c ≢ b'\t')

-- None of the characters that the lists of test names give a meaning to
abbrev pub IsPlain : ℕ → Type 0
IsPlain c = (c ≢ b'\n') × (c ≢ b'\r') × (c ≢ b'\t') × (c ≢ b';')

-- A space, a tab or a line break, and texts that do not begin, or do not end, with one
abbrev IsBlank : ℕ → Type 0
IsBlank c = (c ≡ b' ') ⊎ (c ≡ b'\t') ⊎ (c ≡ b'\n') ⊎ (c ≡ b'\r')

abbrev pub StartsFilled : String → Type 0
StartsFilled String.[] = Unit
StartsFilled (String.◌∷◌ c s) = ¬ IsBlank (code c)

abbrev pub EndsFilled : String → Type 0
EndsFilled String.[] = Unit
EndsFilled (String.◌∷◌ c String.[]) = ¬ IsBlank (code c)
EndsFilled (String.◌∷◌ c (String.◌∷◌ d s)) = EndsFilled (String.◌∷◌ d s)

is_whitespace-IsBlank : (c : Char) → is_whitespace c ≡ false → ¬ IsBlank (code c)
is_whitespace-IsBlank c h b = ground (arith, h, b)

trim_start-StartsFilled : (s : String) → StartsFilled (trim_start s)
unfolding trim_start
trim_start-StartsFilled String.[] = tt
trim_start-StartsFilled (String.◌∷◌ c s) = elim (Bool-cases (is_whitespace c)) [
  | inl blank ↦ rw blank (trim_start-StartsFilled s)
  | inr mark ↦ rw mark (is_whitespace-IsBlank c mark)
]

-- The start stays, whatever is trimmed at the end.
trim_end-StartsFilled : (s : String) → StartsFilled s → StartsFilled (trim_end s)
unfolding trim_end
trim_end-StartsFilled String.[] h = tt
trim_end-StartsFilled (String.◌∷◌ c s) h = elim (Bool-cases (is_whitespace c)) [
  | inr mark ↦ rw mark h
  | inl blank ↦ elim (Bool-cases (str_eq (trim_end s) "")) [
    | inl nothing ↦ rw (blank, nothing) tt
    | inr something ↦ rw (blank, something) h
  ]
]

EndsFilled-cons :
    (c : Char) (s : String)
    → (s ≡ "" → ¬ IsBlank (code c))
    → EndsFilled s
    → EndsFilled (String.◌∷◌ c s)
EndsFilled-cons c String.[] alone h = alone refl
EndsFilled-cons c (String.◌∷◌ d s) alone h = h

trim_end-EndsFilled : (s : String) → EndsFilled (trim_end s)
unfolding trim_end
trim_end-EndsFilled String.[] = tt
trim_end-EndsFilled (String.◌∷◌ c s) = elim (Bool-cases (is_whitespace c)) [
  | inr mark ↦
      rw mark
        (EndsFilled-cons c (trim_end s) (λ e. is_whitespace-IsBlank c mark) (trim_end-EndsFilled s))
  | inl blank ↦ elim (Bool-cases (str_eq (trim_end s) "")) [
    | inl nothing ↦ rw (blank, nothing) tt
    | inr something ↦
        rw (blank, something)
          (EndsFilled-cons c (trim_end s) (λ e. cc (sym ((eq_iff (trim_end s) "").1 e) ∙ something))
            (trim_end-EndsFilled s))
  ]
]

-- A sanitized name has no line break, tab or semicolon, and neither begins nor ends with a space, a
-- tab or a line break.
pub sanitize_name-IsPlain :
    (name : String)
    → AllCodes IsPlain (sanitize_name name)
      × StartsFilled (sanitize_name name)
      × EndsFilled (sanitize_name name)
unfolding sanitize_name trim
sanitize_name-IsPlain name =
    let lines =
      AllCodes-replace (λ c. Unit) LineFree b'\n' " " name (λ c h new. new) (omega arith)
        (AllCodes-all name) in
    let returns =
      AllCodes-replace LineFree BreakFree b'\r' " " _ (λ c h new. (h, new)) (omega arith) lines in
    let tabs =
      AllCodes-replace BreakFree TabFree b'\t' " " _ (λ c (h, k) new. (h, k, new)) (omega arith)
        returns in
    let marks =
      AllCodes-replace TabFree IsPlain b';' "," _ (λ c (h, k, l) new. (h, k, l, new)) (omega arith)
        tabs in
    let replaced =
      replace b';' "," (replace b'\t' " " (replace b'\r' " " (replace b'\n' " " name))) in
    (
      AllCodes-trim IsPlain _ marks,
      trim_end-StartsFilled (trim_start replaced) (trim_start-StartsFilled replaced),
      trim_end-EndsFilled (trim_start replaced),
    )
