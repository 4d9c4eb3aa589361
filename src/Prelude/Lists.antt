-- ===== src/Prelude/Lists.antt =====
-- Lists measured by native numbers, and a predicate on all items.
use Prim.Native.Nat.{ℕ, zero, suc, ◌+◌}
use mathlib.Core.Path.{◌≡◌, refl, ap}
use mathlib.Core.List.{List, [], ◌∷◌, ◌++◌, reverse, reverse_aux, map}
use mathlib.Core.Bool.{Bool}
use native.Mathlib.Omega.{arith}
use amp_cucumber_cpp_runner.Prelude.Tests.{if◌then◌else◌}

module _ {ℓ} {A : Type ℓ} where
  abbrev pub length : List A → ℕ
  length [] = 0
  length (x ∷ xs) = suc (length xs)

  abbrev pub keep_if : (A → Bool) → List A → List A
  keep_if test [] = []
  keep_if test (x ∷ xs) = let rest = keep_if test xs in if test x then x ∷ rest else rest

  abbrev pub replicate : ℕ → A → List A
  replicate zero a = []
  replicate (suc n) a = a ∷ replicate n a

  pub length-append : (xs ys : List A) → length (xs ++ ys) ≡ length xs + length ys
  length-append [] ys = omega arith
  length-append (x ∷ xs) ys = omega (arith, length-append xs ys)

  abbrev pub All {κ} : (A → Type κ) → List A → Type κ
  All P [] = Unit
  All P (x ∷ xs) = P x × All P xs

  pub All-append {κ} : (Q : A → Type κ) (xs ys : List A) → All Q xs → All Q ys → All Q (xs ++ ys)
  All-append Q [] ys h k = k
  All-append Q (x ∷ xs) ys (h, hs) k = (h, All-append Q xs ys hs k)

  pub All-mono {κ μ} :
      (Q : A → Type κ) (S : A → Type μ) (xs : List A) → ((a : A) → Q a → S a) → All Q xs → All S xs
  All-mono Q S [] f h = tt
  All-mono Q S (x ∷ xs) f (h, hs) = (f x h, All-mono Q S xs f hs)

  All-reverse_aux {κ} :
      (Q : A → Type κ) (xs ys : List A) → All Q xs → All Q ys → All Q (reverse_aux xs ys)
  All-reverse_aux Q [] ys h k = k
  All-reverse_aux Q (x ∷ xs) ys (h, hs) k = All-reverse_aux Q xs (x ∷ ys) hs (h, k)

  pub All-reverse {κ} : (Q : A → Type κ) (xs : List A) → All Q xs → All Q (reverse xs)
  All-reverse Q xs h = All-reverse_aux Q xs [] h tt

  pub map-append {κ} :
      {B : Type κ} (f : A → B) (xs ys : List A) → map f (xs ++ ys) ≡ map f xs ++ map f ys
  map-append f [] ys = refl
  map-append f (x ∷ xs) ys = ap (λ r. f x ∷ r) (map-append f xs ys)

  pub All-both {κ μ ν} :
      (Q : A → Type κ) (S : A → Type μ) (R : A → Type ν) (xs : List A)
      → ((a : A) → Q a → S a → R a)
      → All Q xs
      → All S xs
      → All R xs
  All-both Q S R [] f h k = tt
  All-both Q S R (x ∷ xs) f (h, hs) (k, ks) = (f x h k, All-both Q S R xs f hs ks)

  pub All-intro {κ} : (Q : A → Type κ) (xs : List A) → ((a : A) → Q a) → All Q xs
  All-intro Q [] f = tt
  All-intro Q (x ∷ xs) f = (f x, All-intro Q xs f)
