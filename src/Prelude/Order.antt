-- ===== src/Prelude/Order.antt =====
-- Three-way comparisons that order their type, as `std::map` and `std::set` need them.
use Prim.Native.Nat as Nat
use Prim.Native.Nat.{ℕ, Ordering}
use Prim.Native.Nat.Ordering.{lt, eq, gt}
use Prim.Native.Char.{code}
use Prim.Native.String as Text
use Prim.Native.String.compare as compare_text
use Prim.Native.String.{String}
use mathlib.Core.Path.{◌≡◌, refl, sym, ◌∙◌}
use native.Mathlib.Omega.{arith}
use text.Mathlib.TextEquality.{path_by_compare}
use text.Mathlib.TextPositions.{compare_refl}

abbrev pub opposite : Ordering → Ordering
opposite lt = gt
opposite eq = eq
opposite gt = lt

pub record IsOrder {ℓ} {K : Type ℓ} (cmp : K → K → Ordering) : Type ℓ where
  pub itself : (a : K) → cmp a a ≡ eq
  pub equal : (a b : K) → cmp a b ≡ eq → a ≡ b
  pub flip : (a b : K) → cmp b a ≡ opposite (cmp a b)
  pub trans : (a b c : K) → cmp a b ≡ lt → cmp b c ≡ lt → cmp a c ≡ lt

pub numbers-IsOrder : IsOrder Nat.compare
numbers-IsOrder = record {
  itself = λ a. ground arith;
  equal = λ a b h. ground arith;
  flip = λ a b. ground arith;
  trans = λ a b c h k. ground arith;
}

-- The first comparison decides, and the second where the first finds no difference.
abbrev pub unless_equal : Ordering → Ordering → Ordering
unless_equal lt second = lt
unless_equal eq second = second
unless_equal gt second = gt

opposite-then : (o r : Ordering) → opposite (Text.then o r) ≡ Text.then (opposite o) (opposite r)
opposite-then lt r = refl
opposite-then eq r = refl
opposite-then gt r = refl

then_trans :
    (a b c : ℕ) (p q r : Ordering)
    → (p ≡ lt → q ≡ lt → r ≡ lt)
    → Text.then (Nat.compare a b) p ≡ lt
    → Text.then (Nat.compare b c) q ≡ lt
    → Text.then (Nat.compare a c) r ≡ lt
then_trans a b c p q r f h k = ground arith

text_flip : (s t : String) → Text.compare t s ≡ opposite (Text.compare s t)
text_flip Text.[] Text.[] = simp compare_text.nil-nil
text_flip Text.[] (Text.◌∷◌ d t) = simp (compare_text.cons-nil, compare_text.nil-cons)
text_flip (Text.◌∷◌ c s) Text.[] = simp (compare_text.cons-nil, compare_text.nil-cons)
text_flip (Text.◌∷◌ c s) (Text.◌∷◌ d t) =
    simp
      (compare_text.cons-cons, opposite-then, text_flip s t, numbers-IsOrder.flip (code c) (code d))

text_trans :
    (s t u : String) → Text.compare s t ≡ lt → Text.compare t u ≡ lt → Text.compare s u ≡ lt
text_trans Text.[] Text.[] u h k = cc
text_trans Text.[] (Text.◌∷◌ d t) Text.[] h k = cc (sym (compare_text.cons-nil d t) ∙ k)
text_trans Text.[] (Text.◌∷◌ d t) (Text.◌∷◌ e u) h k = compare_text.nil-cons e u
text_trans (Text.◌∷◌ c s) Text.[] u h k = cc (sym (compare_text.cons-nil c s) ∙ h)
text_trans (Text.◌∷◌ c s) (Text.◌∷◌ d t) Text.[] h k = cc (sym (compare_text.cons-nil d t) ∙ k)
text_trans (Text.◌∷◌ c s) (Text.◌∷◌ d t) (Text.◌∷◌ e u) h k =
    compare_text.cons-cons c e s u
    ∙ then_trans (code c) (code d) (code e) _ _ _ (text_trans s t u)
        (sym (compare_text.cons-cons c d s t) ∙ h) (sym (compare_text.cons-cons d e t u) ∙ k)

pub texts-IsOrder : IsOrder Text.compare
texts-IsOrder = record {
  itself = compare_refl;
  equal = path_by_compare;
  flip = text_flip;
  trans = text_trans;
}
