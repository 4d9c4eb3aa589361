-- ===== src/Prelude/Sorting.antt =====
-- Orders made of orders, and lists that are sorted by a key.
use Prim.Native.Nat.{Ordering}
use Prim.Native.Nat.Ordering.{lt, eq, gt}
use mathlib.Core.Path.{◌≡◌, sym, ◌∙◌, ap}
use mathlib.Core.Logic.{◌≢◌}
use mathlib.Core.Bool.{Bool, true, false}
use mathlib.Core.List.{List, [], ◌∷◌}
use native.Mathlib.Omega.{arith}
use amp_cucumber_cpp_runner.Prelude.Lists.{All}
use amp_cucumber_cpp_runner.Prelude.Order.{IsOrder, opposite, unless_equal}
use amp_cucumber_cpp_runner.Prelude.OrderedMap.{is_lt, is_eq, is_gt, ordering_cases}

-- The greater first
abbrev pub descending {ℓ} : {A : Type ℓ} → (A → A → Ordering) → A → A → Ordering
descending cmp a b = cmp b a

pub descending-IsOrder {ℓ} :
    {A : Type ℓ} (cmp : A → A → Ordering) → IsOrder cmp → IsOrder (descending cmp)
descending-IsOrder cmp order = record {
  itself = order.itself;
  equal = λ a b h. sym (order.equal b a h);
  flip = λ a b. order.flip b a;
  trans = λ a b c h k. order.trans c b a k h;
}

module _ {ℓ κ} {A : Type ℓ} {B : Type κ} where
  -- By the first parts, and by the second ones where the first ones are equal
  abbrev pub by_parts : (A → A → Ordering) → (B → B → Ordering) → A × B → A × B → Ordering
  by_parts first second p q = unless_equal (first p.0 q.0) (second p.1 q.1)

  pub by_parts-IsOrder :
      (first : A → A → Ordering) (second : B → B → Ordering)
      → IsOrder first
      → IsOrder second
      → IsOrder (by_parts first second)
  by_parts-IsOrder first second f s = record {
    itself = λ p. ground (arith, f.itself p.0, s.itself p.1);
    equal = λ p q h. ground (arith, f.equal p.0 q.0, s.equal p.1 q.1);
    flip = λ p q. ground (arith, f.flip p.0 q.0, s.flip p.1 q.1);
    trans = λ p q r h k. grind (arith, f.equal p.0 q.0, f.equal q.0 r.0, f.trans, s.trans);
  }

-- Whether a comparison finds that the first is less
abbrev pub precedes : Ordering → Bool
precedes lt = true
precedes eq = false
precedes gt = false

module _ {ℓ κ} {A : Type ℓ} {K : Type κ} (cmp : K → K → Ordering) (key : A → K) where
  -- No item's key is greater than that of a later one.
  abbrev pub IsSortedBy : List A → Type 0
  IsSortedBy [] = Unit
  IsSortedBy (a ∷ rest) = All (λ b. cmp (key a) (key b) ≢ gt) rest × IsSortedBy rest

  module _ (order : IsOrder cmp) where
    pub at_most_trans : (a b c : K) → cmp a b ≢ gt → cmp b c ≢ gt → cmp a c ≢ gt
    at_most_trans a b c h k = elim (ordering_cases (cmp a b)) [
      | is_gt above ↦ absurd (h above)
      | is_eq same ↦ rw (order.equal a b same) k
      | is_lt below ↦ elim (ordering_cases (cmp b c)) [
        | is_gt above ↦ absurd (k above)
        | is_eq same ↦ rw⁻¹ (order.equal b c same) h
        | is_lt further ↦ λ above. cc (sym (order.trans a b c below further) ∙ above)
      ]
    ]

    pub at_most_of_not_before : (a b : K) → precedes (cmp b a) ≡ false → cmp a b ≢ gt
    at_most_of_not_before a b h above = cc (rw (order.flip a b ∙ ap opposite above) at h)

    pub at_most_of_before : (a b : K) → precedes (cmp a b) ≡ true → cmp a b ≢ gt
    at_most_of_before a b h above = cc (rw above at h)
