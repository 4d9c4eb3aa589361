-- ===== src/Prelude/OrderedMap.antt =====
-- `std::map` as the list of its entries in the order of their keys.
use Prim.Native.Nat.{Ordering}
use Prim.Native.Nat.Ordering.{lt, eq, gt}
use mathlib.Core.Path.{◌≡◌, refl, sym, ◌∙◌, ap}
use mathlib.Core.Option.{Option, none, some}
use mathlib.Core.List.{List, [], ◌∷◌}
use amp_cucumber_cpp_runner.Prelude.Lists.{All, All-mono}
use amp_cucumber_cpp_runner.Prelude.Order.{IsOrder, opposite}

some-injective {ℓ} : {A : Type ℓ} {a b : A} → some a ≡ some b → a ≡ b
some-injective h = cc h

pub data IsOrdering (o : Ordering) : Type 0 where
  is_lt : o ≡ lt → IsOrdering o
  is_eq : o ≡ eq → IsOrdering o
  is_gt : o ≡ gt → IsOrdering o

pub ordering_cases : (o : Ordering) → IsOrdering o
ordering_cases lt = is_lt refl
ordering_cases eq = is_eq refl
ordering_cases gt = is_gt refl

abbrev pub or_else {ℓ} : {A : Type ℓ} → Option A → Option A → Option A
or_else none second = second
or_else (some a) second = some a

pub or_else-none {ℓ} : {A : Type ℓ} (o : Option A) → or_else o none ≡ o
or_else-none none = refl
or_else-none (some a) = refl

pub or_else_assoc {ℓ} :
    {A : Type ℓ} (a b c : Option A) → or_else (or_else a b) c ≡ or_else a (or_else b c)
or_else_assoc none b c = refl
or_else_assoc (some a) b c = refl

module _ {ℓ κ} {K : Type ℓ} {V : Type κ} (cmp : K → K → Ordering) where
  abbrev pub IsSorted : List (K × V) → Type 0
  IsSorted [] = Unit
  IsSorted ((k, v) ∷ entries) = All (λ entry. cmp k entry.0 ≡ lt) entries × IsSorted entries

  unfoldable pub lookup_key : K → List (K × V) → Option V
  lookup_key k [] = none
  lookup_key k ((j, v) ∷ entries) = elim (cmp k j) [ eq ↦ some v | _ ↦ lookup_key k entries ]

  pub lookup-nil : (k : K) → lookup_key k [] ≡ none
  unfolding lookup_key
  lookup-nil k = refl

  -- A key below all keys is not there.
  pub lookup-below :
      (k : K) (entries : List (K × V))
      → All (λ entry. cmp k entry.0 ≡ lt) entries
      → lookup_key k entries ≡ none
  unfolding lookup_key
  lookup-below k [] h = refl
  lookup-below k ((j, v) ∷ entries) (h, hs) = rw (h, lookup_key) (lookup-below k entries hs)

  -- What a map yields that lacks a key
  abbrev unless_eq : Ordering → Option V → Option V
  unless_eq eq v = none
  unless_eq lt v = v
  unless_eq gt v = v

  module _ (order : IsOrder cmp) where
    pub All-below :
        (k j : K) (entries : List (K × V))
        → cmp k j ≡ lt
        → All (λ entry. cmp j entry.0 ≡ lt) entries
        → All (λ entry. cmp k entry.0 ≡ lt) entries
    All-below k j entries h hs =
        All-mono _ _ entries (λ entry below. order.trans k j entry.0 h below) hs

    lookup-tail :
        (i k : K) (v : V) (entries : List (K × V))
        → All (λ entry. cmp k entry.0 ≡ lt) entries
        → lookup_key i entries ≡ unless_eq (cmp i k) (lookup_key i ((k, v) ∷ entries))
    unfolding lookup_key
    lookup-tail i k v entries h = elim (ordering_cases (cmp i k)) [
      | is_lt below ↦ rw (below, lookup_key) refl
      | is_gt above ↦ rw (above, lookup_key) refl
      | is_eq same ↦ rw same (
          lookup-below i entries
            (All-mono _ _ entries (λ e below. rw (order.equal i k same) below) h))
    ]

    pub lookup-head :
        (k : K) (v : V) (entries : List (K × V)) → lookup_key k ((k, v) ∷ entries) ≡ some v
    unfolding lookup_key
    lookup-head k v entries = rw (order.itself k, lookup_key) refl

    lookup-smaller :
        (k j : K) (v : V) (entries : List (K × V))
        → cmp k j ≡ lt
        → IsSorted ((j, v) ∷ entries)
        → lookup_key k ((j, v) ∷ entries) ≡ none
    lookup-smaller k j v entries h (below, sorted) =
        lookup-below k ((j, v) ∷ entries) (h, All-below k j entries h below)

    tails_equal :
        (i k j : K) (v w : V) (xs ys : List (K × V))
        → k ≡ j
        → lookup_key i ((k, v) ∷ xs) ≡ lookup_key i ((j, w) ∷ ys)
        → unless_eq (cmp i k) (lookup_key i ((k, v) ∷ xs))
          ≡ unless_eq (cmp i j) (lookup_key i ((j, w) ∷ ys))
    tails_equal i k j v w xs ys keys h = λ t. unless_eq (cmp i (keys t)) (h t)

    -- Two maps that yield the same at each key are equal.
    pub sorted_ext :
        (xs ys : List (K × V))
        → IsSorted xs
        → IsSorted ys
        → ((k : K) → lookup_key k xs ≡ lookup_key k ys)
        → xs ≡ ys
    sorted_ext [] [] sx sy h = refl
    sorted_ext [] ((j, w) ∷ ys) sx sy h = cc (sym (lookup-nil j) ∙ h j ∙ lookup-head j w ys)
    sorted_ext ((k, v) ∷ xs) [] sx sy h = cc (sym (lookup-head k v xs) ∙ h k ∙ lookup-nil k)
    sorted_ext ((k, v) ∷ xs) ((j, w) ∷ ys) sx sy h = elim (ordering_cases (cmp k j)) [
      | is_lt below ↦ cc (sym (lookup-head k v xs) ∙ h k ∙ lookup-smaller k j w ys below sy)
      | is_gt above ↦ cc (
          sym (lookup-head j w ys)
          ∙ sym (h j)
          ∙ lookup-smaller j k v xs (order.flip k j ∙ ap opposite above) sx)
      | is_eq same ↦
          let keys : k ≡ j = order.equal k j same in
          let values : v ≡ w =
            some-injective (sym (lookup-head k v xs) ∙ h k ∙ rw keys (lookup-head j w ys)) in
          let rests : xs ≡ ys = sorted_ext xs ys sx.1 sy.1 λ i.
            lookup-tail i k v xs sx.0
            ∙ tails_equal i k j v w xs ys keys (h i)
            ∙ sym (lookup-tail i j w ys sy.0) in
          rw (keys, values, rests) refl
    ]

    -- What a new first entry adds
    pub lookup-front :
        (i key : K) (new : V) (entries : List (K × V))
        → All (λ entry. cmp key entry.0 ≡ lt) entries
        → lookup_key i ((key, new) ∷ entries)
          ≡ or_else (lookup_key i entries) (lookup_key i ((key, new) ∷ []))
    unfolding lookup_key
    lookup-front i key new entries h = elim (ordering_cases (cmp i key)) [
      | is_lt below ↦ rw (below, lookup_key) (sym (or_else-none _))
      | is_gt above ↦ rw (above, lookup_key) (sym (or_else-none _))
      | is_eq same ↦
          let missing : lookup_key i entries ≡ none =
            rw (order.equal i key same) (lookup-below key entries h) in
          rw (missing, same, lookup_key) refl
    ]

    -- What an entry hides whose key is that of another
    pub lookup-hidden :
        (i key other : K) (new old : V) (entries : List (K × V))
        → cmp key other ≡ eq
        → lookup_key i ((other, old) ∷ entries)
          ≡ or_else (lookup_key i ((other, old) ∷ entries)) (lookup_key i ((key, new) ∷ []))
    unfolding lookup_key
    lookup-hidden i key other new old entries h =
        rw (order.equal key other h) (elim (ordering_cases (cmp i other)) [
          | is_lt below ↦ rw (below, lookup_key) (sym (or_else-none _))
          | is_gt above ↦ rw (above, lookup_key) (sym (or_else-none _))
          | is_eq same ↦ rw (same, lookup_key) refl
        ])

    -- What a first entry leaves to the others
    pub lookup-rest :
        (i other : K) (old : V) (added : Option V) (entries entries' : List (K × V))
        → lookup_key i entries' ≡ or_else (lookup_key i entries) added
        → lookup_key i ((other, old) ∷ entries')
          ≡ or_else (lookup_key i ((other, old) ∷ entries)) added
    unfolding lookup_key
    lookup-rest i other old added entries entries' h = elim (ordering_cases (cmp i other)) [
      | is_lt below ↦ rw (below, lookup_key) h
      | is_gt above ↦ rw (above, lookup_key) h
      | is_eq same ↦ rw (same, lookup_key) refl
    ]

    pub lookup-cons :
        (i key : K) (v : V) (entries : List (K × V))
        → lookup_key i ((key, v) ∷ entries)
          ≡ or_else (lookup_key i ((key, v) ∷ [])) (lookup_key i entries)
    lookup-cons i key v entries =
        lookup-rest i key v (lookup_key i entries) [] entries (rw (lookup-nil i) refl)

    -- Two entries whose keys differ hide nothing of one another.
    pub lookup-swap :
        (i k j : K) (v w : V) (entries : List (K × V))
        → cmp k j ≡ lt
        → lookup_key i ((j, w) ∷ (k, v) ∷ entries) ≡ lookup_key i ((k, v) ∷ (j, w) ∷ entries)
    unfolding lookup_key
    lookup-swap i k j v w entries h = elim (ordering_cases (cmp i k)) [
      | is_eq same ↦
          let further : cmp i j ≡ lt = rw (order.equal i k same) h in
          rw (further, same, lookup_key) refl
      | is_lt below ↦
          let further = order.trans i k j below h in
          rw (further, below, lookup_key) (rw (further, lookup_key) refl)
      | is_gt above ↦ elim (ordering_cases (cmp i j)) [
        | is_lt below ↦ rw (below, above, lookup_key) (rw (below, lookup_key) refl)
        | is_eq same ↦ rw (same, above, lookup_key) (rw (same, lookup_key) refl)
        | is_gt higher ↦ rw (higher, above, lookup_key) (rw (higher, lookup_key) refl)
      ]
    ]
