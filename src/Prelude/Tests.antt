-- ===== src/Prelude/Tests.antt =====
-- Boolean tests on native numbers and texts, and the conditional.
use Prim.Native.Nat.{ℕ, ◌≤◌, ◌<◌, compare, Ordering}
use mathlib.Core.Path.{◌≡◌, refl}
use mathlib.Core.Logic.{◌⊎◌, inl, inr}
use mathlib.Core.Bool.{Bool, true, false}
use mathlib.Core.Option.{Option, none, some}
use native.Mathlib.Omega.{arith}

abbrev pub ltb : ℕ → ℕ → Bool
ltb a b = elim (compare a b) [ Ordering.lt ↦ true | _ ↦ false ]

infix 50 ◌==◌
abbrev pub ◌==◌ : ℕ → ℕ → Bool
a == b = elim (compare a b) [ Ordering.eq ↦ true | _ ↦ false ]

infix 1 if◌then◌else◌
abbrev pub if◌then◌else◌ {ℓ} : {A : Type ℓ} → Bool → A → A → A
if true then x else y = x
if false then x else y = y

pub ltb→lt : (a b : ℕ) → ltb a b ≡ true → a < b
ltb→lt a b h = ground arith

pub ltb-false→le : (a b : ℕ) → ltb a b ≡ false → b ≤ a
ltb-false→le a b h = ground arith

-- A computed value split with its equation kept.
pub Bool-cases : (b : Bool) → (b ≡ true) ⊎ (b ≡ false)
Bool-cases true = inl refl
Bool-cases false = inr refl

pub Option-cases {ℓ} : {A : Type ℓ} (o : Option A) → (o ≡ none) ⊎ ((a : A) × (o ≡ some a))
Option-cases none = inl refl
Option-cases (some a) = inr (a, refl)

-- A property of a case analysis, from its cases.
pub elim_Option {ℓ κ μ} :
    {A : Type ℓ} {B : Type κ} (Q : B → Type μ) (o : Option A) (n : B) (s : A → B)
    → Q n
    → ((a : A) → Q (s a))
    → Q (elim o [ none ↦ n | some a ↦ s a ])
elim_Option Q none n s qn qs = qn
elim_Option Q (some a) n s qn qs = qs a

pub elim_Bool {ℓ κ} :
    {B : Type ℓ} (Q : B → Type κ) (b : Bool) (t f : B)
    → Q t
    → Q f
    → Q (elim b [ true ↦ t | false ↦ f ])
elim_Bool Q true t f qt qf = qt
elim_Bool Q false t f qt qf = qf

-- A property of the case that an equation selects.
pub elim_none {ℓ κ μ} :
    {A : Type ℓ} {B : Type κ} (Q : B → Type μ) (o : Option A) (n : B) (s : A → B)
    → o ≡ none
    → Q n
    → Q (elim o [ none ↦ n | some a ↦ s a ])
elim_none Q o n s h q = rw h q

pub elim_some {ℓ κ μ} :
    {A : Type ℓ} {B : Type κ} (Q : B → Type μ) (o : Option A) (a : A) (n : B) (s : A → B)
    → o ≡ some a
    → Q (s a)
    → Q (elim o [ none ↦ n | some b ↦ s b ])
elim_some Q o a n s h q = rw h q
