-- ===== src/Context/ThreadSafe.antt =====
-- The thread-safe storage (cucumber_cpp/library/Context.hpp): each operation with the mutexes that it
-- locks and unlocks, in order. A mutex is named by how many contexts enclose its own.
use amp_cucumber_cpp_runner.Prelude.{
  ℕ, ◌+◌, ◌<◌, ◌≡◌, String, Bool, true, Option, none, some, List, [], ◌∷◌, ◌++◌,
}
use amp_cucumber_cpp_runner.Context.{Context, root, child, find, contains, get, erase, assign}

pub data LockEvent : Type 0 where
  lock unlock : ℕ → LockEvent

-- `std::lock_guard` round what is done: the mutex is unlocked on every way out.
abbrev pub guarded : ℕ → List LockEvent → List LockEvent
guarded mutex events = lock mutex ∷ (events ++ (unlock mutex ∷ []))

module _ {ℓ} {V : Type ℓ} where
  -- The mutex of a context
  abbrev pub mutex_of : Context V → ℕ
  mutex_of (root entries) = 0
  mutex_of (child entries parent) = mutex_of parent + 1

  -- The search of a storage that has a parent: what its own value means, or what the parent answers
  abbrev pub searched {κ} :
      {A : Type κ} → ℕ → Option V → (V → A) → A × List LockEvent → A × List LockEvent
  searched mutex (some v) early late = (early v, guarded mutex [])
  searched mutex none early late = (late.0, guarded mutex late.1)

  -- `ThreadSafeContextStorage::Contains`, whose storage asks that of its parent
  unfoldable pub contains_safe : String → Context V → Bool × List LockEvent
  contains_safe key (root entries) = (contains key (root entries), guarded 0 [])
  contains_safe key (child entries parent) =
      searched (mutex_of parent + 1) (find key entries) (λ v. true) (contains_safe key parent)

  -- `ThreadSafeContextStorage::Get`
  unfoldable pub get_safe : String → Context V → Option V × List LockEvent
  get_safe key (root entries) = (get key (root entries), guarded 0 [])
  get_safe key (child entries parent) =
      searched (mutex_of parent + 1) (find key entries) (λ v. some v) (get_safe key parent)

  -- `ThreadSafeContextStorage::Erase`
  unfoldable pub erase_safe : String → Context V → Context V × List LockEvent
  erase_safe key c = (erase key c, guarded (mutex_of c) [])

  -- `ThreadSafeContextStorage::Assign`
  unfoldable pub assign_safe : String → V → Context V → Context V × List LockEvent
  assign_safe key v c = (assign key v c, guarded (mutex_of c) [])

-- The mutex is locked at first and unlocked at last, and what is locked meanwhile are mutexes of
-- enclosing contexts, one within the other.
pub data IsNested : ℕ → List LockEvent → Type 0 where
  alone : (mutex : ℕ) (events : List LockEvent) → events ≡ guarded mutex [] → IsNested mutex events
  around :
      (mutex outer : ℕ) (inside events : List LockEvent)
      → outer < mutex
      → IsNested outer inside
      → events ≡ guarded mutex inside
      → IsNested mutex events
