-- ===== src/Context.antt =====
-- The contexts that steps and hooks share values through (cucumber_cpp/library/Context.hpp):
-- a storage with an optional parent. A value is a shared pointer, kept here as an opaque token.
pub mod Laws
pub mod Typed
pub mod ThreadSafe
pub mod Layers
use amp_cucumber_cpp_runner.Prelude.{
  String, Bool, true, false, Option, none, some, List, [], ◌∷◌, str_eq, if◌then◌else◌,
}

-- `ContextStorageImpl::context`, a forward list of entries
abbrev pub Entries {ℓ} : Type ℓ → Type ℓ
Entries V = List (String × V)

-- `ContextStorageImpl`: its own entries, with no parent or with one
pub data Context {ℓ} (V : Type ℓ) : Type ℓ where
  root : Entries V → Context V
  child : Entries V → Context V → Context V

module _ {ℓ} {V : Type ℓ} where
  unfoldable pub find : String → Entries V → Option V
  find key [] = none
  find key ((k, v) ∷ entries) = if str_eq k key then some v else find key entries

  unfoldable pub erase_if : String → Entries V → Entries V
  erase_if key [] = []
  erase_if key ((k, v) ∷ entries) =
      let rest = erase_if key entries in if str_eq k key then rest else (k, v) ∷ rest

  unfoldable pub contains : String → Context V → Bool
  contains key (root entries) = elim (find key entries) [ some _ ↦ true | none ↦ false ]
  contains key (child entries parent) = elim (find key entries) [
    | some _ ↦ true
    | none ↦ contains key parent
  ]

  -- `none` is the exception `KeyNotFound`.
  unfoldable pub get : String → Context V → Option V
  get key (root entries) = find key entries
  get key (child entries parent) = elim (find key entries) [
    | some v ↦ some v
    | none ↦ get key parent
  ]

  unfoldable pub erase : String → Context V → Context V
  unfolding erase_if
  erase key (root entries) = root (erase_if key entries)
  erase key (child entries parent) = child (erase_if key entries) parent

  unfoldable pub assign : String → V → Context V → Context V
  unfolding erase_if
  assign key v (root entries) = root ((key, v) ∷ erase_if key entries)
  assign key v (child entries parent) = child ((key, v) ∷ erase_if key entries) parent

  -- `Context{ &parent }`
  abbrev pub enter : Context V → Context V
  enter parent = child [] parent

  -- The end of a context's scope: its own entries go, and its parent is what remains.
  abbrev pub leave : Context V → Context V
  leave (root entries) = root entries
  leave (child entries parent) = parent
