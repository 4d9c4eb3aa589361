-- ===== src/Context/Typed/Laws.antt =====
-- What is stored under the name of a type is got back as that type:
-- cucumber_cpp/library/Context.hpp.
use amp_cucumber_cpp_runner.Prelude.{◌≡◌, String, Option, none, some, List, [], ◌∷◌, All}
use amp_cucumber_cpp_runner.Context.{Entries, root, child, erase, enter, leave}
use amp_cucumber_cpp_runner.Context.Typed.{
  Types, Pointer, TypedContext, insert_at, insert_as, clear_type,
}

-- A call on a context, and the life of an inner one
pub data TypedCall (T : Types) : Type 0 where
  store_under : (wanted stored : T.Code) → T.Object stored → TypedCall T
  store_key : (stored : T.Code) → String → T.Object stored → TypedCall T
  clear_under : T.Code → TypedCall T
  clear_key : String → TypedCall T
  enter_inner leave_inner : TypedCall T

module _ (T : Types) where
  -- An object of the one type may be taken for one of the other.
  abbrev pub IsViewable : (stored wanted : T.Code) → Type 0
  IsViewable stored wanted =
      (f : T.Object stored → T.Object wanted) × (T.reinterpret stored wanted ≡ some f)

  -- Under a key that is the name of a type, an object may stand that is viewable as every
  -- type of that name.
  abbrev pub IsAllowed : String → T.Code → Type 0
  IsAllowed key stored = (wanted : T.Code) → key ≡ T.name wanted → IsViewable stored wanted

  abbrev pub IsAdmissible : TypedCall T → Type 0
  IsAdmissible (store_under wanted stored x) = IsAllowed (T.name wanted) stored
  IsAdmissible (store_key stored key x) = IsAllowed key stored
  IsAdmissible (clear_under a) = Unit
  IsAdmissible (clear_key key) = Unit
  IsAdmissible enter_inner = Unit
  IsAdmissible leave_inner = Unit

  abbrev AreAllowed : Entries (Pointer T) → Type 0
  AreAllowed entries = All (λ entry. IsAllowed entry.0 entry.1.0) entries

  abbrev pub IsTyped : TypedContext T → Type 0
  IsTyped (root entries) = AreAllowed entries
  IsTyped (child entries parent) = AreAllowed entries × IsTyped parent

  unfoldable pub run_typed : List (TypedCall T) → TypedContext T → TypedContext T
  unfolding insert_as insert_at clear_type
  run_typed [] c = c
  run_typed (store_under wanted stored x ∷ calls) c =
      run_typed calls (insert_as T wanted stored x c)
  run_typed (store_key stored key x ∷ calls) c = run_typed calls (insert_at T stored key x c)
  run_typed (clear_under a ∷ calls) c = run_typed calls (clear_type T a c)
  run_typed (clear_key key ∷ calls) c = run_typed calls (erase key c)
  run_typed (enter_inner ∷ calls) c = run_typed calls (enter c)
  run_typed (leave_inner ∷ calls) c = run_typed calls (leave c)

  -- A found object has the type that its key names.
  abbrev FoundAllowed : String → Option (Pointer T) → Type 0
  FoundAllowed key none = Unit
  FoundAllowed key (some pointer) = IsAllowed key pointer.0
