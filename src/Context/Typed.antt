-- ===== src/Context/Typed.antt =====
-- The templates of `Context` (cucumber_cpp/library/Context.hpp), which store objects of any type
-- behind pointers to `void`, and get them back by a cast.
pub mod Laws
use amp_cucumber_cpp_runner.Prelude.{
  ◌≡◌, String, Bool, Option, none, some, List, [], ◌∷◌, if◌then◌else◌,
}
use amp_cucumber_cpp_runner.Context.{Context, contains, get, erase, assign, enter, leave}

-- The types of the program: their objects, `typeid(T).name()`, and what an object of one type is
-- when its address is taken for that of another, or none where this is undefined.
pub record Types : Type 1 where
  pub Code : Type 0
  pub Object : Code → Type 0
  pub name : Code → String
  pub reinterpret : (stored wanted : Code) → Option (Object stored → Object wanted)

-- An object is what it is. Types may have the same name, as `const T` has that of `T`.
pub record IsLawful (T : Types) : Type 0 where
  pub reinterpret_self : (a : T.Code) → T.reinterpret a a ≡ some (λ x. x)

-- `std::shared_ptr<void>`, and the type of the object
abbrev pub Pointer : Types → Type 0
Pointer T = (a : T.Code) × T.Object a

abbrev pub TypedContext : Types → Type 0
TypedContext T = Context (Pointer T)

-- What `GetShared` does
pub data Got (A : Type 0) : Type 0 where
  key_not_found undefined_behaviour : Got A
  got : A → Got A

-- The object at an address, by the function that takes it for one of the wanted type
abbrev pub view : {A B : Type 0} → Option (A → B) → A → Got B
view none x = undefined_behaviour
view (some f) x = got (f x)

module _ (T : Types) where
  -- `SetShared`, `EmplaceAt`, `InsertRefAt` and `InsertAt`: what they store is made by the caller.
  unfoldable pub insert_at : (a : T.Code) → String → T.Object a → TypedContext T → TypedContext T
  insert_at a key x c = assign key (a, x) c

  -- `EmplaceAs`, `InsertRefAs` and `InsertAs`: an object of one type, under the name of another
  unfoldable pub insert_as :
      (wanted stored : T.Code) → T.Object stored → TypedContext T → TypedContext T
  unfolding insert_at
  insert_as wanted stored x c = insert_at stored (T.name wanted) x c

  -- `SetShared`, `Emplace`, `InsertRef` and `Insert`
  unfoldable pub insert : (a : T.Code) → T.Object a → TypedContext T → TypedContext T
  unfolding insert_as
  insert a x c = insert_as a a x c

  -- `Contains` and `Clear` of a type
  unfoldable pub contains_type : T.Code → TypedContext T → Bool
  contains_type a c = contains (T.name a) c

  unfoldable pub clear_type : T.Code → TypedContext T → TypedContext T
  clear_type a c = erase (T.name a) c

  -- `std::static_pointer_cast`
  unfoldable pub static_pointer_cast : (wanted : T.Code) → Pointer T → Got (T.Object wanted)
  static_pointer_cast wanted (stored, x) = view (T.reinterpret stored wanted) x

  abbrev pub cast_found : (wanted : T.Code) → Option (Pointer T) → Got (T.Object wanted)
  unfolding static_pointer_cast
  cast_found wanted none = key_not_found
  cast_found wanted (some pointer) = static_pointer_cast wanted pointer

  -- `GetShared`, at any key
  unfoldable pub get_shared : (wanted : T.Code) → String → TypedContext T → Got (T.Object wanted)
  unfolding static_pointer_cast
  get_shared wanted key c = cast_found wanted (get key c)

  -- `Get`, at the key that it has where none is given
  unfoldable pub get_type : (wanted : T.Code) → TypedContext T → Got (T.Object wanted)
  unfolding get_shared
  get_type wanted c = get_shared wanted (T.name wanted) c
