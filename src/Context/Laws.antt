-- ===== src/Context/Laws.antt =====
-- What the operations on contexts do to every key, and to the enclosing contexts.
use amp_cucumber_cpp_runner.Prelude.{
  String, ◌≡◌, refl, true, false, Option, none, some, [], ◌∷◌, arith, str_eq, eq_iff, if◌then◌else◌,
}
use amp_cucumber_cpp_runner.Context.{
  Entries, Context, root, child, find, erase_if, contains, get, erase, assign, leave,
}

module _ {ℓ} {V : Type ℓ} where
  pub find-erase_if :
      (key k : String) (entries : Entries V)
      → find k (erase_if key entries) ≡ (if str_eq key k then none else find k entries)
  unfolding find erase_if
  find-erase_if key k [] = ground arith
  find-erase_if key k ((j, v) ∷ entries) =
      ground (arith, eq_iff j key, eq_iff j k, eq_iff key k, find-erase_if key k entries)

  -- The value behind a key in the enclosing contexts alone.
  abbrev pub inherited : String → Context V → Option V
  inherited key (root entries) = none
  inherited key (child entries parent) = get key parent

  -- After `Assign` a context yields the assigned value for that key, and for every other key what
  -- it yielded before.
  pub get-assign :
      (key k : String) (v : V) (c : Context V)
      → get k (assign key v c) ≡ (if str_eq key k then some v else get k c)
  unfolding get assign find
  get-assign key k v (root entries) = ground (arith, find-erase_if key k entries)
  get-assign key k v (child entries parent) = ground (arith, find-erase_if key k entries)

  -- After `Erase` a context yields for that key what the enclosing contexts hold: a value that an
  -- inner context hid comes back, and the key is unknown if there is none. Other keys keep theirs.
  pub get-erase :
      (key k : String) (c : Context V)
      → get k (erase key c) ≡ (if str_eq key k then inherited k c else get k c)
  unfolding get erase
  get-erase key k (root entries) = find-erase_if key k entries
  get-erase key k (child entries parent) = ground (arith, find-erase_if key k entries)

  -- `Contains` answers true exactly for the keys at which `Get` does not throw.
  pub contains-eq-get :
      (key : String) (c : Context V)
      → contains key c ≡ elim (get key c) [ some _ ↦ true | none ↦ false ]
  unfolding contains get
  contains-eq-get key (root entries) = ground arith
  contains-eq-get key (child entries parent) = ground (arith, contains-eq-get key parent)

  abbrev pub parent_of : Context V → Option (Context V)
  parent_of (root entries) = none
  parent_of (child entries parent) = some parent

  pub parent_of-assign :
      (key : String) (v : V) (c : Context V) → parent_of (assign key v c) ≡ parent_of c
  unfolding assign
  parent_of-assign key v (root entries) = refl
  parent_of-assign key v (child entries parent) = refl

  pub parent_of-erase : (key : String) (c : Context V) → parent_of (erase key c) ≡ parent_of c
  unfolding erase
  parent_of-erase key (root entries) = refl
  parent_of-erase key (child entries parent) = refl

  -- A context whose parent is known leaves that parent behind.
  pub leave-parent_of : (c parent : Context V) → parent_of c ≡ some parent → leave c ≡ parent
  leave-parent_of (root entries) parent h = cc
  leave-parent_of (child entries p) parent h = cc
