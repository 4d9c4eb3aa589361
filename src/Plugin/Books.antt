-- ===== src/Plugin/Books.antt =====
-- What loading keeps: the host's own definitions, and a reference to each library that is open
-- (cucumber_cpp/library/plugin).
pub mod Loading
use amp_cucumber_cpp_runner.Prelude.{
  ℕ, ◌+◌, ◌-◌, ◌≡◌, refl, ◌∙◌, inl, inr, String, Bool, true, false, Option, none, some, List, [],
  ◌∷◌, ◌++◌, ◌==◌, str_eq, arith, map, ltb, Bool-cases, if◌then◌else◌,
}
use amp_cucumber_cpp_runner.Platform.{Platform}
use amp_cucumber_cpp_runner.Application.{FileSystem}
use amp_cucumber_cpp_runner.Support.DefinitionRegistration.{
  Location, Entry, Registry, CustomParameter, Plugin, DefinitionRegistration, register_entry,
  register_plugin, with_id, load_ids, assign_ids,
}
use amp_cucumber_cpp_runner.Support.DefinitionRegistration.Parameters.{register_parameter}
use amp_cucumber_cpp_runner.Support.DefinitionRegistration.Initialisers.{
  register_entries, register_parameters,
}
use amp_cucumber_cpp_runner.Plugin.Process.{
  Expressions, Image, Loader, DynamicLibrary, Process, initialise, initialise_shared, map_image,
  opened, open_library, close_library,
}
use amp_cucumber_cpp_runner.Plugin.Register.{
  PluginHostContext, share_converters, redirect_stopwatch, redirect_timestamps, share, ccr_register,
}
use amp_cucumber_cpp_runner.Plugin.Manager.{
  PluginError, Host, call_register, add_library, load_file, and_then, load_files, load_directory,
  load_resolved, load, libraries_in, close_libraries,
}

abbrev pub forget_id : {P : Platform} → Location × Entry P → Location × Entry P
forget_id (location, entry) = (location, with_id "" entry)

-- A host's own definitions: where it stands, and its snapshot, less the ids
abbrev pub Static : Platform → Type 0
Static P = ℕ × Registry P × List CustomParameter

module _ {P : Platform} where
  abbrev pub static_of : DefinitionRegistration P → Static P
  static_of r = (r.address, map forget_id r.static_registry, r.static_custom_parameters)

  static-register_entries :
      (entries : List (Location × Entry P)) (r : DefinitionRegistration P)
      → static_of (register_entries entries r) ≡ static_of r
  unfolding register_entries register_entry
  static-register_entries [] r = refl
  static-register_entries ((location, entry) ∷ entries) r = static-register_entries entries _

  pub static-register_plugin :
      (plugin : Plugin P) (r : DefinitionRegistration P)
      → static_of (register_plugin plugin r) ≡ static_of r
  unfolding register_plugin
  static-register_plugin plugin r = ground arith

  forget-assign_ids :
      (issued : ℕ) (registry : Registry P)
      → map forget_id (assign_ids issued registry) ≡ map forget_id registry
  unfolding assign_ids
  forget-assign_ids issued [] = refl
  forget-assign_ids issued ((location, Entry.of_hook entry) ∷ registry) =
      rw (forget-assign_ids (issued + 1) registry) refl
  forget-assign_ids issued ((location, Entry.of_step entry) ∷ registry) =
      rw (forget-assign_ids (issued + 1) registry) refl

  pub static-load_ids :
      (issued : ℕ) (r : DefinitionRegistration P) → static_of (load_ids issued r) ≡ static_of r
  unfolding load_ids
  static-load_ids issued r = rw (forget-assign_ids issued r.static_registry) refl

  module _ (E : Expressions) where
    static-register_parameters :
        (parameters : List CustomParameter) (r : DefinitionRegistration P)
        → static_of (register_parameters E.less parameters r) ≡ static_of r
    unfolding register_parameters register_parameter
    static-register_parameters [] r = refl
    static-register_parameters (p ∷ parameters) r = static-register_parameters parameters _

    pub static-initialise_shared :
        (image : Image P) (r : DefinitionRegistration P)
        → static_of (initialise_shared E image r) ≡ static_of r
    unfolding initialise_shared initialise
    static-initialise_shared image r = elim (Bool-cases (image.registration == r.address)) [
      | inl shared ↦ rw shared (
          static-register_parameters image.custom_parameters (register_entries image.entries r)
          ∙ static-register_entries image.entries r)
      | inr own ↦ rw own refl
    ]

abbrev pub count_handle : ℕ → List DynamicLibrary → ℕ
count_handle k [] = 0
count_handle k (library ∷ libraries) =
    (if k == library.handle then 1 else 0) + count_handle k libraries

pub count_handle-append :
    (k : ℕ) (libraries others : List DynamicLibrary)
    → count_handle k (libraries ++ others) ≡ count_handle k libraries + count_handle k others
count_handle-append k [] others = omega arith
count_handle-append k (library ∷ libraries) others =
    omega (arith, count_handle-append k libraries others)

module _ {P : Platform} {E : Expressions} where
  -- The libraries, their references and the host's own definitions are what they were.
  pub record SameBooks (s t : Process P E) : Type 0 where
    pub libraries : t.libraries ≡ s.libraries
    pub references : (k : ℕ) → t.references k ≡ s.references k
    pub static : static_of t.registration ≡ static_of s.registration

  -- From `base` references and the definitions `static`, a reference was taken for each library.
  pub record IsAccounted (base : ℕ → ℕ) (static : Static P) (s : Process P E) : Type 0 where
    pub counted : (k : ℕ) → s.references k ≡ base k + count_handle k s.libraries
    pub kept : static_of s.registration ≡ static

  pub IsAccounted-SameBooks :
      {base : ℕ → ℕ} {static : Static P} (s t : Process P E)
      → SameBooks s t
      → IsAccounted base static s
      → IsAccounted base static t
  IsAccounted-SameBooks s t same h = record {
    counted = λ k. rw (same.references k, same.libraries) (h.counted k);
    kept = same.static ∙ h.kept;
  }

  pub SameBooks-trans : (s t u : Process P E) → SameBooks s t → SameBooks t u → SameBooks s u
  SameBooks-trans s t u h k = record {
    libraries = k.libraries ∙ h.libraries;
    references = λ i. k.references i ∙ h.references i;
    static = k.static ∙ h.static;
  }

  abbrev pub same : (s : Process P E) → SameBooks s s
  same s = record { libraries = refl; references = λ k. refl; static = refl }
