-- ===== src/Plugin/Process.antt =====
-- What plugins act on: the libraries that are open, and the host's registration and converters
-- (cucumber_cpp/library/plugin/DynamicLibrary.cpp). The operating system and the library of
-- expressions are parameters.
use amp_cucumber_cpp_runner.Prelude.{
  ℕ, ◌+◌, ◌-◌, String, Bool, Option, none, some, List, [], ◌==◌, if◌then◌else◌,
}
use amp_cucumber_cpp_runner.Platform.{Platform}
use amp_cucumber_cpp_runner.Support.DefinitionRegistration.{
  Location, Entry, CustomParameter, Plugin, DefinitionRegistration,
}
use amp_cucumber_cpp_runner.Support.DefinitionRegistration.Initialisers.{
  register_entries, register_parameters,
}

-- The library of expressions: the order of custom parameters, and the map from names to converters,
-- which are addresses of functions, with its snapshot.
pub record Expressions : Type 1 where
  pub less : CustomParameter → CustomParameter → Bool
  pub Converters : Type 0
  pub emplace_converter : String → ℕ → Converters → Converters
  pub save_converters : Converters → Converters
  pub restore_converters : Converters → Converters

-- A shared library as the operating system maps it
pub record Image (P : Platform) : Type 0 where
  pub handle : ℕ
  -- the address of its `DefinitionRegistration::Instance()`, the host's where the two share it,
  -- and what its static initialisers register there
  pub registration : ℕ
  pub entries : List (Location × Entry P)
  pub custom_parameters : List CustomParameter
  -- whether it exports `ccr_register`, and the constants that this was compiled with
  pub exports_register : Bool
  pub abi_version : ℕ
  pub struct_size : ℕ
  -- `ConverterRegistry::LocalInstance()`
  pub converter_map : ℕ
  pub converters : List (String × ℕ)

-- `dlopen`, which answers none where it fails, and the paths of `std::filesystem`
pub record Loader (P : Platform) : Type 0 where
  pub platform_extension : String
  pub canonical : String → Option String
  pub weakly_canonical : String → String
  pub dlopen : String → Option (Image P)

-- `DynamicLibrary`
pub record DynamicLibrary : Type 0 where
  pub path : String
  pub handle : ℕ

-- The singletons of a plugin that have been pointed at the host's, with the plugin's handle
pub data Redirection : Type 0 where
  stopwatch timestamp_generator converter_map : (handle host : ℕ) → Redirection

pub record Process (P : Platform) (E : Expressions) : Type 0 where
  pub registration : DefinitionRegistration P
  pub converters : E.Converters
  -- `DynamicLibraryManager::libraries`
  pub libraries : List DynamicLibrary
  -- how often a handle has been opened and not been closed
  pub references : ℕ → ℕ
  pub redirections : List Redirection

-- One reference more, and one less, to a handle
abbrev pub retain : ℕ → (ℕ → ℕ) → ℕ → ℕ
retain handle references other = if other == handle then references other + 1 else references other

abbrev pub release : ℕ → (ℕ → ℕ) → ℕ → ℕ
release handle references other = if other == handle then references other - 1 else references other

module _ {P : Platform} where
  module _ (E : Expressions) where
    -- The static initialisers of a library, on the instance that it has
    unfoldable pub initialise : Image P → DefinitionRegistration P → DefinitionRegistration P
    unfolding register_entries register_parameters
    initialise image r =
        register_parameters E.less image.custom_parameters (register_entries image.entries r)

    -- The instance of a plugin that does not share the host's
    unfoldable pub plugin_of : Image P → Plugin P
    unfolding initialise
    plugin_of image =
        let filled : DefinitionRegistration P = initialise image (record {
          address = image.registration;
          registry = [];
          custom_parameters = [];
          plugins = [];
          static_registry = [];
          static_custom_parameters = [];
        }) in
        record {
          address = image.registration;
          registry = filled.registry;
          custom_parameters = filled.custom_parameters;
        }

    unfoldable pub initialise_shared : Image P → DefinitionRegistration P → DefinitionRegistration P
    unfolding initialise
    initialise_shared image r = if image.registration == r.address then initialise image r else r

  module _ {E : Expressions} where
    -- `dlopen` of an image runs its initialisers if it was not open.
    unfoldable pub map_image : Image P → Process P E → Process P E
    unfolding initialise_shared
    map_image image s = record s {
      registration =
          if s.references image.handle == 0
          then initialise_shared E image s.registration
          else s.registration;
      references = retain image.handle s.references;
    }

    -- What `dlopen` makes of the library at a path
    unfoldable pub opened :
        String → Option (Image P) → Process P E → Option (DynamicLibrary × Image P) × Process P E
    unfolding map_image
    opened path none s = (none, s)
    opened path (some image) s =
        (some (record { path = path; handle = image.handle }, image), map_image image s)

    -- `DynamicLibrary::DynamicLibrary`: the library and its image, or none where it throws
    unfoldable pub open_library :
        Loader P → String → Process P E → Option (DynamicLibrary × Image P) × Process P E
    unfolding opened
    open_library loader path s =
        let canonical_path = loader.weakly_canonical path in
        opened canonical_path (loader.dlopen canonical_path) s

    -- `DynamicLibrary::~DynamicLibrary`
    unfoldable pub close_library : DynamicLibrary → Process P E → Process P E
    close_library library s = record s { references = release library.handle s.references }
