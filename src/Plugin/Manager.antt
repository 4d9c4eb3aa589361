-- ===== src/Plugin/Manager.antt =====
-- `DynamicLibraryManager` (cucumber_cpp/library/plugin/DynamicLibraryManager.cpp): which libraries
-- it opens for some paths, and what it does with them.
pub mod Laws
pub mod Planned
use Prim.Native.Nat as Nat
use amp_cucumber_cpp_runner.Prelude.{
  ℕ, String, Bool, true, false, ◌&&◌, Option, none, some, List, [], ◌∷◌, ◌++◌, str_eq, keep_if,
  if◌then◌else◌,
}
use amp_cucumber_cpp_runner.Platform.{Platform}
use amp_cucumber_cpp_runner.Application.{FileSystem}
use amp_cucumber_cpp_runner.Plugin.Process.{
  Expressions, Image, Loader, DynamicLibrary, Process, open_library, close_library,
}
use amp_cucumber_cpp_runner.Plugin.Register.{PluginHostContext, ccr_register}

-- `PluginError`, with the path that its text names
pub data PluginError : Type 0 where
  unresolved no_file_or_directory wrong_extension not_opened no_register_symbol :
      (path : String) → PluginError

-- The addresses of the host's objects, and the constants that the host was compiled with
pub record Host : Type 0 where
  pub abi_version : ℕ
  pub struct_size : ℕ
  pub stopwatch : ℕ
  pub timestamp_generator : ℕ
  pub converter_map : ℕ

module _ (files : FileSystem) where
  -- `std::ranges::sort` of paths, of which no two are equal in their order
  unfoldable pub insert_path : String → List String → List String
  insert_path path [] = path ∷ []
  insert_path path (other ∷ paths) = elim (files.compare_paths path other) [
    | Nat.Ordering.gt ↦ other ∷ insert_path path paths
    | _ ↦ path ∷ other ∷ paths
  ]

  unfoldable pub sort_paths : List String → List String
  unfolding insert_path
  sort_paths [] = []
  sort_paths (path ∷ paths) = insert_path path (sort_paths paths)

  module _ (extension : String) where
    abbrev pub is_library : String → Bool
    is_library path = files.is_regular_file path && str_eq (files.extension path) extension

    -- The paths that `LoadDirectory` loads
    unfoldable pub libraries_in : String → List String
    unfolding sort_paths
    libraries_in directory = sort_paths (keep_if is_library (files.entries directory))

module _ {P : Platform} {E : Expressions} (files : FileSystem) (host : Host)
    (loader : Loader P) where
  -- The context of `LoadFile`
  abbrev pub host_context : Process P E → PluginHostContext
  host_context s = record {
    abi_version = host.abi_version;
    struct_size = host.struct_size;
    registration = some s.registration.address;
    stopwatch = some host.stopwatch;
    timestamp_generator = some host.timestamp_generator;
    converter_map = some host.converter_map;
  }

  -- The call of `ccr_register`, if the library has it
  unfoldable pub call_register : String → Image P → Process P E → Option PluginError × Process P E
  call_register path image s =
      if image.exports_register
      then (none, ccr_register image (some (host_context s)) s)
      else (some (PluginError.no_register_symbol path), s)

  -- `libraries.emplace_back`, and what follows it
  unfoldable pub add_library :
      String → Option (DynamicLibrary × Image P) × Process P E → Option PluginError × Process P E
  unfolding call_register
  add_library path (none, s) = (some (PluginError.not_opened path), s)
  add_library path (some (library, image), s) =
      call_register path image (record s { libraries = s.libraries ++ (library ∷ []) })

  -- `LoadFile`
  unfoldable pub load_file : String → Process P E → Option PluginError × Process P E
  unfolding add_library open_library
  load_file path s =
      if str_eq (files.extension path) loader.platform_extension
      then add_library path (open_library loader path s)
      else (some (PluginError.wrong_extension path), s)

  -- What comes after a call, unless it threw
  abbrev pub and_then :
      Option PluginError × Process P E
      → (Process P E → Option PluginError × Process P E)
      → Option PluginError × Process P E
  and_then (some e, s) next = (some e, s)
  and_then (none, s) next = next s

  -- The second loop of `LoadDirectory`
  unfoldable pub load_files : List String → Process P E → Option PluginError × Process P E
  unfolding load_file
  load_files [] s = (none, s)
  load_files (path ∷ paths) s = and_then (load_file path s) (load_files paths)

  -- `LoadDirectory`
  unfoldable pub load_directory : String → Process P E → Option PluginError × Process P E
  unfolding load_files libraries_in
  load_directory directory = load_files (libraries_in files loader.platform_extension directory)

  -- `ResolvePluginPath`, and the body of the loop of `Load`
  unfoldable pub load_resolved :
      String → Option String → Process P E → Option PluginError × Process P E
  unfolding load_directory load_file
  load_resolved path none s = (some (PluginError.unresolved path), s)
  load_resolved path (some resolved) s =
      if files.is_directory resolved
      then load_directory resolved s
      else if files.is_regular_file resolved
      then load_file resolved s
      else (some (PluginError.no_file_or_directory path), s)

  -- `Load`
  unfoldable pub load : List String → Process P E → Option PluginError × Process P E
  unfolding load_resolved
  load [] s = (none, s)
  load (path ∷ paths) s = and_then (load_resolved path (loader.canonical path) s) (load paths)

module _ {P : Platform} {E : Expressions} where
  unfoldable pub close_libraries : List DynamicLibrary → Process P E → Process P E
  unfolding close_library
  close_libraries [] s = s
  close_libraries (library ∷ libraries) s = close_libraries libraries (close_library library s)

  -- `UnloadAll`
  unfoldable pub unload_all : Process P E → Process P E
  unfolding close_libraries
  unload_all s = record (close_libraries s.libraries s) { libraries = [] }
