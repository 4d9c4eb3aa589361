-- ===== src/Plugin/Session/Laws.antt =====
-- What a session of plugins leaves behind: `PluginSession` of cucumber_cpp/library/Application.cpp.
use amp_cucumber_cpp_runner.Prelude.{
  ℕ, ◌+◌, ◌≡◌, refl, String, Option, none, some, List, [], ◌∷◌, arith,
}
use amp_cucumber_cpp_runner.Platform.{Platform}
use amp_cucumber_cpp_runner.Application.{FileSystem}
use amp_cucumber_cpp_runner.Support.DefinitionRegistration.{take_snapshot, unregister_plugins}
use amp_cucumber_cpp_runner.Plugin.Process.{
  Expressions, Loader, DynamicLibrary, Process, close_library,
}
use amp_cucumber_cpp_runner.Plugin.Manager.{PluginError, Host, close_libraries, unload_all}
use amp_cucumber_cpp_runner.Plugin.Session.{
  cleanup, take_snapshots, cleanup_on_error, start_session, end_session, with_session,
}
use amp_cucumber_cpp_runner.Plugin.Books.{
  Static, static_of, count_handle, SameBooks, IsAccounted, IsAccounted-SameBooks,
}
use amp_cucumber_cpp_runner.Plugin.Books.Loading.{load-IsAccounted}

module _ {P : Platform} {E : Expressions} where
  -- No plugin is left: no library is open, each handle has its former references, and the
  -- definitions `static` are all that the host has.
  pub record IsRestored (base : ℕ → ℕ) (static : Static P) (s : Process P E) : Type 0 where
    pub no_libraries : s.libraries ≡ []
    pub references : (k : ℕ) → s.references k ≡ base k
    pub no_plugins : s.registration.plugins ≡ []
    pub no_entries : s.registration.registry ≡ []
    pub no_parameters : s.registration.custom_parameters ≡ []
    pub own_definitions : static_of s.registration ≡ static

  close_libraries-references :
      (base : ℕ → ℕ) (libraries : List DynamicLibrary) (s : Process P E)
      → ((k : ℕ) → s.references k ≡ base k + count_handle k libraries)
      → (k : ℕ) → (close_libraries libraries s).references k ≡ base k
  unfolding close_libraries close_library
  close_libraries-references base [] s h k = omega (arith, h k)
  close_libraries-references base (library ∷ libraries) s h k =
      close_libraries-references base libraries (close_library library s) (λ j. ground (arith, h j))
        k

  close_libraries-registration :
      (libraries : List DynamicLibrary) (s : Process P E)
      → (close_libraries libraries s).registration ≡ s.registration
  unfolding close_libraries close_library
  close_libraries-registration [] s = refl
  close_libraries-registration (library ∷ libraries) s =
      close_libraries-registration libraries (close_library library s)

  snapshot-IsAccounted :
      (s : Process P E)
      → s.libraries ≡ []
      → IsAccounted s.references (static_of (take_snapshot s.registration)) (take_snapshots s)
  unfolding take_snapshots
  snapshot-IsAccounted s closed = record { counted = λ k. simp closed (omega arith); kept = refl }

  module _ {base : ℕ → ℕ} {static : Static P} where
    cleanup-IsRestored :
        (s : Process P E) → IsAccounted base static s → IsRestored base static (cleanup s)
    unfolding cleanup unload_all unregister_plugins
    cleanup-IsRestored s h = record {
      no_libraries = refl;
      references = close_libraries-references base s.libraries _ h.counted;
      no_plugins = rw (close_libraries-registration s.libraries _) refl;
      no_entries = rw (close_libraries-registration s.libraries _) refl;
      no_parameters = rw (close_libraries-registration s.libraries _) refl;
      own_definitions = rw (close_libraries-registration s.libraries _) h.kept;
    }

    end_session-IsRestored {ℓ} :
        {A : Type ℓ} (files : FileSystem) (host : Host) (loader : Loader P)
        (body : Process P E → A × Process P E) (r : Option PluginError × Process P E)
        → ((t : Process P E) → SameBooks t (body t).1)
        → IsAccounted base static r.1
        → IsRestored base static (end_session files host loader body (cleanup_on_error r)).1
    end_session-IsRestored files host loader body (some e, s) same h = cleanup-IsRestored s h
    end_session-IsRestored files host loader body (none, s) same h =
        cleanup-IsRestored (body s).1 (IsAccounted-SameBooks s _ (same s) h)

  module _ (files : FileSystem) (host : Host) (loader : Loader P) where
    -- A session of plugins leaves nothing behind, whether all paths load or one of them throws:
    -- where no library was open before, and the work that is done meanwhile opens and closes none
    -- and changes the host's snapshot in its ids alone, no library is open afterwards, every handle
    -- has as many references as before, no plugin and no definition or parameter of one is
    -- registered, and the host's own definitions are those that the snapshot took.
    pub with_session-IsRestored {ℓ} :
        {A : Type ℓ} (path : String) (paths : List String) (body : Process P E → A × Process P E)
        (s : Process P E)
        → ((t : Process P E) → SameBooks t (body t).1)
        → s.libraries ≡ []
        → IsRestored s.references
            (static_of (take_snapshot s.registration))
            (with_session files host loader (path ∷ paths) body s).1
    unfolding with_session start_session
    with_session-IsRestored path paths body s same closed =
        end_session-IsRestored files host loader body _ same (
          load-IsAccounted files host loader (path ∷ paths) (take_snapshots s)
            (snapshot-IsAccounted s closed))
