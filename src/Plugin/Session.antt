-- ===== src/Plugin/Session.antt =====
-- `PluginSession` (cucumber_cpp/library/Application.cpp), which lives while plugins are used.
pub mod Laws
use amp_cucumber_cpp_runner.Prelude.{String, Option, none, some, List, [], ◌∷◌}
use amp_cucumber_cpp_runner.Platform.{Platform}
use amp_cucumber_cpp_runner.Application.{FileSystem}
use amp_cucumber_cpp_runner.Support.DefinitionRegistration.{take_snapshot, unregister_plugins}
use amp_cucumber_cpp_runner.Plugin.Process.{Expressions, Loader, Process}
use amp_cucumber_cpp_runner.Plugin.Manager.{PluginError, Host, load, unload_all}

module _ {P : Platform} {E : Expressions} where
  -- `Cleanup`, which the destructor calls
  unfoldable pub cleanup : Process P E → Process P E
  unfolding unload_all
  cleanup s = unload_all (record s {
    registration = unregister_plugins s.registration;
    converters = E.restore_converters s.converters;
  })

  -- The snapshots of the constructor
  unfoldable pub take_snapshots : Process P E → Process P E
  take_snapshots s = record s {
    registration = take_snapshot s.registration;
    converters = E.save_converters s.converters;
  }

  abbrev pub cleanup_on_error : Option PluginError × Process P E → Option PluginError × Process P E
  cleanup_on_error (none, s) = (none, s)
  cleanup_on_error (some e, s) = (some e, cleanup s)

  module _ (files : FileSystem) (host : Host) (loader : Loader P) where
    -- `PluginSession::PluginSession`
    unfoldable pub start_session : List String → Process P E → Option PluginError × Process P E
    unfolding take_snapshots
    start_session paths s = cleanup_on_error (load files host loader paths (take_snapshots s))

    -- The destructor, after what is done with the plugins
    abbrev pub end_session {ℓ} :
        {A : Type ℓ}
        → (Process P E → A × Process P E)
        → Option PluginError × Process P E
        → Option A × Process P E
    end_session body (some e, s) = (none, s)
    end_session body (none, s) = let (a, t) = body s in (some a, cleanup t)

    -- From `Application::Run`, which starts a session if there are paths to load from, to
    -- `Application::~Application`, which ends it: what `body` answers, or none if the session throws
    unfoldable pub with_session {ℓ} :
        {A : Type ℓ}
        → List String
        → (Process P E → A × Process P E)
        → Process P E
        → Option A × Process P E
    unfolding start_session cleanup
    with_session [] body s = let (a, t) = body s in (some a, t)
    with_session (path ∷ paths) body s = end_session body (start_session (path ∷ paths) s)
