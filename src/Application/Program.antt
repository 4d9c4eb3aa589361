-- ===== src/Application/Program.antt =====
-- `Application::Run` with the plugins that it loads (cucumber_cpp/library/Application.cpp), up to the
-- end of the application, when they are unloaded.
use amp_cucumber_cpp_runner.Prelude.{
  ℕ, ◌≡◌, ◌↔◌, refl, String, true, false, Option, none, some, List, [], ◌∷◌, arith,
}
use amp_cucumber_cpp_runner.Platform.{Platform}
use amp_cucumber_cpp_runner.World.{World, Result, ok}
use amp_cucumber_cpp_runner.Support.DefinitionRegistration.{DefinitionRegistration}
use amp_cucumber_cpp_runner.Plugin.ParameterLoader.{ParameterLibrary}
use amp_cucumber_cpp_runner.Api.RunCucumber.{Libraries}
use amp_cucumber_cpp_runner.Application.{FileSystem, Options, run_passed, run_application}
use amp_cucumber_cpp_runner.Application.Laws.{run_application-passed}
use amp_cucumber_cpp_runner.Plugin.Process.{Expressions, Loader, Process}
use amp_cucumber_cpp_runner.Plugin.Manager.{PluginError, Host}
use amp_cucumber_cpp_runner.Plugin.Session.{start_session, end_session, with_session}

-- What `Application::Run` returns: what the work answers, or the exit code of the handler of a
-- `PluginError`.
abbrev pub exit_of : {W : Type 0} → W → Option (Result ℕ × W) → Result ℕ × W
exit_of w none = (ok 1, w)
exit_of w (some answer) = answer

module _ {P : Platform} (files : FileSystem) (L : Libraries) (depth : ℕ)
    (parameters : ParameterLibrary) where
  -- The run passes with the definitions of a registration.
  abbrev pub HasPassed : Options → World P → DefinitionRegistration P → Type 0
  HasPassed options w r = (run_passed files L depth parameters r options w).0 ≡ ok true

module _ {P : Platform} {E : Expressions} (files : FileSystem) (host : Host)
    (loader : Loader P) where
  -- The state in which the work begins, and the error if it does not
  abbrev pub begin : List String → Process P E → Option PluginError × Process P E
  begin [] s = (none, s)
  begin (path ∷ paths) s = start_session files host loader (path ∷ paths) s

module _ {P : Platform} {E : Expressions} (files : FileSystem) (host : Host) (loader : Loader P)
    (L : Libraries) (depth : ℕ) (parameters : ParameterLibrary) where
  -- What is done while the plugins are loaded. Ids are given to the definitions anew by every
  -- run, and not kept.
  abbrev pub work : Options → World P → Process P E → (Result ℕ × World P) × Process P E
  work options w s = (run_application files L depth parameters s.registration options w, s)

  -- `Application::Run`, behind the parsing of the command line, and `Application::~Application`
  unfoldable pub run_program : Options → World P → Process P E → (Result ℕ × World P) × Process P E
  unfolding with_session
  run_program options w s =
      let (answer, t) = with_session files host loader options.load_paths (work options w) s in
      (exit_of w answer, t)

  ended-passed :
      (options : Options) (w : World P) (begun : Option PluginError × Process P E)
      → options.list_scenarios ≡ false
      → ((exit_of w (end_session files host loader (work options w) begun).0).0 ≡ ok 0)
        ↔ ((begun.0 ≡ none) × HasPassed files L depth parameters options w begun.1.registration)
  ended-passed options w (some e, s) h = (λ exit. ground (arith, exit), λ p. cc p.0)
  ended-passed options w (none, s) h =
      let passed = run_application-passed files L depth parameters s.registration options w h in
      ((λ exit. (refl, passed.0 exit)), λ p. passed.1 p.1)

  ended-unchanged :
      (options : Options) (w : World P) (begun : Option PluginError × Process P E) (e : PluginError)
      → begun.0 ≡ some e
      → (exit_of w (end_session files host loader (work options w) begun).0).1 ≡ w
  ended-unchanged options w (some f, s) e h = refl
  ended-unchanged options w (none, s) e h = cc

  -- What `with_session` leaves of the work, and of the state where it does not begin
  session-passed :
      (paths : List String) (options : Options) (w : World P) (s : Process P E)
      → options.list_scenarios ≡ false
      → let answer = (with_session files host loader paths (work options w) s).0 in
        (((exit_of w answer).0 ≡ ok 0) ↔ (
          ((begin files host loader paths s).0 ≡ none)
          × HasPassed files L depth parameters options w
              (begin files host loader paths s).1.registration))
        × ((e : PluginError)
            → (begin files host loader paths s).0 ≡ some e
            → (exit_of w answer).1 ≡ w)
  unfolding with_session
  session-passed [] options w s h = (ended-passed options w (none, s) h, λ e failed. cc failed)
  session-passed (path ∷ paths) options w s h =
      let begun = start_session files host loader (path ∷ paths) s in
      (ended-passed options w begun h, ended-unchanged options w begun)

  -- Without `--list-scenarios` the program exits with the code of success exactly if all plugins
  -- load and the run, with the definitions that are registered then, passes. If a plugin does not
  -- load, nothing is broadcast or run.
  pub run_program-passed :
      (options : Options) (w : World P) (s : Process P E)
      → options.list_scenarios ≡ false
      → (((run_program options w s).0.0 ≡ ok 0) ↔ (
          ((begin files host loader options.load_paths s).0 ≡ none)
          × HasPassed files L depth parameters options w
              (begin files host loader options.load_paths s).1.registration))
        × ((e : PluginError)
            → (begin files host loader options.load_paths s).0 ≡ some e
            → (run_program options w s).0.1 ≡ w)
  unfolding run_program
  run_program-passed options w s h = session-passed options.load_paths options w s h
