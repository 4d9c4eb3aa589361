-- ===== src/Tests/Plugin.antt =====
-- Plugins at small inputs: cucumber_cpp/library/plugin.
use Prim.Native.String.{compare}
use amp_cucumber_cpp_runner.Prelude.{
  ℕ, ◌+◌, ◌≡◌, ◌↔◌, refl, String, true, false, none, some, List, [], ◌∷◌, texts-IsOrder, str_eq,
  if◌then◌else◌,
}
use amp_cucumber_cpp_runner.Application.{FileSystem}
use amp_cucumber_cpp_runner.Support.DefinitionRegistration.{Entry, take_snapshot, load_ids}
use amp_cucumber_cpp_runner.Plugin.Process.{Expressions, Image, Loader, Process}
use amp_cucumber_cpp_runner.Plugin.Manager.{
  Host, PluginError, load, load_resolved, load_file, add_library, call_register, load_directory,
  load_files, libraries_in, sort_paths, insert_path,
}
use amp_cucumber_cpp_runner.Plugin.Manager.Laws.{IsLoaded}
use amp_cucumber_cpp_runner.Plugin.Manager.Planned.{IsPlanOf, load-IsPlanned}
use amp_cucumber_cpp_runner.Plugin.Books.{SameBooks, static_of, static-load_ids}
use amp_cucumber_cpp_runner.Plugin.Session.{with_session}
use amp_cucumber_cpp_runner.Plugin.Session.Laws.{IsRestored, with_session-IsRestored}
use amp_cucumber_cpp_runner.Application.Program.{HasPassed, begin, run_program, run_program-passed}
use amp_cucumber_cpp_runner.World.{ok}
use amp_cucumber_cpp_runner.Tests.Sample.{plain, entry, flaky, world}
use amp_cucumber_cpp_runner.Tests.Api.{registration, libraries, parameters, options}

abbrev expressions : Expressions
expressions = record {
  less = λ p q. false;
  Converters = ℕ × ℕ;
  emplace_converter = λ name converter map. (map.0 + 1, map.1);
  save_converters = λ map. (map.0, map.0);
  restore_converters = λ map. (map.1, map.1);
}

abbrev files : FileSystem
files = record {
  is_directory = λ path. str_eq path "/plugins";
  is_regular_file = λ path. true;
  extension = λ path. if str_eq path "/plugins/readme" then "" else ".so";
  entries = λ path. "/plugins/b" ∷ "/plugins/readme" ∷ "/plugins/a" ∷ [];
  recursive_entries = λ path. [];
  compare_paths = compare;
}

abbrev host : Host
host = record {
  abi_version = 1;
  struct_size = 40;
  stopwatch = 8;
  timestamp_generator = 16;
  converter_map = 24;
}

-- A library that shares the host's instance, and one that has its own
abbrev image : String → ℕ → ℕ → Image plain
image text handle instance_address = record {
  handle = handle;
  registration = instance_address;
  entries = (("plugin.cpp", handle), Entry.of_step (entry "unassigned" text flaky)) ∷ [];
  custom_parameters = [];
  exports_register = true;
  abi_version = 1;
  struct_size = 40;
  converter_map = instance_address;
  converters = [];
}

abbrev loader : Loader plain
loader = record {
  platform_extension = ".so";
  canonical = λ path. if str_eq path "missing" then none else some path;
  weakly_canonical = λ path. path;
  dlopen = λ path.
      if str_eq path "/plugins/a"
      then some (image "shared" 5 registration.address)
      else if str_eq path "/plugins/b"
      then some (image "own" 6 9000)
      else none;
}

abbrev process : Process plain expressions
process = record {
  registration = registration;
  converters = (3, 0);
  libraries = [];
  references = λ handle. 0;
  redirections = [];
}

abbrev run_body : Process plain expressions → ℕ × Process plain expressions
run_body s = (0, record s { registration = load_ids 7 s.registration })

run_body-SameBooks : (s : Process plain expressions) → SameBooks s (run_body s).1
run_body-SameBooks s = record {
  libraries = refl;
  references = λ k. refl;
  static = static-load_ids 7 s.registration;
}

with_session-IsRestored_example :
    IsRestored
      (λ handle. 0)
      (static_of (take_snapshot registration))
      (with_session files host loader ("/plugins" ∷ "missing" ∷ []) run_body process).1
with_session-IsRestored_example =
    with_session-IsRestored files host loader "/plugins" ("missing" ∷ []) run_body process
      run_body-SameBooks refl

load-IsPlanned_example :
    (planned : List String) × IsPlanOf files loader ("/plugins" ∷ "missing" ∷ []) planned
    × IsLoaded files host loader planned process
        (load files host loader ("/plugins" ∷ "missing" ∷ []) process)
load-IsPlanned_example =
    load-IsPlanned files host loader ("/plugins" ∷ "missing" ∷ []) process texts-IsOrder.flip

-- The libraries of a directory are opened in the order of their paths, and stay open at an error.
loading :
    (load files host loader ("/plugins" ∷ "missing" ∷ []) process).0
    ≡ some (PluginError.unresolved "missing")
unfolding load load_resolved load_file add_library call_register load_directory load_files
    libraries_in sort_paths insert_path
loading = refl

run_program-passed_example :
    (((run_program files host loader libraries 3 parameters
          (record options { load_paths = "/plugins" ∷ "missing" ∷ [] })
          world
          process).0.0
        ≡ ok 0)
      ↔ (((begin files host loader ("/plugins" ∷ "missing" ∷ []) process).0 ≡ none)
          × HasPassed files libraries 3 parameters
              (record options { load_paths = "/plugins" ∷ "missing" ∷ [] })
              world
              (begin files host loader ("/plugins" ∷ "missing" ∷ []) process).1.registration))
    × ((e : PluginError)
        → (begin files host loader ("/plugins" ∷ "missing" ∷ []) process).0 ≡ some e
        → (run_program files host loader libraries 3 parameters
            (record options { load_paths = "/plugins" ∷ "missing" ∷ [] })
            world
            process).0.1
          ≡ world)
run_program-passed_example =
    run_program-passed files host loader libraries 3 parameters
      (record options { load_paths = "/plugins" ∷ "missing" ∷ [] }) world process refl
