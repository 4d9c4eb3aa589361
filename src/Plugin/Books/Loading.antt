-- ===== src/Plugin/Books/Loading.antt =====
-- The calls that load plugins keep the books: cucumber_cpp/library/plugin/DynamicLibraryManager.cpp
-- and cucumber_cpp/library/plugin/PluginRegister.cpp.
use amp_cucumber_cpp_runner.Prelude.{
  ℕ, refl, ◌∙◌, inl, inr, String, Option, none, some, List, [], ◌∷◌, ◌++◌, ◌==◌, str_eq, arith, ltb,
  Bool-cases,
}
use amp_cucumber_cpp_runner.Platform.{Platform}
use amp_cucumber_cpp_runner.Application.{FileSystem}
use amp_cucumber_cpp_runner.Plugin.Process.{
  Expressions, Image, Loader, Process, plugin_of, map_image, opened, open_library,
}
use amp_cucumber_cpp_runner.Plugin.Register.{
  PluginHostContext, share_converters, redirect_stopwatch, redirect_timestamps, share, ccr_register,
  is_some,
}
use amp_cucumber_cpp_runner.Plugin.Manager.{
  PluginError, Host, call_register, add_library, load_file, and_then, load_files, load_directory,
  load_resolved, load, host_context,
}
use amp_cucumber_cpp_runner.Plugin.Books.{
  Static, static-register_plugin, static-initialise_shared, count_handle-append, SameBooks,
  SameBooks-trans, same, IsAccounted, IsAccounted-SameBooks,
}

module _ {P : Platform} {E : Expressions} where
  share_converters-SameBooks :
      (image : Image P) (map : Option ℕ) (s : Process P E)
      → SameBooks s (share_converters image map s)
  unfolding share_converters
  share_converters-SameBooks image none s = same s
  share_converters-SameBooks image (some host) s = elim (Bool-cases (image.converter_map == host)) [
    | inl shared ↦ rw shared (same s)
    | inr own ↦ rw own (record { libraries = refl; references = λ k. refl; static = refl })
  ]

  redirect_timestamps-SameBooks :
      (image : Image P) (host : Option ℕ) (s : Process P E)
      → SameBooks s (redirect_timestamps image host s)
  redirect_timestamps-SameBooks image none s = same s
  redirect_timestamps-SameBooks image (some host) s = record {
    libraries = refl;
    references = λ k. refl;
    static = refl;
  }

  redirect_stopwatch-SameBooks :
      (image : Image P) (host : Option ℕ) (s : Process P E)
      → SameBooks s (redirect_stopwatch image host s)
  redirect_stopwatch-SameBooks image none s = same s
  redirect_stopwatch-SameBooks image (some host) s = record {
    libraries = refl;
    references = λ k. refl;
    static = refl;
  }

  share-SameBooks :
      (image : Image P) (context : PluginHostContext) (s : Process P E)
      → SameBooks s (share image context s)
  unfolding share
  share-SameBooks image context s =
      SameBooks-trans s _ _
        (record {
          libraries = refl;
          references = λ k. refl;
          static = static-register_plugin (plugin_of E image) s.registration;
        })
        (SameBooks-trans _ _ _ (redirect_stopwatch-SameBooks image context.stopwatch _) (
          SameBooks-trans _ _ _ (redirect_timestamps-SameBooks image context.timestamp_generator _)
            (share_converters-SameBooks image context.converter_map _)))

  pub ccr_register-SameBooks :
      (image : Image P) (context : Option PluginHostContext) (s : Process P E)
      → SameBooks s (ccr_register image context s)
  unfolding ccr_register
  ccr_register-SameBooks image none s = same s
  ccr_register-SameBooks image (some context) s =
      elim (Bool-cases (context.abi_version == image.abi_version)) [
        | inr other ↦ rw other (same s)
        | inl current ↦ elim (Bool-cases (ltb context.struct_size image.struct_size)) [
          | inl small ↦ rw (current, small) (same s)
          | inr fits ↦ elim (Bool-cases (is_some context.registration)) [
            | inr null ↦ rw (current, fits, null) (same s)
            | inl given ↦ rw (current, fits, given) (share-SameBooks image context s)
          ]
        ]
      ]

  module _ (files : FileSystem) (host : Host) (loader : Loader P) where
    module _ {base : ℕ → ℕ} {static : Static P} where
      call_register-IsAccounted :
          (path : String) (image : Image P) (s : Process P E)
          → IsAccounted base static s
          → IsAccounted base static (call_register files host loader path image s).1
      unfolding call_register
      call_register-IsAccounted path image s h = elim (Bool-cases image.exports_register) [
        | inr missing ↦ simp missing h
        | inl exported ↦ simp exported (
            IsAccounted-SameBooks s _
              (ccr_register-SameBooks image (some (host_context files host loader s)) s) h)
      ]

      added-IsAccounted :
          (path : String) (image : Image P) (s : Process P E)
          → IsAccounted base static s
          → IsAccounted base static (record (map_image image s) {
            libraries = s.libraries ++ (record { path = path; handle = image.handle } ∷ []);
          })
      unfolding map_image
      added-IsAccounted path image s h = record {
        counted = λ k. ground (
          arith,
          h.counted k,
          count_handle-append k s.libraries (record { path = path; handle = image.handle } ∷ []),
        );
        kept = elim (Bool-cases (s.references image.handle == 0)) [
          | inl new ↦ rw new (static-initialise_shared E image s.registration ∙ h.kept)
          | inr again ↦ rw again h.kept
        ];
      }

      add_library-IsAccounted :
          (path full : String) (found : Option (Image P)) (s : Process P E)
          → IsAccounted base static s
          → IsAccounted base static (add_library files host loader path (opened full found s)).1
      unfolding add_library opened
      add_library-IsAccounted path full none s h = h
      add_library-IsAccounted path full (some image) s h =
          call_register-IsAccounted path image _ (added-IsAccounted full image s h)

      load_file-IsAccounted :
          (path : String) (s : Process P E)
          → IsAccounted base static s
          → IsAccounted base static (load_file files host loader path s).1
      unfolding load_file open_library
      load_file-IsAccounted path s h =
          elim (Bool-cases (str_eq (files.extension path) loader.platform_extension)) [
            | inl right ↦ rw right (add_library-IsAccounted path _ _ s h)
            | inr wrong ↦ rw wrong h
          ]

      and_then-IsAccounted :
          (r : Option PluginError × Process P E)
          (next : Process P E → Option PluginError × Process P E)
          → IsAccounted base static r.1
          → ((t : Process P E) → IsAccounted base static t → IsAccounted base static (next t).1)
          → IsAccounted base static (and_then files host loader r next).1
      and_then-IsAccounted (some e, s) next h keeps = h
      and_then-IsAccounted (none, s) next h keeps = keeps s h

      load_files-IsAccounted :
          (paths : List String) (s : Process P E)
          → IsAccounted base static s
          → IsAccounted base static (load_files files host loader paths s).1
      unfolding load_files
      load_files-IsAccounted [] s h = h
      load_files-IsAccounted (path ∷ paths) s h =
          and_then-IsAccounted (load_file files host loader path s) _
            (load_file-IsAccounted path s h) (load_files-IsAccounted paths)

      load_resolved-IsAccounted :
          (path : String) (resolved : Option String) (s : Process P E)
          → IsAccounted base static s
          → IsAccounted base static (load_resolved files host loader path resolved s).1
      unfolding load_resolved load_directory
      load_resolved-IsAccounted path none s h = h
      load_resolved-IsAccounted path (some full) s h = elim (Bool-cases (files.is_directory full)) [
        | inl directory ↦ rw directory (load_files-IsAccounted _ s h)
        | inr no_directory ↦ elim (Bool-cases (files.is_regular_file full)) [
          | inl regular ↦ rw (no_directory, regular) (load_file-IsAccounted full s h)
          | inr other ↦ rw (no_directory, other) h
        ]
      ]

      pub load-IsAccounted :
          (paths : List String) (s : Process P E)
          → IsAccounted base static s
          → IsAccounted base static (load files host loader paths s).1
      unfolding load
      load-IsAccounted [] s h = h
      load-IsAccounted (path ∷ paths) s h =
          and_then-IsAccounted (load_resolved files host loader path (loader.canonical path) s) _
            (load_resolved-IsAccounted path (loader.canonical path) s h) (load-IsAccounted paths)
