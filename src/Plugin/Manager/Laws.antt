-- ===== src/Plugin/Manager/Laws.antt =====
-- Which libraries `Load` opens, and in which order:
-- cucumber_cpp/library/plugin/DynamicLibraryManager.cpp.
use amp_cucumber_cpp_runner.Prelude.{
  ◌≡◌, refl, ap, ◌∙◌, inl, inr, String, Option, none, some, List, [], ◌∷◌, ◌++◌, str_eq, eq_iff,
  map, map-append, append_assoc, append-nil, All, All-append, Bool-cases, if◌then◌else◌,
}
use amp_cucumber_cpp_runner.Platform.{Platform}
use amp_cucumber_cpp_runner.Application.{FileSystem}
use amp_cucumber_cpp_runner.Plugin.Process.{
  Expressions, Image, Loader, Process, map_image, opened, open_library,
}
use amp_cucumber_cpp_runner.Plugin.Manager.{
  PluginError, Host, call_register, add_library, load_file, and_then, load_files, load_directory,
  load_resolved, load, libraries_in, host_context,
}
use amp_cucumber_cpp_runner.Plugin.Books.Loading.{ccr_register-SameBooks}

module _ {P : Platform} (files : FileSystem) (loader : Loader P) where
  -- The libraries that a path stands for: those in a directory, or the file itself
  abbrev pub expand : Option String → List String
  expand none = []
  expand (some full) =
      if files.is_directory full
      then libraries_in files loader.platform_extension full
      else if files.is_regular_file full
      then full ∷ []
      else []

  abbrev pub plan : List String → List String
  plan [] = []
  plan (path ∷ paths) = expand (loader.canonical path) ++ plan paths

  abbrev pub HasExtension : String → Type 0
  HasExtension path = files.extension path ≡ loader.platform_extension

abbrev pub paths_of : {P : Platform} {E : Expressions} → Process P E → List String
paths_of s = map (λ library. library.path) s.libraries

module _ {P : Platform} {E : Expressions} (files : FileSystem) (host : Host)
    (loader : Loader P) where
  -- Of the libraries `planned`, a first part was opened, in order and under its canonical paths;
  -- all were, if there was no error.
  pub record IsLoaded (planned : List String) (s : Process P E)
      (r : Option PluginError × Process P E) : Type 0 where
    pub done : List String
    pub left : List String
    pub first_part : planned ≡ done ++ left
    pub libraries : paths_of r.1 ≡ paths_of s ++ map loader.weakly_canonical done
    pub complete : r.0 ≡ none → left ≡ []
    pub extensions : All (HasExtension files loader) done

  nothing-IsLoaded : (s : Process P E) → IsLoaded [] s (none, s)
  nothing-IsLoaded s = record {
    done = [];
    left = [];
    first_part = refl;
    libraries = simp append-nil;
    complete = λ h. refl;
    extensions = tt;
  }

  error-IsLoaded :
      (planned : List String) (e : PluginError) (s : Process P E) → IsLoaded planned s (some e, s)
  error-IsLoaded planned e s = record {
    done = [];
    left = planned;
    first_part = refl;
    libraries = simp append-nil;
    complete = λ h. cc;
    extensions = tt;
  }

  and_then-IsLoaded :
      (first second : List String) (s : Process P E) (r : Option PluginError × Process P E)
      (next : Process P E → Option PluginError × Process P E)
      → IsLoaded first s r
      → ((t : Process P E) → IsLoaded second t (next t))
      → IsLoaded (first ++ second) s (and_then files host loader r next)
  and_then-IsLoaded first second s (some e, t) next h k = record {
    done = h.done;
    left = h.left ++ second;
    first_part = ap (λ l. l ++ second) h.first_part ∙ append_assoc h.done h.left second;
    libraries = h.libraries;
    complete = λ failed. cc;
    extensions = h.extensions;
  }
  and_then-IsLoaded first second s (none, t) next h k =
      let rest = k t in
      record {
        done = h.done ++ rest.done;
        left = rest.left;
        first_part =
            simp (h.first_part, h.complete refl, append-nil, rest.first_part, append_assoc);
        libraries = simp (rest.libraries, h.libraries, map-append, append_assoc);
        complete = rest.complete;
        extensions =
            All-append (HasExtension files loader) h.done rest.done h.extensions rest.extensions;
      }

  call_register-libraries :
      (path : String) (image : Image P) (s : Process P E)
      → (call_register files host loader path image s).1.libraries ≡ s.libraries
  unfolding call_register
  call_register-libraries path image s = elim (Bool-cases image.exports_register) [
    | inr missing ↦ simp missing
    | inl exported ↦
        simp exported
          (ccr_register-SameBooks image (some (host_context files host loader s)) s).libraries
  ]

  add_library-IsLoaded :
      (path : String) (found : Option (Image P)) (s : Process P E)
      → HasExtension files loader path
      → IsLoaded
          (path ∷ [])
          s
          (add_library files host loader path (opened (loader.weakly_canonical path) found s))
  unfolding add_library opened map_image
  add_library-IsLoaded path none s h = error-IsLoaded (path ∷ []) _ s
  add_library-IsLoaded path (some image) s h = record {
    done = path ∷ [];
    left = [];
    first_part = refl;
    libraries =
        ap (map (λ library. library.path)) (call_register-libraries path image _)
        ∙ map-append (λ library. library.path) s.libraries _;
    complete = λ e. refl;
    extensions = (h, tt);
  }

  load_file-IsLoaded :
      (path : String) (s : Process P E)
      → IsLoaded (path ∷ []) s (load_file files host loader path s)
  unfolding load_file open_library
  load_file-IsLoaded path s =
      elim (Bool-cases (str_eq (files.extension path) loader.platform_extension)) [
        | inl right ↦
            rw right (add_library-IsLoaded path _ s ((eq_iff (files.extension path) _).0 right))
        | inr wrong ↦ rw wrong (error-IsLoaded (path ∷ []) _ s)
      ]

  load_files-IsLoaded :
      (paths : List String) (s : Process P E)
      → IsLoaded paths s (load_files files host loader paths s)
  unfolding load_files
  load_files-IsLoaded [] s = nothing-IsLoaded s
  load_files-IsLoaded (path ∷ paths) s =
      and_then-IsLoaded (path ∷ []) paths s (load_file files host loader path s) _
        (load_file-IsLoaded path s) (load_files-IsLoaded paths)

  load_resolved-IsLoaded :
      (path : String) (resolved : Option String) (s : Process P E)
      → IsLoaded (expand files loader resolved) s (load_resolved files host loader path resolved s)
  unfolding load_resolved load_directory
  load_resolved-IsLoaded path none s = error-IsLoaded [] _ s
  load_resolved-IsLoaded path (some full) s = elim (Bool-cases (files.is_directory full)) [
    | inl directory ↦ rw directory (load_files-IsLoaded _ s)
    | inr no_directory ↦ elim (Bool-cases (files.is_regular_file full)) [
      | inl regular ↦ rw (no_directory, regular) (load_file-IsLoaded full s)
      | inr other ↦ rw (no_directory, other) (error-IsLoaded [] _ s)
    ]
  ]

  -- `Load` opens a first part of its plan, and all of it if it does not throw.
  pub load-IsLoaded :
      (paths : List String) (s : Process P E)
      → IsLoaded (plan files loader paths) s (load files host loader paths s)
  unfolding load
  load-IsLoaded [] s = nothing-IsLoaded s
  load-IsLoaded (path ∷ paths) s =
      and_then-IsLoaded (expand files loader (loader.canonical path)) (plan files loader paths) s
        (load_resolved files host loader path (loader.canonical path) s) _
        (load_resolved-IsLoaded path (loader.canonical path) s) (load-IsLoaded paths)
