-- ===== src/Plugin/Manager/Planned.antt =====
-- What `Load` opens, against a description of its paths:
-- cucumber_cpp/library/plugin/DynamicLibraryManager.cpp.
use Prim.Native.Nat as Nat
use mathlib.Core.List.Perm
use mathlib.Core.List.{Perm}
use amp_cucumber_cpp_runner.Prelude.{
  ◌≡◌, ◌≢◌, refl, sym, ◌∙◌, ap, String, true, false, ◌&&◌, Option, none, some, List, [], ◌∷◌, ◌++◌,
  str_eq, keep_if, opposite, is_lt, is_eq, is_gt, ordering_cases,
}
use amp_cucumber_cpp_runner.Platform.{Platform}
use amp_cucumber_cpp_runner.Application.{FileSystem}
use amp_cucumber_cpp_runner.Plugin.Process.{Expressions, Loader, Process}
use amp_cucumber_cpp_runner.Plugin.Manager.{
  Host, is_library, insert_path, sort_paths, libraries_in, load,
}
use amp_cucumber_cpp_runner.Plugin.Manager.Laws.{IsLoaded, expand, plan, load-IsLoaded}

-- A comparison of paths the other way round has the opposite result.
abbrev pub HasFlip : FileSystem → Type 0
HasFlip files = (a b : String) → files.compare_paths b a ≡ opposite (files.compare_paths a b)

module _ (files : FileSystem) where
  -- No path is greater than the next one.
  abbrev pub IsAscending : List String → Type 0
  IsAscending [] = Unit
  IsAscending (path ∷ []) = Unit
  IsAscending (path ∷ next ∷ paths) =
      (files.compare_paths path next ≢ Nat.Ordering.gt) × IsAscending (next ∷ paths)

  insert_path-Perm :
      (path : String) (paths : List String) → Perm (insert_path files path paths) (path ∷ paths)
  unfolding insert_path
  insert_path-Perm path [] = Perm.refl _
  insert_path-Perm path (other ∷ paths) = elim (ordering_cases (files.compare_paths path other)) [
    | is_gt above ↦
        rw (insert_path, above)
          (Perm.trans (Perm.cons other (insert_path-Perm path paths)) (Perm.swap path other paths))
    | is_eq equal ↦ rw (insert_path, equal) (Perm.refl _)
    | is_lt below ↦ rw (insert_path, below) (Perm.refl _)
  ]

  sort_paths-Perm : (paths : List String) → Perm (sort_paths files paths) paths
  unfolding sort_paths
  sort_paths-Perm [] = Perm.refl _
  sort_paths-Perm (path ∷ paths) =
      Perm.trans (insert_path-Perm path (sort_paths files paths))
        (Perm.cons path (sort_paths-Perm paths))

  module _ (flip : HasFlip files) where
    -- A path that is not less than the first goes behind it.
    insert_behind-IsAscending :
        (path first : String) (paths : List String)
        → files.compare_paths path first ≡ Nat.Ordering.gt
        → IsAscending (first ∷ paths)
        → IsAscending (first ∷ insert_path files path paths)
    unfolding insert_path
    insert_behind-IsAscending path first [] h sorted =
        ((λ above. cc (sym above ∙ flip path first ∙ ap opposite h)), tt)
    insert_behind-IsAscending path first (other ∷ paths) h (before, sorted) =
        elim (ordering_cases (files.compare_paths path other)) [
          | is_gt above ↦
              rw (insert_path, above)
                (before, insert_behind-IsAscending path other paths above sorted)
          | is_eq equal ↦
              rw (insert_path, equal)
                (
                  (λ above. cc (sym above ∙ flip path first ∙ ap opposite h)),
                  ((λ above. cc (sym equal ∙ above)), sorted),
                )
          | is_lt below ↦
              rw (insert_path, below)
                (
                  (λ above. cc (sym above ∙ flip path first ∙ ap opposite h)),
                  ((λ above. cc (sym below ∙ above)), sorted),
                )
        ]

    insert_path-IsAscending :
        (path : String) (paths : List String)
        → IsAscending paths
        → IsAscending (insert_path files path paths)
    unfolding insert_path
    insert_path-IsAscending path [] h = tt
    insert_path-IsAscending path (other ∷ paths) h =
        elim (ordering_cases (files.compare_paths path other)) [
          | is_gt above ↦
              rw (insert_path, above) (insert_behind-IsAscending path other paths above h)
          | is_eq equal ↦ rw (insert_path, equal) ((λ above. cc (sym equal ∙ above)), h)
          | is_lt below ↦ rw (insert_path, below) ((λ above. cc (sym below ∙ above)), h)
        ]

    sort_paths-IsAscending : (paths : List String) → IsAscending (sort_paths files paths)
    unfolding sort_paths
    sort_paths-IsAscending [] = tt
    sort_paths-IsAscending (path ∷ paths) =
        insert_path-IsAscending path (sort_paths files paths) (sort_paths-IsAscending paths)

  module _ {P : Platform} (loader : Loader P) where
    -- The libraries that a path stands for. In a directory these are its regular files with the
    -- platform's extension, each once, in the order of their paths.
    pub record Expands (full : String) (found : List String) : Type 0 where
      pub of_directory :
          files.is_directory full ≡ true
          → Perm found (
              keep_if
                (λ path.
                  files.is_regular_file path
                  && str_eq (files.extension path) loader.platform_extension)
                (files.entries full))
            × IsAscending found
      pub of_file :
          files.is_directory full ≡ false → files.is_regular_file full ≡ true → found ≡ full ∷ []
      pub of_other :
          files.is_directory full ≡ false → files.is_regular_file full ≡ false → found ≡ []

    abbrev pub ExpandsTo : Option String → List String → Type 0
    ExpandsTo none found = found ≡ []
    ExpandsTo (some full) found = Expands full found

    -- Those of the first path, and then those of the others
    abbrev pub IsPlanOf : List String → List String → Type 0
    IsPlanOf [] planned = planned ≡ []
    IsPlanOf (path ∷ paths) planned =
        (first : List String) × (rest : List String) × (planned ≡ first ++ rest)
        × ExpandsTo (loader.canonical path) first
        × IsPlanOf paths rest

    libraries_in-Expands :
        HasFlip files → (full : String) → Expands full (expand files loader (some full))
    unfolding libraries_in
    libraries_in-Expands flip full = record {
      of_directory = λ directory. rw directory (
        sort_paths-Perm (keep_if (is_library files loader.platform_extension) (files.entries full)),
        sort_paths-IsAscending flip
            (keep_if (is_library files loader.platform_extension) (files.entries full)),
      );
      of_file = λ other file. rw (other, file) refl;
      of_other = λ other none'. rw (other, none') refl;
    }

    expand-ExpandsTo :
        HasFlip files → (full : Option String) → ExpandsTo full (expand files loader full)
    expand-ExpandsTo flip none = refl
    expand-ExpandsTo flip (some full) = libraries_in-Expands flip full

    plan-IsPlanOf : HasFlip files → (paths : List String) → IsPlanOf paths (plan files loader paths)
    plan-IsPlanOf flip [] = refl
    plan-IsPlanOf flip (path ∷ paths) = (
      expand files loader (loader.canonical path),
      plan files loader paths,
      refl,
      expand-ExpandsTo flip (loader.canonical path),
      plan-IsPlanOf flip paths,
    )

-- Where a comparison of two paths the other way round has the opposite result, `Load` opens the
-- libraries that its paths stand for, in order: those of a directory, which are its regular files
-- with the platform's extension, in the order of their paths, and a file itself. If it throws, it
-- has opened a first part of them, and else all. It opens none whose path, as it is listed and
-- before `weakly_canonical` resolves it, has not the platform's extension.
pub load-IsPlanned :
    {P : Platform} {E : Expressions} (files : FileSystem) (host : Host) (loader : Loader P)
    (paths : List String) (s : Process P E)
    → HasFlip files
    → (planned : List String) × IsPlanOf files loader paths planned
      × IsLoaded files host loader planned s (load files host loader paths s)
load-IsPlanned files host loader paths s flip = (
  plan files loader paths,
  plan-IsPlanOf files loader flip paths,
  load-IsLoaded files host loader paths s,
)
